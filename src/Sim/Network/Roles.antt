-- ===== src/Sim/Network/Roles.antt =====
-- The roles of the daemons on a line of extras/sim, and what a recovered line is for its owner.
use erps.Common.{ℕ, ◌++◌, ◌<◌, true, false, some, List, [], ◌∷◌, ◌≡◌, refl, ◌∙◌, ap, arith}
use erps.Raps.{NodeId}
use erps.Ring.{PortRef}
use erps.Sim.Network.{opposite, Hop}
use erps.Sim.Network.Line.{opposite_twice, Every, Role, role_of, roles, flipped}
use erps.Sim.Network.Message.{Differ}
use erps.Sim.Network.Failing.{HasIdentity}
use erps.Sim.Network.Resting.{IsPatient}
use erps.Sim.Network.Noting.{HasNoted}
use erps.Sim.Reversion.{IsWaiting}

flipped-append :
    (front : List Role) (role : Role)
    → flipped (front ++ (role ∷ [])) ≡ record role { entry = opposite role.entry } ∷ flipped front
flipped-append [] role = refl
flipped-append (first ∷ front) role =
    ap (λ rest. rest ++ (record first { entry = opposite first.entry } ∷ []))
      (flipped-append front role)

pub flipped_twice : (line : List Role) → flipped (flipped line) ≡ line
flipped_twice [] = refl
flipped_twice (role ∷ line) =
    flipped-append (flipped line) (record role { entry = opposite role.entry })
    ∙ (λ i. record role { entry = opposite_twice role.entry i } ∷ flipped_twice line i)

-- `P` holds of all of them.
abbrev pub Each : (Role → Type 0) → List Role → Type 0
Each P [] = Unit {0}
Each P (role ∷ line) = P role × Each P line

-- The line around the node of the role.
pub record IsAround (P : Hop → Type 0) (hops : List Hop) (before : List Role) (role : Role)
    (after : List Role) : Type 0 where
  pub front : List Hop
  pub node : Hop
  pub rear : List Hop
  pub line : hops ≡ front ++ (node ∷ rear)
  pub front_roles : roles front ≡ before
  pub node_role : role_of node.entry node.daemon.ring ≡ role
  pub rear_roles : roles rear ≡ after
  pub front_have : Every P front
  pub node_has : P node
  pub rear_have : Every P rear

pub around :
    (P : Hop → Type 0) (hops : List Hop) (before : List Role) (role : Role) (after : List Role)
    → roles hops ≡ before ++ (role ∷ after)
    → Every P hops
    → IsAround P hops before role after
around P [] [] role after e h = absurd (ground (arith, e))
around P [] (first ∷ before) role after e h = absurd (ground (arith, e))
around P (hop ∷ hops) [] role after e (h, hs) = record {
  front = [];
  node = hop;
  rear = hops;
  line = refl;
  front_roles = refl;
  node_role = cc;
  rear_roles = cc;
  front_have = tt;
  node_has = h;
  rear_have = hs;
}
around P (hop ∷ hops) (first ∷ before) role after e (h, hs) =
    let same : role_of hop.entry hop.daemon.ring ≡ first = cc in
    let rest : roles hops ≡ before ++ (role ∷ after) = cc in
    let a : IsAround P hops before role after = around P hops before role after rest hs in
    record {
      front = hop ∷ a.front;
      node = a.node;
      rear = a.rear;
      line = ap (λ tail. hop ∷ tail) a.line;
      front_roles = λ i. same i ∷ a.front_roles i;
      node_role = a.node_role;
      rear_roles = a.rear_roles;
      front_have = (h, a.front_have);
      node_has = a.node_has;
      rear_have = a.rear_have;
    }

-- A node that is not the owner of the RPL; if it is the neighbour, it has the RPL on the side that the frames leave it by.
abbrev pub Follows : NodeId → Role → Type 0
Follows owner role =
    (role.is_rpl_owner ≡ false)
    × Differ owner role.node_id
    × (role.is_rpl_neighbour ≡ true → role.rpl_port ≡ some (opposite role.entry))

-- A revertive owner of the RPL, whose messages have its own address and fields that fit.
pub record Owns (p : PortRef) (role : Role) : Type 0 where
  pub owner : role.is_rpl_owner ≡ true
  pub revertive : role.is_revertive ≡ true
  pub rpl : role.rpl_port ≡ some p
  pub own : role.source ≡ role.node_id
  pub ring_id_fits : role.message_ring < 256
  pub subcode_fits : role.message_subcode < 16

-- A follower that has noted the end of the failure is patient.
follower_waits :
    (later since : ℕ) (source owner : NodeId) (hop : Hop)
    → HasNoted since source hop.daemon.ring
    → Follows owner (role_of hop.entry hop.daemon.ring)
    → IsPatient later owner hop.entry hop.daemon.ring
follower_waits later since source owner hop h (plain, other, away) = record {
  running = h.running;
  in_pending = h.in_pending;
  plain = plain;
  news = λ e. let f = h.request in ground (arith, e, f);
  unasked = h.unasked;
  listens = rw h.unguarded refl;
  other = other;
  away = away;
}

pub followers_wait :
    (later since : ℕ) (source owner : NodeId) (hops : List Hop)
    → Every (λ hop. HasNoted since source hop.daemon.ring) hops
    → Each (Follows owner) (roles hops)
    → Every (λ hop. IsPatient later owner hop.entry hop.daemon.ring) hops
followers_wait later since source owner [] h f = tt
followers_wait later since source owner (hop ∷ hops) (h, hs) (f, fs) = (
  follower_waits later since source owner hop h f,
  followers_wait later since source owner hops hs fs,
)

module _ (since : ℕ) (source : NodeId) (p : PortRef) (hop : Hop)
    (o : Owns p (role_of hop.entry hop.daemon.ring)) where
  pub owner_waits : HasNoted since source hop.daemon.ring → IsWaiting p hop.daemon.ring
  owner_waits h = record {
    running = h.running;
    in_pending = h.in_pending;
    owner = o.owner;
    rpl = o.rpl;
    ticking = h.ticking (rw (o.owner, o.revertive) refl);
    unasked = h.unasked;
  }

  pub owner_since :
      HasNoted since source hop.daemon.ring → hop.daemon.ring.wtr_timer_active_since ≡ since
  owner_since h = h.since (rw (o.owner, o.revertive) refl)

  pub owner-HasIdentity : HasIdentity hop.daemon.ring
  owner-HasIdentity = record {
    own = o.own;
    ring_id_fits = o.ring_id_fits;
    subcode_fits = o.subcode_fits;
  }
