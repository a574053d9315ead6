-- ===== src/Sim/Network/Line.antt =====
-- A frame that every node of the line passes on.
use mathlib.Core.Path.{subst}
use erps.Common.{sym, true, ℕ, ◌++◌, some, List, [], ◌∷◌, length, ◌≡◌, refl, ◌∙◌, ap, Bool, Option}
use erps.Raps.{NodeId}
use erps.Ring.{PortRef, ref0, ref1, Ring}
use erps.Ring.Steady.{IsConfigured}
use erps.Sim.Outcome.{done}
use erps.Sim.Daemon.{Daemon, port_cb}
use erps.Sim.Network.{opposite, sent_on, receive_all, Hop, along}

-- `P` holds of all of them.
abbrev pub Every : (Hop → Type 0) → List Hop → Type 0
Every P [] = Unit {0}
Every P (hop ∷ hops) = P hop × Every P hops

-- The node sends the frame on, and nothing else.
abbrev pub Passes : ℕ → List ℕ → Hop → Daemon → Type 0
Passes now frame hop d =
    port_cb now true hop.entry (some (frame, length frame)) hop.daemon
    ≡ done (d, (opposite hop.entry, frame) ∷ [])

pub opposite_twice : (p : PortRef) → opposite (opposite p) ≡ p
opposite_twice ref0 = refl
opposite_twice ref1 = refl

pub receive_one :
    (now : ℕ) (frame : List ℕ) (hop : Hop) (d : Daemon)
    → Passes now frame hop d
    → receive_all now hop.entry (frame ∷ []) hop.daemon ≡ done (d, (opposite hop.entry, frame) ∷ [])
unfolding receive_all
receive_one now frame hop d e = rw e refl

pub sent_on_lem : (p : PortRef) (frame : List ℕ) → sent_on p ((p, frame) ∷ []) ≡ frame ∷ []
unfolding sent_on
sent_on_lem ref0 frame = refl
sent_on_lem ref1 frame = refl

-- What a node and its messages are configured to be, and the port that its frames come in on.
pub record Role : Type 0 where
  pub entry : PortRef
  pub is_rpl_owner : Bool
  pub is_rpl_neighbour : Bool
  pub is_revertive : Bool
  pub rpl_port : Option PortRef
  pub node_id : NodeId
  pub source : NodeId
  pub message_ring : ℕ
  pub message_subcode : ℕ

abbrev pub role_of : PortRef → Ring → Role
role_of entry r = record {
  entry = entry;
  is_rpl_owner = r.is_rpl_owner;
  is_rpl_neighbour = r.is_rpl_neighbour;
  is_revertive = r.is_revertive;
  rpl_port = r.rpl_port;
  node_id = r.node_id;
  source = r.raps.node_id;
  message_ring = r.raps.ring_id;
  message_subcode = r.raps.subcode;
}

pub role_of-IsConfigured :
    (entry : PortRef) {r r' : Ring} → IsConfigured r r' → role_of entry r' ≡ role_of entry r
role_of-IsConfigured entry k = λ i. record {
  entry = entry;
  is_rpl_owner = k.owner i;
  is_rpl_neighbour = k.neighbour i;
  is_revertive = k.revertive i;
  rpl_port = k.rpl i;
  node_id = k.node_id i;
  source = k.source i;
  message_ring = k.message_ring i;
  message_subcode = k.message_subcode i;
}

abbrev pub roles : List Hop → List Role
roles [] = []
roles (hop ∷ hops) = role_of hop.entry hop.daemon.ring ∷ roles hops

-- The node passes the frame on, in the same role, and has `Q` then.
abbrev pub Takes : ℕ → List ℕ → (Hop → Type 0) → Hop → Type 0
Takes now frame Q hop =
    (d : Daemon) × Passes now frame hop d
    × (role_of hop.entry d.ring ≡ role_of hop.entry hop.daemon.ring)
    × Q (record hop { daemon = d })

-- If each node takes the frame so, the line does.
pub along-Every :
    (now : ℕ) (frame : List ℕ) (P Q : Hop → Type 0)
    → ((hop : Hop) → P hop → Takes now frame Q hop)
    → (hops : List Hop) → Every P hops
    → (hops' : List Hop) × (along now (frame ∷ []) hops ≡ done (hops', frame ∷ []))
      × (roles hops' ≡ roles hops)
      × Every Q hops'
unfolding along
along-Every now frame P Q each [] h = ([], refl, refl, tt)
along-Every now frame P Q each (hop ∷ hops) (p, ps) =
    let (d, e, role, q) = each hop p in
    let (hops', es, kept, qs) = along-Every now frame P Q each hops ps in
    (
      record hop { daemon = d } ∷ hops',
      rw (receive_one now frame hop d e, sent_on_lem (opposite hop.entry) frame, es) refl,
      λ i. role i ∷ kept i,
      (q, qs),
    )

pub Every-append :
    (P : Hop → Type 0) (hops more : List Hop) → Every P hops → Every P more → Every P (hops ++ more)
Every-append P [] more h k = k
Every-append P (hop ∷ hops) more (h, hs) k = (h, Every-append P hops more hs k)

-- The same nodes, from the other end of the line.
abbrev pub turned : List Hop → List Hop
turned [] = []
turned (hop ∷ hops) = turned hops ++ (record hop { entry = opposite hop.entry } ∷ [])

pub Every-turned :
    (P : PortRef → Daemon → Type 0) (hops : List Hop)
    → Every (λ hop. P hop.entry hop.daemon) hops
    → Every (λ hop. P (opposite hop.entry) hop.daemon) (turned hops)
Every-turned P [] h = tt
Every-turned P (hop ∷ hops) (h, hs) =
    Every-append (λ hop. P (opposite hop.entry) hop.daemon) (turned hops) _ (Every-turned P hops hs)
      (subst (λ p. P p hop.daemon) (sym (opposite_twice hop.entry)) h, tt)

-- The same roles, from the other end of the line.
abbrev pub flipped : List Role → List Role
flipped [] = []
flipped (role ∷ rest) = flipped rest ++ (record role { entry = opposite role.entry } ∷ [])

roles-append : (hops more : List Hop) → roles (hops ++ more) ≡ roles hops ++ roles more
roles-append [] more = refl
roles-append (hop ∷ hops) more =
    ap (λ rest. role_of hop.entry hop.daemon.ring ∷ rest) (roles-append hops more)

pub roles-turned : (hops : List Hop) → roles (turned hops) ≡ flipped (roles hops)
roles-turned [] = refl
roles-turned (hop ∷ hops) =
    roles-append (turned hops) _
    ∙ ap (λ rest. rest ++ (role_of (opposite hop.entry) hop.daemon.ring ∷ [])) (roles-turned hops)

-- If each node takes the frame the first time and the second time, the line takes it from one end and then from the
-- other.
pub both_ways :
    (now : ℕ) (frame : List ℕ) (P : Hop → Type 0) (Q : Daemon → Type 0)
    → ((hop : Hop) → P hop → Takes now frame (λ h. Q h.daemon) hop)
    → ((hop : Hop) → Q hop.daemon → Takes now frame (λ h. Q h.daemon) hop)
    → (hops : List Hop) → Every P hops
    → (hops' : List Hop) × (hops2 : List Hop) × (along now (frame ∷ []) hops
        ≡ done (hops', frame ∷ []))
      × (along now (frame ∷ []) (turned hops') ≡ done (hops2, frame ∷ []))
      × (roles hops2 ≡ flipped (roles hops))
      × Every (λ h. Q h.daemon) hops2
both_ways now frame P Q first again hops h =
    let (hops1, there, roles1, once) = along-Every now frame P (λ h. Q h.daemon) first hops h in
    let (hops2, back, roles2, twice) =
      along-Every now frame (λ h. Q h.daemon) (λ h. Q h.daemon) again (turned hops1)
        (Every-turned (λ _. Q) hops1 once) in
    (hops1, hops2, there, back, roles2 ∙ (roles-turned hops1 ∙ ap flipped roles1), twice)
