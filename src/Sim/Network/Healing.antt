-- ===== src/Sim/Network/Healing.antt =====
-- A failure on a ring of daemons of extras/sim, from its start to the ring at rest.
use mathlib.Core.Path.{subst}
use erps.Common.{
  ℕ, ◌+◌, ◌≤◌, ◌<◌, ◌^◌, ◌++◌, true, false, some, List, ◌∷◌, ◌≡◌, refl, ◌∙◌, ap, sym, Bool,
}
use erps.Ring.{PortRef, ref0, ref1, Ring}
use erps.Sim.Outcome.{done}
use erps.Sim.Daemon.{Daemon, fail, recover, set_failed, execute}
use erps.Sim.Reversion.{IsRestored, run_seconds, every_second}
use erps.Sim.Network.{opposite, Hop}
use erps.Sim.Network.Line.{Every, Every-append, Role, role_of, roles, flipped}
use erps.Sim.Network.Alarm.{IsFree, HasHeard}
use erps.Sim.Network.Failing.{IsCalm}
use erps.Sim.Network.Failure.{IsKnown, failure_floods}
use erps.Sim.Network.Noting.{HasNoted}
use erps.Sim.Network.Recovering.{alarmed-IsFailed, recovered-IsPatient}
use erps.Sim.Network.Recovery.{IsOver, recovery_floods}
use erps.Sim.Network.Resting.{IsPatient}
use erps.Sim.Network.Restoration.{IsReverted, owner_restores}
use erps.Sim.Network.Roles.{
  flipped_twice, Each, IsAround, around, Follows, Owns, followers_wait, owner_waits, owner_since,
  owner-HasIdentity,
}

-- The end of it: `hops` are the nodes but `src`, in the order in which a frame reaches them that leaves the node at
-- its port `q`. The owner of the RPL is one of them, and the line from it on goes over `src` and back to it.
pub record IsHealed (now later : ℕ) (p q : PortRef) (src : Daemon) (hops : List Hop) : Type 0 where
  pub before : List Hop
  pub node : Hop
  pub after : List Hop
  pub line : hops ≡ before ++ (node ∷ after)
  pub owner : node.daemon.ring.is_rpl_owner ≡ true
  pub ring : Ring
  pub waits : run_seconds (every_second 16 now) node.daemon.ring ≡ done ring
  pub restored : IsRestored p ring
  pub reverted :
      IsReverted later
        (opposite node.entry)
        node.daemon
        (after ++ (record { entry = opposite q; daemon = src } ∷ before))
        ring

-- A line that has noted the end of the failure, with the owner in it.
line_heals :
    (now later since : ℕ) (p q : PortRef) (src : Daemon) (hops : List Hop) (before : List Role)
    (own : Role) (after : List Role)
    → Every (λ hop. HasNoted since src.ring.node_id hop.daemon.ring) hops
    → IsPatient later own.node_id (opposite q) src.ring
    → roles hops ≡ before ++ (own ∷ after)
    → Owns p own
    → Each (Follows own.node_id) before
    → Each (Follows own.node_id) after
    → since ≤ now
    → now + 15000 < 2 ^ 64
    → IsHealed now later p q src hops
line_heals now later since p q src hops before own after noted patient e owns front rear late
      small =
    let a : IsAround (λ hop. HasNoted since src.ring.node_id hop.daemon.ring) hops before own
        after =
      around _ hops before own after e noted in
    let o : Owns p (role_of a.node.entry a.node.daemon.ring) =
      subst (Owns p) (sym a.node_role) owns in
    let named : own.node_id ≡ a.node.daemon.ring.node_id = ap (λ r. r.node_id) (sym a.node_role) in
    let source = src.ring.node_id in
    let line : List Hop = a.rear ++ (record { entry = opposite q; daemon = src } ∷ a.front) in
    let waits : Every (λ hop. IsPatient later own.node_id hop.entry hop.daemon.ring) line =
      Every-append (λ hop. IsPatient later own.node_id hop.entry hop.daemon.ring) a.rear _
        (followers_wait later since source own.node_id a.rear a.rear_have
          (subst (Each (Follows own.node_id)) (sym a.rear_roles) rear))
        (
          patient,
          followers_wait later since source own.node_id a.front a.front_have
              (subst (Each (Follows own.node_id)) (sym a.front_roles) front),
        ) in
    let started = owner_since since source p a.node o a.node_has in
    let (ring, run, back, reverted) =
      owner_restores now later p (opposite a.node.entry) a.node.daemon line
        (owner_waits since source p a.node o a.node_has) (owner-HasIdentity since source p a.node o)
        (subst (λ t. t ≤ now) (sym started) late) small
        (subst (λ n. Every (λ hop. IsPatient later n hop.entry hop.daemon.ring) line) named
          waits) in
    record {
      before = a.front;
      node = a.node;
      after = a.rear;
      line = a.line;
      owner = o.owner;
      ring = ring;
      waits = run;
      restored = back;
      reverted = reverted;
    }

set_failed_role :
    (failed : Bool) (p entry : PortRef) (r : Ring)
    → role_of entry (set_failed failed p r) ≡ role_of entry r
unfolding set_failed
set_failed_role failed ref0 entry r = refl
set_failed_role failed ref1 entry r = refl

-- A calm node obeys the command `fail`, and later the command `recover`. The other nodes are free at first; one of
-- them is the revertive owner of the RPL, whose messages have its own address, which no other node has, and fields
-- that fit. No other node is an owner. A neighbour of the RPL among them and the node itself has the RPL on the
-- side that the first copy of the frame of the owner leaves it by.
-- Each message goes through the whole ring, the timer is called from then on, the message of the owner comes
-- half a second behind `recover` or later, the clocks are far from their end, and no other event comes between.
-- Then both frames of the node pass all others and end at it; behind them and sixteen calls of the timer callback the
-- owner is in IDLE with the RPL blocked. Its frame goes out on both ports. The first copy passes all other nodes, which
-- it leads to IDLE, silent, with both ports open or, at the neighbour of the RPL, with only the RPL blocked, and ends at
-- the owner. The other copy, behind that, changes nothing: the neighbour stops it, and if there is none it passes
-- all nodes and ends at the owner, too.
pub ring_heals :
    (now1 later1 now2 later2 now3 later3 : ℕ) (p q rpl : PortRef) (src : Daemon) (hops : List Hop)
    (before : List Role) (own : Role) (after : List Role)
    → IsCalm src.ring
    → Every (λ hop. IsFree later1 src.ring.node_id hop.daemon.ring) hops
    → roles hops ≡ before ++ (own ∷ after)
    → Owns rpl own
    → Each (Follows own.node_id) before
    → Each (Follows own.node_id) after
    → Follows own.node_id (role_of (opposite q) src.ring)
    → later2 ≤ now3
    → now3 + 15000 < 2 ^ 64
    → now2 + 500 ≤ later3
    → later3 < 2 ^ 64
    → (failed : Ring) × (execute now1 (some fail) (some p) src.ring ≡ done failed)
      × (known : IsKnown later1 q src hops failed) × (over : Ring) × (execute now2
            (some recover)
            (some p)
            failed
          ≡ done over)
      × (ended : IsOver later2 (opposite q) (record src { ring = failed }) known.hops2 over)
      × IsHealed now3 later3 rpl q (record src { ring = over }) ended.hops2
ring_heals now1 later1 now2 later2 now3 later3 p q rpl src hops before own after calm free e owns
      front rear plain late small rest last =
    let (failed, run1, alarmed, known) = failure_floods now1 later1 p q src hops calm free in
    let same1 : (entry : PortRef) → role_of entry failed ≡ role_of entry src.ring =
      λ entry. alarmed.role entry ∙ set_failed_role true p entry src.ring in
    let heard : Every (λ hop. HasHeard failed.node_id hop.daemon.ring) known.hops2 =
      subst (λ n. Every (λ hop. HasHeard n hop.daemon.ring) known.hops2)
        (ap (λ r. r.node_id) (sym (same1 ref0))) known.heard in
    let (over, run2, recovered, ended) =
      recovery_floods now2 later2 p (opposite q) (record src { ring = failed }) known.hops2
        (alarmed-IsFailed p (set_failed true p src.ring) failed alarmed) heard in
    let same2 : (entry : PortRef) → role_of entry over ≡ role_of entry failed =
      λ entry. recovered.role entry ∙ set_failed_role false p entry failed in
    let (not_owner, differ, away) =
      subst (Follows own.node_id) (sym (same2 (opposite q) ∙ same1 (opposite q))) plain in
    let noted : Every (λ hop. HasNoted later2 over.node_id hop.daemon.ring) ended.hops2 =
      subst (λ n. Every (λ hop. HasNoted later2 n hop.daemon.ring) ended.hops2)
        (ap (λ r. r.node_id) (sym (same2 ref0))) ended.noted in
    let line : roles ended.hops2 ≡ before ++ (own ∷ after) =
      ended.kept ∙ (ap flipped known.kept ∙ (flipped_twice (roles hops) ∙ e)) in
    (
      failed,
      run1,
      known,
      over,
      run2,
      ended,
      line_heals now3 later3 later2 rpl q (record src { ring = over }) ended.hops2 before own after
          noted
          (recovered-IsPatient now2 later3 own.node_id p (opposite q) (set_failed false p failed)
            over recovered rest last not_owner differ away)
          line owns front rear late small,
    )
