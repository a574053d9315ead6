-- ===== src/Sim/Network/Resending.antt =====
-- A message of extras/sim that a link has lost, and the next one of the same node.
use mathlib.Core.Path.{subst}
use erps.Common.{ℕ, ◌-◌, List, ◌≡◌, ◌⊎◌, inl, inr, refl, sym, ◌∙◌, true, ap}
use erps.Raps.{NodeId}
use erps.Ring.{PortRef, Ring}
use erps.Sim.Node.{ring_send_raps}
use erps.Sim.Daemon.{Daemon, send_raps_cb}
use erps.Sim.Burst.{send_times, send_times_lem, one_call}
use erps.Sim.Network.{Hop}
use erps.Sim.Network.Line.{Every}
use erps.Sim.Network.Alarm.{IsFree, HasHeard, hears, hears_again}
use erps.Sim.Network.Failing.{IsAlarmed, sends_both}
use erps.Sim.Network.Failure.{IsKnown, floods}

-- A node that the message has reached already, or can reach.
abbrev pub HasHeardOrIsFree : ℕ → NodeId → Hop → Type 0
HasHeardOrIsFree now source hop =
    IsFree now source hop.daemon.ring ⊎ HasHeard source hop.daemon.ring

same_sends :
    (k : ℕ) (r : Ring) → ring_send_raps (record r { raps_bursts_remain = k }) ≡ ring_send_raps r
unfolding ring_send_raps
same_sends k r = refl

-- A node is in PROTECTION behind the command `fail`. Behind `n` calls of the callback, of whose frames the links may
-- have lost any, the next call sends the frame of the message once more, on both ports. If each of the other nodes
-- has heard of the failure or is free, the frame goes through all of them from either side and ends at the node that
-- has sent it; behind that all of them are in PROTECTION with both ports open, silent, and in the roles they had.
pub resent_floods :
    (n later : ℕ) (p q : PortRef) (r : Ring) (src : Daemon) (hops : List Hop)
    → IsAlarmed p r src.ring
    → Every (HasHeardOrIsFree later src.ring.node_id) hops
    → ((send_raps_cb (send_times n src).0).1 ≡ ring_send_raps (send_times n src).0.ring)
      × (ring_send_raps (send_times n src).0.ring ≡ sends_both src.ring.raps)
      × IsKnown later q src hops (send_times n src).0.ring
resent_floods n later p q r src hops alarmed h =
    let rings = (send_times_lem n src alarmed.sending).0 in
    let k = src.ring.raps_bursts_remain - n in
    let sending : (send_times n src).0.ring.is_sending_raps ≡ true = rw rings alarmed.sending in
    let sends : ring_send_raps (record src.ring { raps_bursts_remain = k })
        ≡ sends_both src.ring.raps =
      same_sends k src.ring ∙ alarmed.sends in
    (
      ap (λ x. x.1) (one_call (send_times n src).0 sending),
      subst (λ x. ring_send_raps x ≡ sends_both src.ring.raps) (sym rings) sends,
      subst (IsKnown later q src hops) (sym rings) (
          floods later q src hops (record src.ring { raps_bursts_remain = k })
            (HasHeardOrIsFree later) alarmed.message alarmed.says sends alarmed.own alarmed.own
            (λ hop x. elim x [
              | inl free ↦ hears later src.ring.raps alarmed.message alarmed.says hop free
              | inr heard ↦ hears_again later src.ring.raps alarmed.message alarmed.says hop heard
            ])
            h),
    )
