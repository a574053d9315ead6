-- ===== src/Sim/Network/Failure.antt =====
-- A failure on a ring of daemons of extras/sim, from the command at one node to the other nodes.
use mathlib.Core.Path.{subst}
use erps.Common.{ℕ, true, some, List, [], ◌∷◌, ◌≡◌, refl, ◌∙◌}
use erps.Raps.{NodeId, sf}
use erps.Raps.Frame.{frame_of}
use erps.Raps.Roundtrip.{IsMessage}
use erps.Ring.{PortRef, ref0, ref1, Ring}
use erps.Sim.Outcome.{done}
use erps.Sim.Node.{ring_send_raps}
use erps.Sim.Daemon.{Daemon, fail, set_failed, execute, port_cb}
use erps.Sim.Network.{opposite, sent_on, Hop, along}
use erps.Sim.Network.Line.{Every, Takes, both_ways, turned, roles, flipped}
use erps.Sim.Network.Message.{port_cb_own}
use erps.Sim.Network.Alarm.{IsFree, HasHeard, hears, hears_again}
use erps.Sim.Network.Failing.{IsCalm, IsAlarmed, sends_both, execute-IsAlarmed}

pub one_each :
    (q : PortRef) (r : Ring)
    → ring_send_raps r ≡ sends_both r.raps
    → sent_on q (ring_send_raps r) ≡ frame_of r.raps ∷ []
unfolding sent_on
one_each ref0 r e = rw e refl
one_each ref1 r e = rw e refl

-- What the nodes of the ring are behind a failure: `r'` is the ring of the node where it was, and the others,
-- `hops'`, have had its message from one side and, as `hops2`, from both.
pub record IsKnown (later : ℕ) (q : PortRef) (src : Daemon) (hops : List Hop) (r' : Ring)
    : Type 0 where
  pub hops' : List Hop
  pub hops2 : List Hop
  pub there : along later (sent_on q (ring_send_raps r')) hops ≡ done (hops', frame_of r'.raps ∷ [])
  pub back :
      along later (sent_on (opposite q) (ring_send_raps r')) (turned hops')
      ≡ done (hops2, frame_of r'.raps ∷ [])
  pub kept : roles hops2 ≡ flipped (roles hops)
  pub heard : Every (λ hop. HasHeard src.ring.node_id hop.daemon.ring) hops2
  pub ends :
      (p : PortRef)
      → port_cb later true p (some (frame_of r'.raps, 55)) (record src { ring = r' })
        ≡ done (record src { ring = r' }, [])

-- A ring with the message SF, at nodes that take it each.
pub floods :
    (later : ℕ) (q : PortRef) (src : Daemon) (hops : List Hop) (r' : Ring)
    (P : NodeId → Hop → Type 0)
    → IsMessage r'.raps
    → r'.raps.request ≡ sf
    → ring_send_raps r' ≡ sends_both r'.raps
    → r'.raps.node_id ≡ r'.node_id
    → r'.raps.node_id ≡ src.ring.node_id
    → ((hop : Hop)
        → P r'.raps.node_id hop
        → Takes later (frame_of r'.raps) (λ h. HasHeard r'.raps.node_id h.daemon.ring) hop)
    → Every (P src.ring.node_id) hops
    → IsKnown later q src hops r'
floods later q src hops r' P message says sends own source each h =
    let (hops1, hops2, there, back, kept, again) =
      both_ways later (frame_of r'.raps) _ (λ d. HasHeard src.ring.node_id d.ring)
        (subst
          (λ n.
            (hop : Hop)
            → P n hop
            → Takes later (frame_of r'.raps) (λ h. HasHeard n h.daemon.ring) hop)
          source each)
        (subst
          (λ n.
            (hop : Hop)
            → HasHeard n hop.daemon.ring
            → Takes later (frame_of r'.raps) (λ h. HasHeard n h.daemon.ring) hop)
          source (hears_again later r'.raps message says))
        hops h in
    record {
      hops' = hops1;
      hops2 = hops2;
      there = rw (one_each q r' sends) there;
      back = rw (one_each (opposite q) r' sends) back;
      kept = kept;
      heard = again;
      ends = λ s. port_cb_own later s r'.raps (record src { ring = r' }) own;
    }

-- A calm node of the ring blocks the failed port and sends SF on both. If the other nodes are free, the frame goes
-- through all of them from either side and ends at the node that has sent it; behind that all of them are in
-- PROTECTION with both ports open, silent, and in the roles they had.
pub failure_floods :
    (now later : ℕ) (p q : PortRef) (src : Daemon) (hops : List Hop)
    → IsCalm src.ring
    → Every (λ hop. IsFree later src.ring.node_id hop.daemon.ring) hops
    → (r' : Ring) × (execute now (some fail) (some p) src.ring ≡ done r')
      × IsAlarmed p (set_failed true p src.ring) r'
      × IsKnown later q src hops r'
failure_floods now later p q src hops h free =
    let (r', run, alarmed, id) = execute-IsAlarmed now p src.ring h in
    (
      r',
      run,
      alarmed,
      floods later q src hops r' (λ n hop. IsFree later n hop.daemon.ring) alarmed.message
          alarmed.says alarmed.sends alarmed.own (alarmed.own ∙ id)
          (hears later r'.raps alarmed.message alarmed.says) free,
    )
