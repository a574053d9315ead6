-- ===== src/Sim/Network/Recovery.antt =====
-- The end of a failure on a ring of daemons of extras/sim, from the command at its node to the other nodes.
use mathlib.Core.Path.{subst}
use erps.Common.{true, ℕ, false, some, List, [], ◌∷◌, ◌≡◌, ◌∙◌}
use erps.Raps.Frame.{frame_of}
use erps.Ring.{PortRef, Ring}
use erps.Sim.Outcome.{done}
use erps.Sim.Node.{ring_send_raps}
use erps.Sim.Daemon.{Daemon, recover, set_failed, execute, port_cb}
use erps.Sim.Network.{opposite, sent_on, Hop, along}
use erps.Sim.Network.Line.{Every, Takes, both_ways, turned, roles, flipped}
use erps.Sim.Network.Message.{port_cb_own}
use erps.Sim.Network.Alarm.{HasHeard}
use erps.Sim.Network.Failure.{one_each}
use erps.Sim.Network.Noting.{HasNoted, notes, notes_again}
use erps.Sim.Network.Recovering.{IsFailed, IsRecovered, execute-IsRecovered}

-- What the nodes are behind the end of a failure: `r'` is the ring of the node where it was, and the
-- others, `hops'`, have had its message from one side and, as `hops2`, from both.
pub record IsOver (later : ℕ) (q : PortRef) (src : Daemon) (hops : List Hop) (r' : Ring)
    : Type 0 where
  pub hops' : List Hop
  pub hops2 : List Hop
  pub there : along later (sent_on q (ring_send_raps r')) hops ≡ done (hops', frame_of r'.raps ∷ [])
  pub back :
      along later (sent_on (opposite q) (ring_send_raps r')) (turned hops')
      ≡ done (hops2, frame_of r'.raps ∷ [])
  pub kept : roles hops2 ≡ flipped (roles hops)
  pub noted : Every (λ hop. HasNoted later src.ring.node_id hop.daemon.ring) hops2
  pub ends :
      (p : PortRef)
      → port_cb later true p (some (frame_of r'.raps, 55)) (record src { ring = r' })
        ≡ done (record src { ring = r' }, [])

-- The node of a failure obeys the command `recover`: it goes to PENDING, keeps its port blocked and sends NR on both.
-- If the other nodes have heard of the failure, the frame goes through all of them from either side and ends at
-- the node that has sent it; behind that all of them are in PENDING with both ports open, and silent, and a revertive
-- owner among them has started its WTR timer; all have kept their roles.
pub recovery_floods :
    (now later : ℕ) (p q : PortRef) (src : Daemon) (hops : List Hop)
    → IsFailed p src.ring
    → Every (λ hop. HasHeard src.ring.node_id hop.daemon.ring) hops
    → (r' : Ring) × (execute now (some recover) (some p) src.ring ≡ done r')
      × IsRecovered now p (set_failed false p src.ring) r'
      × IsOver later q src hops r'
recovery_floods now later p q src hops h heard =
    let (r', run, over, id) = execute-IsRecovered now p src.ring h in
    let source : r'.raps.node_id ≡ src.ring.node_id = over.own ∙ id in
    let (hops1, hops2, there, back, kept, again) =
      both_ways later (frame_of r'.raps) _ (λ d. HasNoted later src.ring.node_id d.ring)
        (subst
          (λ n.
            (hop : Hop)
            → HasHeard n hop.daemon.ring
            → Takes later (frame_of r'.raps) (λ h. HasNoted later n h.daemon.ring) hop)
          source (notes r'.raps over.message over.says over.flags later))
        (subst
          (λ n.
            (hop : Hop)
            → HasNoted later n hop.daemon.ring
            → Takes later (frame_of r'.raps) (λ h. HasNoted later n h.daemon.ring) hop)
          source (notes_again r'.raps over.message over.says over.flags later later))
        hops heard in
    (
      r',
      run,
      over,
      record {
        hops' = hops1;
        hops2 = hops2;
        there = rw (one_each q r' over.sends) there;
        back = rw (one_each (opposite q) r' over.sends) back;
        kept = kept;
        noted = again;
        ends = λ s. port_cb_own later s r'.raps (record src { ring = r' }) over.own;
      },
    )
