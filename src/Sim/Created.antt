-- ===== src/Sim/Created.antt =====
-- The ring that `ring_create` returns.
use erps.Common.{
  ℕ, length, Bool, true, false, List, Option, none, some, ◌≡◌, ◌⊎◌, inl, inr, refl, arith, ap, ◌∙◌,
}
use erps.Raps
use erps.Raps.{NodeId}
use erps.Port.{Port}
use erps.Ring.{pending, invalid, PortRef, ref0, ref1, Ring, start_tx}
use erps.Ring.Fsm
use erps.Ring.Fsm.{group, dupe, save_request}
use erps.Ring.Created.{BlocksOne, first_blocked}
use erps.Ring.Total.{IsSound, ring_fsm-total}
use erps.Ring.Running.{IsRunning}
use erps.Sim.Outcome.{done, lift}
use erps.Sim.Equal.{same_fsm}
use erps.Sim.Node.{blank_ring, ring_create}

-- What `ring_create` leaves behind: a running ring of the ports, the RPL port, the role and the node
-- id that it was given, in PENDING; it blocks the RPL port, or port 0 if it has none, sends NR under
-- its own node id, and on the owner runs the WTR timer.
pub record IsUp (p0 p1 : Port) (rpl_port : Option PortRef) (owner neighbour : Bool)
    (node_id : NodeId) (r : Ring) : Type 0 where
  pub name0 : r.port0.name ≡ p0.name
  pub name1 : r.port1.name ≡ p1.name
  pub rpl : r.rpl_port ≡ rpl_port
  pub is_owner : r.is_rpl_owner ≡ owner
  pub is_neighbour : r.is_rpl_neighbour ≡ neighbour
  pub reverts : r.is_revertive ≡ true
  pub running : IsRunning r
  pub in_pending : r.state ≡ pending
  pub blocks : BlocksOne r (first_blocked rpl_port)
  pub sends : r.is_sending_raps ≡ true
  pub says : r.raps.request ≡ Raps.nr
  pub id : r.node_id ≡ node_id
  pub source : r.raps.node_id ≡ node_id
  pub waits : r.wtr_timer_active ≡ owner

module _ (now : ℕ) (garbage : List ℕ) (p0 p1 : Port) (node_id : NodeId) where
  blank-IsSound :
      (q : Option PortRef) (o n : Bool)
      → length garbage ≡ 55
      → ((o ≡ true) ⊎ (n ≡ true) → (p : PortRef) × (q ≡ some p))
      → IsSound (blank_ring garbage p0 p1 q o n node_id)
  unfolding blank_ring
  blank-IsSound q o n size role = record {
    has_rpl = role;
    frame = record { buffer = size; buffer_len = refl; in_sync = inl refl };
  }

  started :
      (q : Option PortRef) (o n : Bool) {r : Ring}
      → ((o ≡ true) ⊎ (n ≡ true) → (p : PortRef) × (q ≡ some p))
      → ((o ≡ false) × (n ≡ false) → q ≡ none)
      → Fsm.ring_fsm now invalid none none (blank_ring garbage p0 p1 q o n node_id) ≡ some r
      → (r.state ≡ pending)
        × BlocksOne r (first_blocked q)
        × (r.is_sending_raps ≡ true)
        × (r.raps.request ≡ Raps.nr)
        × (r.wtr_timer_active ≡ o)
        × (r.prev_request ≡ invalid)
        × (r.local_request ≡ invalid)
  unfolding Fsm.ring_fsm dupe group blank_ring start_tx
  started (some ref0) true n role free run = ground arith
  started (some ref1) true n role free run = ground arith
  started (some ref0) false true role free run = ground arith
  started (some ref1) false true role free run = ground arith
  started none false false role free run = ground arith
  started none true n role free run = cc (role (inl refl)).1
  started none false true role free run = cc (role (inr refl)).1
  started (some p) false false role free run = cc (free (refl, refl))

  -- With memory, and an RPL port exactly on the owner and the neighbour, `ring_create` returns a ring
  -- that is up, with what it was given.
  pub ring_create-IsUp :
      (q : Option PortRef) (o n : Bool)
      → length garbage ≡ 55
      → ((o ≡ true) ⊎ (n ≡ true) → (p : PortRef) × (q ≡ some p))
      → ((o ≡ false) × (n ≡ false) → q ≡ none)
      → (r : Ring) × (ring_create now true garbage p0 p1 q o n node_id ≡ done r)
        × IsUp p0 p1 q o n node_id r
  unfolding ring_create
  ring_create-IsUp q o n size role free =
      let r0 = blank_ring garbage p0 p1 q o n node_id in
      let (r, run, sound, kept) =
        ring_fsm-total now invalid none none r0 (blank-IsSound q o n size role) tt in
      let (state, blocks, sends, says, waits, prev, local) = started q o n role free run in
      (
        r,
        same_fsm now invalid none none r0 (unfold group in refl) ∙ ap lift run,
        record {
          name0 = unfold blank_ring in kept.name0;
          name1 = unfold blank_ring in kept.name1;
          rpl = unfold blank_ring in kept.rpl;
          is_owner = unfold blank_ring in kept.owner;
          is_neighbour = unfold blank_ring in kept.neighbour;
          reverts = unfold blank_ring in kept.revertive;
          running = record {
            settled = record {
              sound = sound;
              left_init = λ e. ground (arith, e, state);
              local = inl local;
            };
            timed = λ on e. ground (arith, prev, e);
          };
          in_pending = state;
          blocks = blocks;
          sends = sends;
          says = says;
          id = unfold blank_ring in kept.node_id;
          source = unfold blank_ring in kept.source;
          waits = waits;
        },
      )
