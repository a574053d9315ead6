-- ===== src/Sim/Clear.antt =====
-- CLEAR, a second time in PENDING.
use erps.Common.{ℕ, true, false, ◌&&◌, ltb, Option, none, some, ◌≡◌, arith}
use erps.Ring.{rank, invalid, pending, req_clear, PortRef, Ring}
use erps.Ring.Fsm.{group, dupe}
use erps.Ring.Total.{skip_row}
use erps.Ring.Priority
use erps.Ring.Priority.{is_req, unsupported, separating, denied, clear_local_sf, retain, compete}
use erps.Ring.Running.{IsLocal}
use erps.Sim.Outcome.{died}
use erps.Sim.Fsm.{override, ring_process_request}
use erps.Sim.Equal.{dead_fsm}
use erps.Sim.Daemon.{clear, execute}

-- The filter lets it through.
granted :
    (r : Ring)
    → r.is_rpl_owner ≡ true
    → r.state ≡ pending
    → IsLocal r.local_request
    → (unsupported req_clear r ≡ false)
      × (separating req_clear r ≡ false)
      × ((is_req req_clear req_clear && denied r) ≡ false)
      × (clear_local_sf req_clear r ≡ r)
      × (ltb (rank r.local_request) (rank req_clear) ≡ true)
unfolding unsupported separating denied clear_local_sf
granted r o s l = (ground arith, ground arith, ground arith, ground arith, ground arith)

-- On the owner of the RPL in PENDING, whose last request was CLEAR: at a CLEAR the kernel module forgets the local
-- request and does nothing else, and the simulator ends in `die`.
pub second_clear :
    (now : ℕ) (port : Option PortRef) (r : Ring)
    → r.is_rpl_owner ≡ true
    → r.state ≡ pending
    → IsLocal r.local_request
    → r.prev_request ≡ req_clear
    → (Priority.ring_process_request now req_clear none none r
        ≡ some (record r { local_request = invalid }))
      × (execute now (some clear) port r ≡ died)
unfolding Priority.ring_process_request ring_process_request execute compete override retain
second_clear now port r o s l p =
    let (a, b, c, d, e) = granted r o s l in
    let fresh : Ring = record r { local_request = invalid } in
    (
      rw (a, b, c, d, e)
          (skip_row now req_clear none none fresh (unfold dupe group in ground arith)),
      rw (a, b, c, d, e) (dead_fsm now req_clear none none fresh (unfold group in ground arith)),
    )
