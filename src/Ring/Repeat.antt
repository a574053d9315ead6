-- ===== src/Ring/Repeat.antt =====
-- A request that is repeated at once.
use mathlib.Core.Path.{subst}
use erps.Common.{
  ℕ, true, inl, inr, Option, none, some, ◌≡◌, ◌≢◌, refl, Bool-cases, ◌==◌, memcmp_refl,
}
use erps.Raps.{NodeId, bytes}
use erps.Ring.{
  Request, rank, invalid, raps_nr, raps_nr_rb, req_raps_ms, req_raps_sf, req_raps_fs, req_ms,
  req_sf, req_fs, req_clear_sf, PortRef, ref0, ref1, same_port, Ring,
}
use erps.Ring.Fsm.{group, dupe, is_dupe, save_remote, save_request, ring_fsm}
use erps.Ring.RowsTotal.{IsCall}
use erps.Ring.Total.{IsSound, dupe_total, run_row, skip_row}

same_port_refl : (p : Option PortRef) → same_port p p ≡ true
same_port_refl none = refl
same_port_refl (some ref0) = refl
same_port_refl (some ref1) = refl

-- The test for repetitions, on a ring that remembers the request.
repeats :
    (req : Request) (port : Option PortRef) (remote : Option NodeId) (x : Ring) (old : NodeId)
    → IsCall req port remote
    → req ≢ invalid
    → x.prev_request ≡ req
    → x.prev_request_port ≡ port
    → x.prev_request_remote_node_id ≡ save_remote remote old
    → is_dupe req port remote x ≡ some true
unfolding dupe group save_remote
repeats invalid port remote x old c known e p m = absurd (known refl)
repeats raps_nr port (some n) x old c known e p m = rw (e, m, memcmp_refl (bytes n))
repeats raps_nr_rb port (some n) x old c known e p m = rw (e, m, memcmp_refl (bytes n))
repeats req_raps_ms port (some n) x old c known e p m = rw (e, m, memcmp_refl (bytes n))
repeats req_raps_sf port (some n) x old c known e p m = rw (e, m, memcmp_refl (bytes n))
repeats req_raps_fs port (some n) x old c known e p m = rw (e, m, memcmp_refl (bytes n))
repeats raps_nr port none x old c known e p m = elim c [ ]
repeats raps_nr_rb port none x old c known e p m = elim c [ ]
repeats req_raps_ms port none x old c known e p m = elim c [ ]
repeats req_raps_sf port none x old c known e p m = elim c [ ]
repeats req_raps_fs port none x old c known e p m = elim c [ ]
repeats req_ms port remote x old c known e p m = rw (e, p, same_port_refl port)
repeats req_sf port remote x old c known e p m = rw (e, p, same_port_refl port)
repeats req_fs port remote x old c known e p m = rw (e, p, same_port_refl port)
repeats req_clear_sf port remote x old c known e p m = rw (e, p, same_port_refl port)
repeats _ port remote x old c known e p m = rw e

-- Asked again at once for the same request, which is not INVALID, the state machine changes nothing, on a sound
-- ring and a complete call. That holds for CLEAR and the timers too.
pub ring_fsm-idempotent :
    (now later : ℕ) (req : Request) (port : Option PortRef) (remote : Option NodeId) {r r' : Ring}
    → IsSound r
    → IsCall req port remote
    → req ≢ invalid
    → ring_fsm now req port remote r ≡ some r'
    → ring_fsm later req port remote r' ≡ some r'
unfolding save_request
ring_fsm-idempotent now later req port remote {r} {r'} h c known run =
    let (b, e) = dupe_total req (rank req == rank r.prev_request) port remote r c in
    elim (Bool-cases b) [
      | inl repeated ↦
          let skipped = skip_row now req port remote r (rw repeated at e) in
          let same : r ≡ r' = cc in
          subst (λ x. ring_fsm later req port remote x ≡ some x) same
            (skip_row later req port remote r (rw repeated at e))
      | inr fresh ↦
          let (r1, run1, h', kept, memory) = run_row now req port remote r h c (rw fresh at e) in
          let same : r1 ≡ r' = cc in
          skip_row later req port remote r' (
            subst (λ x. is_dupe req port remote x ≡ some true) same
              (repeats req port remote r1 r.prev_request_remote_node_id c known memory.request
                memory.port memory.remote))
    ]
