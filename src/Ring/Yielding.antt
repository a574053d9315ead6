-- ===== src/Ring/Yielding.antt =====
-- How a node makes way for a failure that another node has reported.
use erps.Common.{ℕ, false, Option, some, ◌≡◌, arith, inl, inr, Bool-cases}
use erps.Raps.{NodeId}
use erps.Ring.{State, idle, pending, req_raps_sf, PortRef, Ring, ◌>>◌, enter}
use erps.Ring.{protection}
use erps.Ring.Rows.{open_nonfailed, stop_owner_timers}
use erps.Ring.Rows.Idle.{fsm_idle}
use erps.Ring.Rows.Pending.{fsm_pending}
use erps.Ring.Fsm.{is_dupe, save_request, execute_row, unless_dupe, ring_fsm}
use erps.Ring.Moved.{>>_split}

-- The ports that have not failed are open, and the node falls silent.
pub record Yields (r r' : Ring) : Type 0 where
  pub open0 : r.port0.is_failed ≡ false → r'.port0.is_blocked ≡ false
  pub open1 : r.port1.is_failed ≡ false → r'.port1.is_blocked ≡ false
  pub silent : r'.is_sending_raps ≡ false
  pub guard : r'.guard_timer_active ≡ r.guard_timer_active

open_nonfailed-Yields : {r r' : Ring} → open_nonfailed r ≡ some r' → Yields r r'
unfolding open_nonfailed
open_nonfailed-Yields {r} {r'} h = elim (Bool-cases r.port0.is_failed) [
  | inl e ↦ elim (Bool-cases r.port1.is_failed) [
    | inl f ↦ let g = rw (e, f) at h in ground (arith, e, f, g)
    | inr f ↦ let g = rw (e, f) at h in ground (arith, e, f, g)
  ]
  | inr e ↦ elim (Bool-cases r.port1.is_failed) [
    | inl f ↦ let g = rw (e, f) at h in ground (arith, e, f, g)
    | inr f ↦ let g = rw (e, f) at h in ground (arith, e, f, g)
  ]
]

enter-Yields : (s : State) {r r1 r' : Ring} → Yields r r1 → enter s r1 ≡ some r' → Yields r r'
unfolding enter
enter-Yields s y h = ground (arith, y, h)

timers-Yields : {r r1 r' : Ring} → Yields r r1 → stop_owner_timers r1 ≡ some r' → Yields r r'
unfolding stop_owner_timers
timers-Yields {r} {r1} {r'} y h = ground (arith, y, h, Bool-cases r1.is_rpl_owner)

-- The states in which the node is not occupied.
pub data Free : State → Type 0 where
  at_rest : Free idle
  in_wait : Free pending

row-Yields :
    (now : ℕ) {s : State} (port : Option PortRef) (remote : Option NodeId) {r r' : Ring}
    → Free s
    → execute_row now s req_raps_sf port remote r ≡ some r'
    → Yields r r'
unfolding execute_row fsm_idle fsm_pending
row-Yields now port remote {r} {r'} at_rest h =
    let (r1, h1, h2) = >>_split open_nonfailed (enter protection) r h in
    enter-Yields protection (open_nonfailed-Yields h1) h2
row-Yields now port remote {r} {r'} in_wait h =
    let (r1, h1, h2) = >>_split open_nonfailed (stop_owner_timers >> enter protection) r h in
    let (r2, h3, h4) = >>_split stop_owner_timers (enter protection) r1 h2 in
    enter-Yields protection (timers-Yields (open_nonfailed-Yields h1) h3) h4

-- A message SF in IDLE or PENDING that is not a repetition: if the state machine returns, the ports that have not
-- failed are open, and the node sends nothing.
pub ring_fsm-Yields :
    (now : ℕ) (port : Option PortRef) (remote : Option NodeId) {r r' : Ring}
    → Free r.state
    → is_dupe req_raps_sf port remote r ≡ some false
    → ring_fsm now req_raps_sf port remote r ≡ some r'
    → Yields r r'
unfolding ring_fsm save_request
ring_fsm-Yields now port remote {r} {r'} free fresh h =
    let y : Yields (save_request req_raps_sf port remote r) r' =
      row-Yields now port remote free (rw (fresh, unless_dupe) at h) in
    record { open0 = y.open0; open1 = y.open1; silent = y.silent; guard = y.guard }
