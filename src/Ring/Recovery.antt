-- ===== src/Ring/Recovery.antt =====
-- How the nodes leave PROTECTION when a failure is over.
use mathlib.Core.Path.{subst}
use erps.Common.{ℕ, true, false, not, ◌||◌, ◌==◌, Option, some, ◌≡◌, arith, inl, inr, Bool-cases}
use erps.Raps.{NodeId, RapsRequest, code, flag_rb}
use erps.Raps
use erps.Ring.{
  protection, pending, Request, raps_nr, req_clear_sf, PortRef, Ring, Act, ◌>>◌, only_if, start_tx,
  start_guard_timer, start_wtr_timer, enter,
}
use erps.Ring.Effects.{Sends, start_tx-Sends}
use erps.Ring.Moved.{>>_split}
use erps.Ring.Rows.{reverts}
use erps.Ring.Rows.Protection.{fsm_protection}
use erps.Ring.Fsm.{is_dupe, save_request, execute_row, unless_dupe, ring_fsm}

-- A revertive owner starts its WTR timer; the ports, the guard timer and what is sent stay as they are.
pub record Notes (now : ℕ) (r r' : Ring) : Type 0 where
  pub port0 : r'.port0 ≡ r.port0
  pub port1 : r'.port1 ≡ r.port1
  pub sending : r'.is_sending_raps ≡ r.is_sending_raps
  pub guard : r'.guard_timer_active ≡ r.guard_timer_active
  pub ticking : reverts r ≡ true → r'.wtr_timer_active ≡ true
  pub since : reverts r ≡ true → r'.wtr_timer_active_since ≡ now

-- The end of both rows.
wait : ℕ → Act
unfolding ◌>>◌ only_if
wait now = do only_if reverts (start_wtr_timer now); enter pending

-- It starts no other timer and touches no message.
record Waits (now : ℕ) (r r' : Ring) : Type 0 where
  notes : Notes now r r'
  since : r'.guard_timer_active_since ≡ r.guard_timer_active_since
  raps : r'.raps ≡ r.raps

wait-Waits : (now : ℕ) (r : Ring) {r' : Ring} → wait now r ≡ some r' → Waits now r r'
unfolding wait only_if start_wtr_timer enter
wait-Waits now r {r'} h =
    let (r1, h1, h2) = >>_split (only_if reverts (start_wtr_timer now)) (enter pending) r h in
    elim (Bool-cases (reverts r)) [
      | inl e ↦ let g = rw e at h1 in ground (arith, e, g, h2)
      | inr e ↦ let g = rw e at h1 in ground (arith, e, g, h2)
    ]

row-Notes :
    (now : ℕ) (port : Option PortRef) (r : Ring) {r' : Ring}
    → fsm_protection now raps_nr port r ≡ some r'
    → Notes now r r'
unfolding fsm_protection wait
row-Notes now port r h = (wait-Waits now r h).notes

-- The node tells the ring NR, with no flags, starts its guard timer, and leaves its ports.
pub record Clears (now : ℕ) (r r' : Ring) : Type 0 where
  pub port0 : r'.port0 ≡ r.port0
  pub port1 : r'.port1 ≡ r.port1
  pub sending : r'.is_sending_raps ≡ true
  pub says : code r'.raps.request ≡ code Raps.nr
  pub flags : r'.raps.flags ≡ 0
  pub guarded : r'.guard_timer_active ≡ true
  pub since : r'.guard_timer_active_since ≡ now

start_tx_timers :
    (q : RapsRequest) (f : ℕ) (r : Ring) {r' : Ring}
    → start_tx q f r ≡ some r'
    → (r'.guard_timer_active ≡ r.guard_timer_active)
      × (r'.guard_timer_active_since ≡ r.guard_timer_active_since)
unfolding start_tx
start_tx_timers q f r {r'} h =
    elim (Bool-cases (not (code r.raps.request == code q) || not (r.raps.flags == f))) [
      | inl e ↦ ground (arith, e, h)
      | inr e ↦ ground (arith, e, h)
    ]

clears :
    (now : ℕ) (r r1 r2 r3 r' : Ring)
    → start_guard_timer now r ≡ some r1
    → r2.guard_timer_active ≡ r1.guard_timer_active
    → r2.guard_timer_active_since ≡ r1.guard_timer_active_since
    → start_tx Raps.nr 0 r1 ≡ some r2
    → start_tx Raps.nr 0 r1 ≡ some r3
    → Sends Raps.nr 0 r1 r3
    → Waits now r2 r'
    → Clears now r r'
unfolding start_guard_timer
clears now r r1 r2 r3 r' h1 active since h3 run s w =
    let same : r3 ≡ r2 = cc in
    let s2 : Sends Raps.nr 0 r1 r2 = subst (Sends Raps.nr 0 r1) same s in
    ground (arith, h1, active, since, s2, w)

row-Clears :
    (now : ℕ) (port : Option PortRef) (r : Ring) {r' : Ring}
    → fsm_protection now req_clear_sf port r ≡ some r'
    → Clears now r r'
unfolding fsm_protection wait
row-Clears now port r {r'} h =
    let (r1, h1, h2) = >>_split (start_guard_timer now) (start_tx Raps.nr 0 >> wait now) r h in
    let (r2, h3, h4) = >>_split (start_tx Raps.nr 0) (wait now) r1 h2 in
    let (active, since) = start_tx_timers Raps.nr 0 r1 h3 in
    let (r3, run, s) = start_tx-Sends Raps.nr 0 r1 in
    let w = wait-Waits now r2 h4 in clears now r r1 r2 r3 r' h1 active since h3 run s w

-- The row of PROTECTION for a request that is no repetition.
row_of :
    (now : ℕ) (req : Request) (port : Option PortRef) (remote : Option NodeId) (r : Ring)
    {r' : Ring}
    → r.state ≡ protection
    → is_dupe req port remote r ≡ some false
    → ring_fsm now req port remote r ≡ some r'
    → fsm_protection now req port (save_request req port remote r) ≡ some r'
unfolding ring_fsm
row_of now req port remote r {r'} s fresh h =
    let row : execute_row now r.state req port remote (save_request req port remote r) ≡ some r' =
      rw (fresh, unless_dupe) at h in
    unfold execute_row in
    subst (λ t. execute_row now t req port remote (save_request req port remote r) ≡ some r') s row

-- A message NR in PROTECTION, if it is no repetition and the state machine returns.
pub ring_fsm-Notes :
    (now : ℕ) (port : Option PortRef) (remote : Option NodeId) (r : Ring) {r' : Ring}
    → r.state ≡ protection
    → is_dupe raps_nr port remote r ≡ some false
    → ring_fsm now raps_nr port remote r ≡ some r'
    → Notes now r r'
unfolding save_request
ring_fsm-Notes now port remote r {r'} s fresh h =
    let y : Notes now (save_request raps_nr port remote r) r' =
      row-Notes now port (save_request raps_nr port remote r)
        (row_of now raps_nr port remote r s fresh h) in
    record {
      port0 = y.port0;
      port1 = y.port1;
      sending = y.sending;
      guard = y.guard;
      ticking = y.ticking;
      since = y.since;
    }

-- A local CLEAR_SF in PROTECTION, likewise.
pub ring_fsm-Clears :
    (now : ℕ) (port : Option PortRef) (remote : Option NodeId) (r : Ring) {r' : Ring}
    → r.state ≡ protection
    → is_dupe req_clear_sf port remote r ≡ some false
    → ring_fsm now req_clear_sf port remote r ≡ some r'
    → Clears now r r'
unfolding save_request
ring_fsm-Clears now port remote r {r'} s fresh h =
    let y : Clears now (save_request req_clear_sf port remote r) r' =
      row-Clears now port (save_request req_clear_sf port remote r)
        (row_of now req_clear_sf port remote r s fresh h) in
    record {
      port0 = y.port0;
      port1 = y.port1;
      sending = y.sending;
      says = y.says;
      flags = y.flags;
      guarded = y.guarded;
      since = y.since;
    }
