-- ===== src/Sim/Served.antt =====
-- Commands at a running ring.
use erps.Common.{ℕ, Bool, true, false, ◌==◌, Option, none, some, ◌≡◌, ◌≢◌, refl, arith}
use erps.Ring.{
  Request, rank, req_clear, req_ms, req_sf, req_clear_sf, req_fs, PortRef, ref0, ref1, Ring,
}
use erps.Ring.Fsm.{group}
use erps.Ring.Running.{IsRunning}
use erps.Sim.Daemon.{Command, status, clear, ms, fs, fail, recover, set_failed, execute}
use erps.Sim.Alive.{Runs, requested, IsSettled-touched}

-- A command that has its port, and is not a second CLEAR.
abbrev pub IsServed : Option Command → Option PortRef → Ring → Type 0
IsServed (some clear) port r = r.prev_request ≢ req_clear
IsServed (some ms) none r = ⊥
IsServed (some fs) none r = ⊥
IsServed (some fail) none r = ⊥
IsServed (some recover) none r = ⊥
IsServed _ port r = Unit {0}

not_cleared : (q : Request) → q ≢ req_clear → (rank req_clear == rank q) ≡ false
not_cleared req_clear n = absurd (n refl)
not_cleared _ n = refl

pub IsRunning-set_failed :
    (b : Bool) (p : PortRef) (r : Ring) → IsRunning r → IsRunning (set_failed b p r)
unfolding set_failed
IsRunning-set_failed b ref0 r h = record {
  settled =
      IsSettled-touched r (record r.port0 { is_failed = b }) r.port1 r.guard_timer_active
        r.wtr_timer_active r.raps_bursts_remain h.settled;
  timed = h.timed;
}
IsRunning-set_failed b ref1 r h = record {
  settled =
      IsSettled-touched r r.port0 (record r.port1 { is_failed = b }) r.guard_timer_active
        r.wtr_timer_active r.raps_bursts_remain h.settled;
  timed = h.timed;
}

pub execute-Runs :
    (now : ℕ) (cmd : Option Command) (port : Option PortRef) (r : Ring)
    → IsRunning r
    → IsServed cmd port r
    → Runs (execute now cmd port r)
unfolding execute group
execute-Runs now none port r h s = (r, refl, h)
execute-Runs now (some status) port r h s = (r, refl, h)
execute-Runs now (some clear) port r h s =
    requested now req_clear none none r h tt (λ e. ground (arith, e)) (not_cleared r.prev_request s)
execute-Runs now (some ms) (some p) r h s =
    requested now req_ms (some p) none r h tt (λ e. ground (arith, e)) refl
execute-Runs now (some fs) (some p) r h s =
    requested now req_fs (some p) none r h tt (λ e. ground (arith, e)) refl
execute-Runs now (some fail) (some p) r h s =
    requested now req_sf (some p) none (set_failed true p r) (IsRunning-set_failed true p r h) tt
      (λ e. ground (arith, e)) refl
execute-Runs now (some recover) (some p) r h s =
    requested now req_clear_sf (some p) none (set_failed false p r)
      (IsRunning-set_failed false p r h) tt (λ e. ground (arith, e)) refl
execute-Runs now (some ms) none r h s = elim s [ ]
execute-Runs now (some fs) none r h s = elim s [ ]
execute-Runs now (some fail) none r h s = elim s [ ]
execute-Runs now (some recover) none r h s = elim s [ ]
