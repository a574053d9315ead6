-- ===== src/Tests/Simulator.antt =====
-- Daemons of the simulator, and the theorems at these.
use erps.Common.{true, false, none, some, [], ◌∷◌, ◌≡◌, ◌⊎◌, inl, inr, refl, arith, replicate}
use erps.Ring.{Ring, ref0, pending, invalid, req_clear}
use erps.Ring.Fsm
use erps.Ring.Fsm.{dupe, group}
use erps.Ring.Priority
use erps.Ring.Running.{IsRunning}
use erps.Ring.Steady.{IsConfigured}
use erps.Sim.Outcome.{done, died, lift}
use erps.Sim.Fsm.{ring_fsm}
use erps.Sim.Equal.{is_impossible, ring_fsm-lift}
use erps.Sim.Node.{ring_create}
use erps.Sim.Daemon.{Daemon, Sent, clear, execute}
use erps.Sim.Trace.{Event, command, handle, handle_runs}
use erps.Sim.Clear.{second_clear}
use erps.Sim.Created.{IsUp, ring_create-IsUp}
use erps.Sim.Reversion.{IsRestored, run_seconds, every_second, wtr_restores}
use erps.Tests.{there, owner, owner-IsSound}

pub owner-IsRunning : IsRunning owner
owner-IsRunning = record {
  settled = record { sound = owner-IsSound; left_init = λ e. ground (arith, e); local = inl refl };
  timed = λ on. ground (arith, on);
}

-- The owner in PENDING, with a WTR timer that has run for 900 ms at 1000.
abbrev pub waiting : Ring
waiting = record owner {
  state = pending;
  prev_request = invalid;
  prev_request_port = none;
  wtr_timer_active = true;
  wtr_timer_active_since = 100;
}

pub waiting-IsRunning : IsRunning waiting
waiting-IsRunning = record {
  settled = record {
    sound = record {
      has_rpl = owner-IsSound.has_rpl;
      frame = record { buffer = refl; buffer_len = refl; in_sync = inr refl };
    };
    left_init = λ e. ground (arith, e);
    local = inl refl;
  };
  timed = λ on e. ground (arith, e);
}

wtr_restores_example :
    (r' : Ring) × (run_seconds (every_second 16 1000) waiting ≡ done r')
    × IsRestored ref0 r'
    × IsConfigured waiting r'
wtr_restores_example =
    wtr_restores 1000 ref0 waiting
      (record {
        running = waiting-IsRunning;
        in_pending = refl;
        owner = refl;
        rpl = refl;
        ticking = refl;
        unasked = refl;
      })
      (ground arith) (ground arith)

-- The same ring behind a CLEAR, which has been the last request, and back in PENDING.
abbrev cleared : Ring
cleared = record waiting { prev_request = req_clear }

second_clear_example :
    (Priority.ring_process_request 200 req_clear none none cleared
      ≡ some (record cleared { local_request = invalid }))
    × (execute 200 (some clear) none cleared ≡ died)
second_clear_example = second_clear 200 none cleared refl refl (inl refl) refl

ring_fsm-lift_example :
    (is_impossible req_clear cleared ≡ true)
      × (ring_fsm 200 req_clear none none cleared ≡ died)
      × (Fsm.ring_fsm 200 req_clear none none cleared ≡ some cleared)
    ⊎ (is_impossible req_clear cleared ≡ false)
      × (ring_fsm 200 req_clear none none cleared
          ≡ lift (Fsm.ring_fsm 200 req_clear none none cleared))
ring_fsm-lift_example = ring_fsm-lift 200 req_clear none none cleared

ring_create-IsUp_example :
    (r : Ring) × (ring_create 100 true
        (replicate 55 7)
        owner.port0
        owner.port1
        (some ref0)
        true
        false
        there
      ≡ done r)
    × IsUp owner.port0 owner.port1 (some ref0) true false there r
ring_create-IsUp_example =
    ring_create-IsUp 100 (replicate 55 7) owner.port0 owner.port1 there (some ref0) true false refl
      (λ _. (ref0, refl)) (λ h. ground (arith, h))

abbrev daemon : Daemon
daemon = record { ring = owner; repeat = 5000 }

-- FS on port 1.
abbrev force : Event
force = command 100 (4 ∷ 0 ∷ 0 ∷ 0 ∷ 0xf1 ∷ []) 0

handle_runs_example :
    (d' : Daemon) × (sent : Sent) × (handle force daemon ≡ done (d', sent)) × IsRunning d'.ring
handle_runs_example = handle_runs force daemon owner-IsRunning (refl, (4, 0xf1, refl, refl, tt))
