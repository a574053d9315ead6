-- ===== src/Tests/Network.antt =====
-- Two rings of daemons, and the theorems at these.
use erps.Common.{true, false, none, some, List, [], ◌∷◌, ◌≡◌, inl, inr, refl, arith}
use erps.Raps
use erps.Raps.Frame.{frame_of}
use erps.Ring.{Ring, ref0, ref1, pending, protection, req_sf, req_raps_sf}
use erps.Ring.Running.{IsRunning}
use erps.Ring.Yielding.{at_rest}
use erps.Sim.Outcome.{done}
use erps.Sim.Daemon.{Daemon, fail, recover, set_failed, execute}
use erps.Sim.Reversion.{IsRestored, run_seconds, every_second}
use erps.Sim.Network.{Hop}
use erps.Sim.Network.Failing.{IsAlarmed}
use erps.Sim.Network.Failure.{IsKnown, failure_floods}
use erps.Sim.Network.Recovering.{IsRecovered}
use erps.Sim.Network.Recovery.{IsOver, recovery_floods}
use erps.Sim.Network.Restoration.{IsReverted, owner_restores}
use erps.Tests.{here, there, owner, owner-IsSound, message}
use erps.Tests.Simulator.{owner-IsRunning, waiting, waiting-IsRunning}

-- A node with no role, in IDLE.
abbrev pub plain : Ring
plain = record owner {
  port0 = record owner.port0 { is_blocked = false };
  is_rpl_owner = false;
  rpl_port = none;
  node_id = there;
  prev_request_remote_node_id = here;
  is_sending_raps = false;
  raps = record message { flags = 0; node_id = there };
  raps_frame = frame_of (record message { flags = 0; node_id = there });
}

pub plain-IsRunning : IsRunning plain
plain-IsRunning = record {
  settled = record {
    sound = record {
      has_rpl = λ h. ground (arith, h);
      frame = record { buffer = refl; buffer_len = refl; in_sync = inr refl };
    };
    left_init = λ e. ground (arith, e);
    local = inl refl;
  };
  timed = λ on. ground (arith, on);
}

abbrev pub plain_daemon : Daemon
plain_daemon = record { ring = plain; repeat = 5000 }

abbrev to_owner : List Hop
to_owner = record { entry = ref1; daemon = record { ring = owner; repeat = 5000 } } ∷ []

failure_floods_example :
    (r' : Ring) × (execute 100 (some fail) (some ref0) plain ≡ done r')
    × IsAlarmed ref0 (set_failed true ref0 plain) r'
    × IsKnown 110 ref1 plain_daemon to_owner r'
failure_floods_example =
    failure_floods 100 110 ref0 ref1 plain_daemon to_owner
      (record {
        running = plain-IsRunning;
        free = at_rest;
        news = λ e. ground (arith, e);
        weaker = ground arith;
        identity = record { own = refl; ring_id_fits = ground arith; subcode_fits = ground arith };
      })
      (
        record {
          running = owner-IsRunning;
          free = at_rest;
          news = λ e. ground (arith, e);
          weaker = ground arith;
          listens = refl;
          other = refl;
          healthy0 = refl;
          healthy1 = refl;
        },
        tt,
      )

-- The other node of a ring of two, behind the failure.
abbrev patient : Ring
patient = record plain { state = pending }

patient-IsRunning : IsRunning patient
patient-IsRunning = record {
  settled = record {
    sound = record {
      has_rpl = λ h. ground (arith, h);
      frame = record { buffer = refl; buffer_len = refl; in_sync = inr refl };
    };
    left_init = λ e. ground (arith, e);
    local = inl refl;
  };
  timed = λ on. ground (arith, on);
}

abbrev waiting_daemon : Daemon
waiting_daemon = record { ring = waiting; repeat = 5000 }

abbrev to_patient : List Hop
to_patient = record { entry = ref0; daemon = record { ring = patient; repeat = 5000 } } ∷ []

owner_restores_example :
    (r' : Ring) × (run_seconds (every_second 16 1000) waiting ≡ done r')
    × IsRestored ref0 r'
    × IsReverted 20000 ref1 waiting_daemon to_patient r'
owner_restores_example =
    owner_restores 1000 20000 ref0 ref1 waiting_daemon to_patient
      (record {
        running = waiting-IsRunning;
        in_pending = refl;
        owner = refl;
        rpl = refl;
        ticking = refl;
        unasked = refl;
      })
      (record { own = refl; ring_id_fits = ground arith; subcode_fits = ground arith })
      (ground arith) (ground arith)
      (
        record {
          running = patient-IsRunning;
          in_pending = refl;
          plain = refl;
          news = λ e. ground (arith, e);
          unasked = refl;
          listens = refl;
          other = refl;
          away = λ e. ground (arith, e);
        },
        tt,
      )

-- The node with no role behind the failure of its port 0.
abbrev pub failing : Ring
failing = record plain {
  port0 = record plain.port0 { is_blocked = true; is_failed = true };
  state = protection;
  local_request = req_sf;
  prev_request = req_sf;
  prev_request_port = some ref0;
  is_sending_raps = true;
  raps = record message { flags = 0; request = Raps.sf; node_id = there };
  raps_frame = frame_of (record message { flags = 0; request = Raps.sf; node_id = there });
}

pub failing-IsRunning : IsRunning failing
failing-IsRunning = record {
  settled = record {
    sound = record {
      has_rpl = λ h. ground (arith, h);
      frame = record { buffer = refl; buffer_len = refl; in_sync = inr refl };
    };
    left_init = λ e. ground (arith, e);
    local = inr (inr (inl refl));
  };
  timed = λ on. ground (arith, on);
}

-- The owner, which has heard of it.
abbrev pub alerted : Ring
alerted = record owner {
  port0 = record owner.port0 { is_blocked = false };
  state = protection;
  prev_request = req_raps_sf;
  prev_request_remote_node_id = there;
  is_sending_raps = false;
}

pub alerted-IsRunning : IsRunning alerted
alerted-IsRunning = record {
  settled = record {
    sound = record {
      has_rpl = owner-IsSound.has_rpl;
      frame = record { buffer = refl; buffer_len = refl; in_sync = inr refl };
    };
    left_init = λ e. ground (arith, e);
    local = inl refl;
  };
  timed = λ on. ground (arith, on);
}

abbrev pub failing_daemon : Daemon
failing_daemon = record { ring = failing; repeat = 5000 }

abbrev to_alerted : List Hop
to_alerted = record { entry = ref1; daemon = record { ring = alerted; repeat = 5000 } } ∷ []

recovery_floods_example :
    (r' : Ring) × (execute 900 (some recover) (some ref0) failing ≡ done r')
    × IsRecovered 900 ref0 (set_failed false ref0 failing) r'
    × IsOver 910 ref1 failing_daemon to_alerted r'
recovery_floods_example =
    recovery_floods 900 910 ref0 ref1 failing_daemon to_alerted
      (record {
        running = failing-IsRunning;
        protected = refl;
        asked = refl;
        request = refl;
        blocks = (refl, refl);
        identity = record { own = refl; ring_id_fits = ground arith; subcode_fits = ground arith };
      })
      (
        record {
          running = alerted-IsRunning;
          protected = refl;
          open0 = refl;
          open1 = refl;
          silent = refl;
          unguarded = refl;
          request = refl;
          remote = refl;
          unasked = refl;
          other = refl;
        },
        tt,
      )
