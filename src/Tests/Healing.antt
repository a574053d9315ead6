-- ===== src/Tests/Healing.antt =====
-- A ring of three daemons of extras/sim, through a failure between the owner of the RPL and the node
-- without a role.
use erps.Common.{true, some, List, [], ◌∷◌, ◌≡◌, inl, inr, refl, arith}
use erps.Raps.{NodeId}
use erps.Raps.Frame.{frame_of}
use erps.Ring.{Ring, ref0, ref1}
use erps.Ring.Running.{IsRunning}
use erps.Ring.Yielding.{at_rest}
use erps.Sim.Outcome.{done}
use erps.Sim.Daemon.{send_raps_cb, fail, recover, execute}
use erps.Sim.Node.{ring_send_raps}
use erps.Sim.Burst.{send_times}
use erps.Sim.Network.{Hop}
use erps.Sim.Network.Failing.{IsAlarmed, ring_send_raps_lem, sends_both}
use erps.Sim.Network.Resending.{resent_floods}
use erps.Sim.Network.Line.{role_of}
use erps.Sim.Network.Failure.{IsKnown}
use erps.Sim.Network.Recovery.{IsOver}
use erps.Sim.Network.Healing.{IsHealed, ring_heals}
use erps.Tests.{owner, message}
use erps.Tests.Simulator.{owner-IsRunning}
use erps.Tests.Network.{
  plain, plain-IsRunning, plain_daemon, failing, failing-IsRunning, failing_daemon, alerted,
  alerted-IsRunning,
}

abbrev beside : NodeId
beside = record { b0 = 2; b1 = 0; b2 = 0; b3 = 0; b4 = 0; b5 = 3 }

-- The neighbour of the RPL at its port 1, in IDLE.
abbrev neighbour : Ring
neighbour = record plain {
  port1 = record plain.port1 { is_blocked = true };
  is_rpl_neighbour = true;
  rpl_port = some ref1;
  node_id = beside;
  raps = record message { flags = 0; node_id = beside };
  raps_frame = frame_of (record message { flags = 0; node_id = beside });
}

neighbour-IsRunning : IsRunning neighbour
neighbour-IsRunning = record {
  settled = record {
    sound = record {
      has_rpl = λ _. (ref1, refl);
      frame = record { buffer = refl; buffer_len = refl; in_sync = inr refl };
    };
    left_init = λ e. ground (arith, e);
    local = inl refl;
  };
  timed = λ on. ground (arith, on);
}

abbrev to_both : List Hop
to_both =
    record { entry = ref0; daemon = record { ring = neighbour; repeat = 5000 } }
    ∷ record { entry = ref0; daemon = record { ring = owner; repeat = 5000 } }
    ∷ []

ring_heals_example :
    (failed : Ring) × (execute 100 (some fail) (some ref0) plain ≡ done failed)
    × (known : IsKnown 110 ref1 plain_daemon to_both failed) × (over : Ring) × (execute 900
          (some recover)
          (some ref0)
          failed
        ≡ done over)
    × (ended : IsOver 910 ref0 (record plain_daemon { ring = failed }) known.hops2 over) × IsHealed
        1000 20000 ref0 ref1
        (record plain_daemon { ring = over })
        ended.hops2
ring_heals_example =
    ring_heals 100 110 900 910 1000 20000 ref0 ref1 ref0 plain_daemon to_both
      (role_of ref0 neighbour ∷ []) (role_of ref0 owner) []
      (record {
        running = plain-IsRunning;
        free = at_rest;
        news = λ e. ground (arith, e);
        weaker = ground arith;
        identity = record { own = refl; ring_id_fits = ground arith; subcode_fits = ground arith };
      })
      (
        record {
          running = neighbour-IsRunning;
          free = at_rest;
          news = λ e. ground (arith, e);
          weaker = ground arith;
          listens = refl;
          other = refl;
          healthy0 = refl;
          healthy1 = refl;
        },
        (
          record {
            running = owner-IsRunning;
            free = at_rest;
            news = λ e. ground (arith, e);
            weaker = ground arith;
            listens = refl;
            other = refl;
            healthy0 = refl;
            healthy1 = refl;
          },
          tt,
        ),
      )
      refl
      (record {
        owner = refl;
        revertive = refl;
        rpl = refl;
        own = refl;
        ring_id_fits = ground arith;
        subcode_fits = ground arith;
      })
      ((refl, refl, λ _. refl), tt) tt (refl, refl, λ e. ground (arith, e)) (ground arith)
      (ground arith) (ground arith) (ground arith)

failing-IsAlarmed : IsAlarmed ref0 failing failing
failing-IsAlarmed = record {
  running = failing-IsRunning;
  protected = refl;
  blocks = (refl, refl);
  sending = refl;
  sends = ring_send_raps_lem failing failing-IsRunning.settled.sound.frame (λ e. ground (arith, e));
  says = refl;
  message = record {
    ring_id_fits = ground arith;
    flags_fit = ground arith;
    subcode_fits = ground arith;
    sent = λ e. ground (arith, e);
  };
  own = refl;
  kept = refl;
  role = λ _. refl;
  asked = refl;
  request = refl;
}

-- The owner has heard of the failure, the neighbour has not.
abbrev to_rest : List Hop
to_rest =
    record { entry = ref0; daemon = record { ring = neighbour; repeat = 5000 } }
    ∷ record { entry = ref0; daemon = record { ring = alerted; repeat = 5000 } }
    ∷ []

resent_floods_example :
    ((send_raps_cb (send_times 4 failing_daemon).0).1
      ≡ ring_send_raps (send_times 4 failing_daemon).0.ring)
    × (ring_send_raps (send_times 4 failing_daemon).0.ring ≡ sends_both failing.raps)
    × IsKnown 9000 ref1 failing_daemon to_rest (send_times 4 failing_daemon).0.ring
resent_floods_example =
    resent_floods 4 9000 ref0 ref1 failing failing_daemon to_rest failing-IsAlarmed (
      inl (record {
        running = neighbour-IsRunning;
        free = at_rest;
        news = λ e. ground (arith, e);
        weaker = ground arith;
        listens = refl;
        other = refl;
        healthy0 = refl;
        healthy1 = refl;
      }),
      (
        inr (record {
          running = alerted-IsRunning;
          protected = refl;
          open0 = refl;
          open1 = refl;
          silent = refl;
          unguarded = refl;
          request = refl;
          remote = refl;
          unasked = refl;
          other = refl;
        }),
        tt,
      ),
    )
