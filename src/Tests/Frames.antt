-- ===== src/Tests/Frames.antt =====
-- Frames and the guard timer, and the theorems at these.
use erps.Common.{
  ◌<◌, ◌*◌, ◌/◌, ◌^◌, ◌-◌, ◌↔◌, true, some, ◌≡◌, refl, arith, is_eq, memcmp, replicate,
}
use erps.Raps.{bytes, er_raps_encode, er_raps_parse, er_is_raps_frame, er_is_local_raps_frame}
use erps.Raps.Roundtrip.{
  IsMessage, received, er_raps_parse-er_raps_encode, er_is_local_raps_frame-er_raps_encode,
}
use erps.Ring.{Ring}
use erps.Ring.Receive.{guarded}
use erps.Ring.Guard.{elapsed, guarded_iff, guarded_again}
use erps.Tests.{here, there, owner, message, clock}

message-IsMessage : IsMessage message
message-IsMessage = record {
  ring_id_fits = ground arith;
  flags_fit = ground arith;
  subcode_fits = ground arith;
  sent = λ e. ground (arith, e);
}

er_raps_parse-er_raps_encode_example :
    ((er_raps_encode message (replicate 60 7) 60).0 ≡ true)
    × (er_raps_parse (er_raps_encode message (replicate 60 7) 60).1 60
        ≡ some (some (received message)))
er_raps_parse-er_raps_encode_example =
    er_raps_parse-er_raps_encode message (replicate 60 7) 60 60 message-IsMessage (ground arith)
      (ground arith) (ground arith)

er_is_local_raps_frame-er_raps_encode_example :
    (er_is_raps_frame (er_raps_encode message (replicate 60 7) 60).1 60 ≡ some true)
    × (er_is_local_raps_frame there (er_raps_encode message (replicate 60 7) 60).1 60
        ≡ some (is_eq (memcmp (bytes here) (bytes there))))
er_is_local_raps_frame-er_raps_encode_example =
    er_is_local_raps_frame-er_raps_encode message (replicate 60 7) 60 60 there (ground arith)
      (ground arith) (ground arith)

abbrev guarding : Ring
guarding = record owner { guard_timer_active = true; guard_timer_active_since = 2 ^ 32 - 100 }

guarded_iff_example :
    (guarded clock guarding ≡ true)
    ↔ (elapsed clock guarding.guard_timer_active_since * 1000 / clock.hz < 500)
guarded_iff_example = guarded_iff clock guarding refl (ground arith)

guarded_again_example :
    guarded (record { ticks = 3000000; hz = 1000; raps_allocated = true }) guarding ≡ true
guarded_again_example =
    guarded_again (record { ticks = 3000000; hz = 1000; raps_allocated = true }) guarding refl
      (ground arith) (ground arith)
