-- ===== src/Sim/Burst.antt =====
-- How often the simulator sends its message.
use erps.Common.{ℕ, zero, suc, ◌-◌, true, leb, if◌then◌else◌, [], ◌++◌, ◌≡◌, refl, arith, ap, ◌∙◌}
use erps.Sim.Node.{ring_send_raps}
use erps.Sim.Daemon.{Daemon, Sent, send_raps_cb}

-- `n` calls of the callback, and what they send.
unfoldable pub send_times : ℕ → Daemon → Daemon × Sent
send_times zero d = (d, [])
send_times (suc n) d =
    let (d1, sent1) = send_raps_cb d in let (d2, sent2) = send_times n d1 in (d2, sent1 ++ sent2)

-- The frame, on both ports, `n` times.
abbrev copies : ℕ → Sent → Sent
copies zero s = []
copies (suc n) s = s ++ copies n s

-- The pause behind the last of `n` calls, of which `k` belong to a burst.
abbrev pause : ℕ → ℕ → ℕ → ℕ
pause zero k before = before
pause (suc n) k before = if leb (suc n) k then 10 else 5000

-- The daemon behind one call.
abbrev after : Daemon → Daemon
after d = record {
  ring = record d.ring { raps_bursts_remain = d.ring.raps_bursts_remain - 1 };
  repeat = if leb 1 d.ring.raps_bursts_remain then 10 else 5000;
}

pub one_call :
    (d : Daemon) → d.ring.is_sending_raps ≡ true → send_raps_cb d ≡ (after d, ring_send_raps d.ring)
unfolding send_raps_cb
one_call d on = ground (arith, on)

pause_lem :
    (n k : ℕ)
    → pause n (k - 1) (if leb 1 k then 10 else 5000) ≡ (if leb (suc n) k then 10 else 5000)
pause_lem zero k = refl
pause_lem (suc n) k = ground arith

-- A sending daemon sends its frame on both ports at each call. While it has a burst to send, it counts the frames
-- down and pauses for 10 ms, and for 5 s from then on; nothing else changes.
pub send_times_lem :
    (n : ℕ) (d : Daemon)
    → d.ring.is_sending_raps ≡ true
    → ((send_times n d).0.ring
        ≡ record d.ring { raps_bursts_remain = d.ring.raps_bursts_remain - n })
      × ((send_times n d).0.repeat ≡ pause n d.ring.raps_bursts_remain d.repeat)
      × ((send_times n d).1 ≡ copies n (ring_send_raps d.ring))
unfolding send_times ring_send_raps
send_times_lem zero d on = ground arith
send_times_lem (suc n) d on =
    let (rings, pauses, sent) = send_times_lem n (after d) on in
    let less : d.ring.raps_bursts_remain - 1 - n ≡ d.ring.raps_bursts_remain - suc n =
      omega arith in
    rw (one_call d on) (
      rings ∙ ap (λ (k : ℕ). record d.ring { raps_bursts_remain = k }) less,
      pauses ∙ pause_lem n d.ring.raps_bursts_remain,
      ap (λ (s : Sent). ring_send_raps d.ring ++ s) sent,
    )
