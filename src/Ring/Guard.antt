-- ===== src/Ring/Guard.antt =====
-- The guard timer: `TICK_DIFF_MSEC` on 32-bit ticks.
use erps.Common.{ℕ, ◌+◌, ◌*◌, ◌/◌, ◌%◌, ◌^◌, ◌≤◌, ◌<◌, ◌-◌, true, ◌≡◌, ◌↔◌, arith}
use erps.Ring.{Ring}
use erps.Ring.Receive.{Clock, tick_diff_msec, guarded}

-- The ticks that have passed since `since`, on a counter that wraps.
abbrev pub elapsed : Clock → ℕ → ℕ
elapsed clock since = (clock.ticks + 2 ^ 32 - since) % 2 ^ 32

-- While the product of the elapsed ticks and 1000 fits an `int`, an armed guard timer holds messages back for
-- exactly 500 ms.
pub guarded_iff :
    (clock : Clock) (r : Ring)
    → r.guard_timer_active ≡ true
    → elapsed clock r.guard_timer_active_since * 1000 < 2 ^ 31
    → (guarded clock r ≡ true) ↔ (elapsed clock r.guard_timer_active_since * 1000 / clock.hz < 500)
unfolding guarded tick_diff_msec
guarded_iff clock r armed fits = ground arith

-- From 2147484 to 4294967 ticks after its start the product is a negative `int`, and an armed guard timer holds
-- messages back once more. With 1000 ticks a second that is from 36 to 71 minutes.
pub guarded_again :
    (clock : Clock) (r : Ring)
    → r.guard_timer_active ≡ true
    → 2147484 ≤ elapsed clock r.guard_timer_active_since
    → elapsed clock r.guard_timer_active_since ≤ 4294967
    → guarded clock r ≡ true
unfolding guarded tick_diff_msec
guarded_again clock r armed low high = ground arith
