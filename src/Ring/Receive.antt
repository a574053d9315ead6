-- ===== src/Ring/Receive.antt =====
-- The receive path of src/sys/dev/erps/er_ring.c: `process_raps_frame` and `er_forward_lookup`.
-- `ticks` and `hz` of the kernel are fields of a clock, and so is whether `er_raps_create` is given its
-- memory.
use erps.Common.{
  ℕ, bit_and, Bool, true, false, not, ◌&&◌, Option, none, some, List, ◌==◌, if◌then◌else◌, ◌>>=◌,
}
use erps.Common.Int.{signed32, div_trunc, lt_ℕ, sub32, mul32, ℤ}
use erps.Raps.{
  nr, ms, sf, fs, event, flag_rb, Raps, er_raps_parse, er_is_raps_frame, er_is_keepalive_frame,
  er_is_valid_raps_frame, er_is_local_raps_frame,
}
use erps.Ring.{
  Request, raps_nr, raps_nr_rb, req_raps_ms, req_raps_sf, req_raps_fs, PortRef, Ring, port_of,
  er_ring_other_port,
}
use erps.Ring.Priority.{ring_process_request}

pub record Clock : Type 0 where
  pub ticks : ℕ  -- a 32-bit pattern
  pub hz : ℕ
  pub raps_allocated : Bool

-- The macro TICK_DIFF_MSEC.
unfoldable pub tick_diff_msec : Clock → ℕ → ℤ
tick_diff_msec clock since = div_trunc (signed32 (mul32 (sub32 clock.ticks since) 1000)) clock.hz

-- The request that a message stands for; EVENT is not handled.
unfoldable pub request_of : Raps → Option Request
request_of raps = elim raps.request [
  | nr ↦ some (if bit_and raps.flags flag_rb == 0 then raps_nr else raps_nr_rb)
  | ms ↦ some req_raps_ms
  | sf ↦ some req_raps_sf
  | fs ↦ some req_raps_fs
  | event ↦ none
]

-- `process_raps_frame` behind the guard timer.
unfoldable pub process_parsed : Clock → Option Raps → PortRef → Ring → Option Ring
unfolding request_of
process_parsed clock none origin r = some r
process_parsed clock (some raps) origin r = elim (request_of raps) [
  | none ↦ some r
  | some request ↦ ring_process_request clock.ticks request (some origin) (some raps.node_id) r
]

-- Whether the guard timer holds the message back.
unfoldable pub guarded : Clock → Ring → Bool
unfolding tick_diff_msec
guarded clock r = r.guard_timer_active && lt_ℕ (tick_diff_msec clock r.guard_timer_active_since) 500

-- `er_raps_parse` writes its results through the pointer that `er_raps_create` has returned, unless it
-- refuses the frame before; without memory the pointer is null. `assert` is empty in this module.
unfoldable pub stored : Clock → Option Raps → Option (Option Raps)
stored clock none = some none
stored clock (some raps) = if clock.raps_allocated then some (some raps) else none

unfoldable pub process_raps_frame : Clock → List ℕ → ℕ → PortRef → Ring → Option Ring
unfolding guarded process_parsed stored
process_raps_frame clock buf len origin r = if guarded clock r then some r else (do
  parsed ← er_raps_parse buf len
  raps ← stored clock parsed
  process_parsed clock raps origin (record r { guard_timer_active = false }))

-- `return other_port->idx` in a function that returns a `bool`.
abbrev pub as_bool : ℕ → Bool
as_bool n = not (n == 0)

-- Whether an R-APS message that has been processed goes on to the other port.
unfoldable pub forward_raps : PortRef → Ring → Bool
unfolding er_ring_other_port
forward_raps recv_port r = elim (er_ring_other_port (some recv_port)) [
  | none ↦ false
  | some other_port ↦
      if not (port_of r recv_port).is_blocked && not (port_of r other_port).is_blocked
      then as_bool (port_of r other_port).idx
      else false
]

-- The branch of `er_forward_lookup` for an R-APS frame.
unfoldable pub lookup_raps : Clock → Option PortRef → List ℕ → ℕ → Ring → Option (Bool × Ring)
unfolding forward_raps er_is_valid_raps_frame
lookup_raps clock none buf len r = some (false, r)
lookup_raps clock (some recv_port) buf len r =
    if er_is_valid_raps_frame buf len
    then (do
      local ← er_is_local_raps_frame r.node_id buf len
      if local then some (false, r) else do
        r' ← process_raps_frame clock buf len recv_port r
        some (forward_raps recv_port r', r'))
    else some (false, r)

-- Whether a frame that is no R-APS frame passes.
unfoldable pub lookup_other : Option PortRef → Ring → Bool
lookup_other none r = true
lookup_other (some recv_port) r = not (port_of r recv_port).is_blocked

unfoldable pub er_forward_lookup : Clock → Option PortRef → List ℕ → ℕ → Ring → Option (Bool × Ring)
unfolding er_is_keepalive_frame lookup_raps lookup_other
er_forward_lookup clock recv_port buf len r =
    if er_is_keepalive_frame buf len then some (false, r) else (do
      is_raps ← er_is_raps_frame buf len
      if is_raps then lookup_raps clock recv_port buf len r else some (lookup_other recv_port r, r))
