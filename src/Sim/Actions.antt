-- ===== src/Sim/Actions.antt =====
-- The actions of the state machine in extras/sim/ring.c, on the ports of ring_port.c and the encoder of
-- ring_raps.c. `now` is what `tick_now` returns.
use erps.Common.{ℕ, Bool, true, false, not, ◌||◌, Option, none, some, List, ◌==◌, if◌then◌else◌}
use erps.Raps.{RapsRequest, code, Raps, er_raps_encode}
use erps.Port.{Port}
use erps.Ring.{PortRef, ref0, ref1, Ring, Act, ◌>>◌, only_if, same_port, port_of, set_port}

unfoldable pub ring_port_is_blocked : Port → Bool
ring_port_is_blocked port = port.is_blocked

unfoldable pub ring_port_unblock : Port → Port
ring_port_unblock port = record port { is_blocked = false }

unfoldable pub ring_port_block : Port → Port
ring_port_block port = record port { is_blocked = true }

-- `ri_raps_encode` writes what `er_raps_encode` writes.
unfoldable pub ri_raps_encode : Raps → List ℕ → ℕ → Bool × List ℕ
ri_raps_encode = er_raps_encode

unfoldable pub start_wtr_timer : ℕ → Act
start_wtr_timer now ring =
    some (record ring { wtr_timer_active_since = now; wtr_timer_active = true })

unfoldable pub stop_wtr_timer : Act
stop_wtr_timer ring = some (record ring { wtr_timer_active = false })

unfoldable pub start_wtb_timer : ℕ → Act
start_wtb_timer now ring =
    some (record ring { wtb_timer_active_since = now; wtb_timer_active = true })

unfoldable pub stop_wtb_timer : Act
stop_wtb_timer ring = some (record ring { wtb_timer_active = false })

unfoldable pub start_guard_timer : ℕ → Act
start_guard_timer now ring =
    some (record ring { guard_timer_active_since = now; guard_timer_active = true })

unfoldable pub stop_guard_timer : Act
stop_guard_timer ring = some (record ring { guard_timer_active = false })

unfoldable pub block_port : Option PortRef → Act
unfolding ring_port_block
block_port none ring = none
block_port (some port) ring = some (set_port port (ring_port_block (port_of ring port)) ring)

unfoldable pub unblock_port : Option PortRef → Act
unfolding ring_port_unblock
unblock_port none ring = none
unblock_port (some port) ring = some (set_port port (ring_port_unblock (port_of ring port)) ring)

unfoldable pub is_port_blocked : Option PortRef → Ring → Option Bool
unfolding ring_port_is_blocked
is_port_blocked none ring = none
is_port_blocked (some port) ring = some (ring_port_is_blocked (port_of ring port))

unfoldable pub flush_fdb : Act
flush_fdb ring = some ring

-- A null pointer is not port 1, and gives port 1.
abbrev pub ring_other_port : Option PortRef → Option PortRef
ring_other_port port = if same_port port (some ref1) then some ref0 else some ref1

unfoldable pub unblock_nonfailed_ports : Act
unfolding unblock_port ◌>>◌ only_if
unblock_nonfailed_ports = do
  only_if (λ r. not r.port0.is_failed) (unblock_port (some ref0))
  only_if (λ r. not r.port1.is_failed) (unblock_port (some ref1))

-- A frame that differs from the last one is serialised, and sent in a burst.
unfoldable pub start_tx : RapsRequest → ℕ → Act
unfolding ri_raps_encode
start_tx request flags r =
    let raps = record r.raps { request = request; flags = flags } in
    let burst = record r {
      raps = raps;
      raps_frame = (ri_raps_encode raps r.raps_frame r.raps_frame_len).1;
      raps_bursts_remain = 3;
    } in
    let r' =
      (if not (code r.raps.request == code request) || not (r.raps.flags == flags)
        then burst
        else r) in
    some (record r' { is_sending_raps = true })

unfoldable pub stop_tx : Act
stop_tx r = some (record r { is_sending_raps = false })
