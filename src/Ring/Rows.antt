-- ===== src/Ring/Rows.antt =====
-- What the rows of `ring_fsm` (src/sys/dev/erps/er_ring.c) have in common, and row 01. The children
-- have the rows of the other states: one function for each case of the outer `switch`.
pub mod Idle
pub mod Protection
pub mod ManualSwitch
pub mod ForcedSwitch
pub mod Pending
use erps.Common.{ℕ, Bool, true, false, ◌||◌, ◌&&◌, Option, none, some, if◌then◌else◌, bit_or}
use erps.Raps.{RapsRequest, flag_dnf, flag_rb}
use erps.Raps
use erps.Ring.{
  pending, PortRef, ref0, ref1, Ring, Act, ◌>>◌, only_if, if_else, with_rpl, start_wtr_timer,
  stop_wtr_timer, stop_wtb_timer, stop_guard_timer, block_port, unblock_port, flush_fdb,
  er_ring_other_port, unblock_nonfailed_ports, start_tx, stop_tx, if_blocked, enter,
}

-- The lines that rows 03, 05, 09, 17, 19, 31, 33, 59, 61 and 65 have in common: block the port,
-- unblock the other one and tell the ring.
unfoldable pub switch_to : RapsRequest → Option PortRef → Act
unfolding if_blocked unblock_port block_port er_ring_other_port flush_fdb ◌>>◌
switch_to request port =
    if_blocked port (do start_tx request flag_dnf; unblock_port (er_ring_other_port port))
      (do block_port port; start_tx request 0; unblock_port (er_ring_other_port port); flush_fdb)

-- The lines that rows 58, 66 and 68 have in common: block the RPL and tell the ring.
unfoldable pub block_rpl : Option PortRef → Act
unfolding if_blocked unblock_port block_port er_ring_other_port flush_fdb ◌>>◌
block_rpl rpl_port =
    if_blocked rpl_port
      (do start_tx Raps.nr (bit_or flag_rb flag_dnf); unblock_port (er_ring_other_port rpl_port))
      (do
        block_port rpl_port
        start_tx Raps.nr flag_rb
        unblock_port (er_ring_other_port rpl_port)
        flush_fdb)

-- Rows 04, 18, 32 and 60: both ports are opened, and the node falls silent.
unfoldable pub open_both : Act
unfolding unblock_port stop_tx ◌>>◌
open_both = do unblock_port (some ref0); unblock_port (some ref1); stop_tx

unfoldable pub stop_owner_timers : Act
unfolding stop_wtr_timer stop_wtb_timer ◌>>◌ only_if
stop_owner_timers = only_if (λ r. r.is_rpl_owner) (do stop_wtr_timer; stop_wtb_timer)

unfoldable pub open_nonfailed : Act
unfolding unblock_nonfailed_ports stop_tx ◌>>◌
open_nonfailed = do unblock_nonfailed_ports; stop_tx

abbrev pub reverts : Ring → Bool
reverts r = r.is_rpl_owner && r.is_revertive

abbrev pub some_blocked : Ring → Bool
some_blocked r = r.port0.is_blocked || r.port1.is_blocked

-- The branches of row 01 for the owner or the neighbour of the RPL.
unfoldable pub init_rpl : Option PortRef → Act
unfolding block_port unblock_port er_ring_other_port ◌>>◌
init_rpl rpl_port = do
  block_port rpl_port
  unblock_port (er_ring_other_port rpl_port)
  start_tx Raps.nr 0

unfoldable pub init_ports : ℕ → Act
unfolding init_rpl block_port unblock_port start_wtr_timer ◌>>◌ only_if if_else with_rpl
init_ports now =
    if_else (λ r. r.is_rpl_owner)
      (do with_rpl init_rpl; only_if (λ r. r.is_revertive) (start_wtr_timer now))
      (if_else (λ r. r.is_rpl_neighbour) (with_rpl init_rpl)
        (do block_port (some ref0); unblock_port (some ref1); start_tx Raps.nr 0))

-- Row 01. The `switch` does not look at the request.
unfoldable pub fsm_init : ℕ → Act
unfolding stop_guard_timer stop_wtr_timer stop_wtb_timer init_ports enter ◌>>◌
fsm_init now = do stop_guard_timer; stop_wtr_timer; stop_wtb_timer; init_ports now; enter pending
