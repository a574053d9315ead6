-- ===== src/Sim/Rows.antt =====
-- The rows of `ring_fsm` in extras/sim/ring.c, with `new_state` as the code keeps it.
use erps.Common.{ℕ, bit_or, Bool, not, ◌&&◌, ◌||◌, Option, none, some, memcmp, is_lt}
use erps.Raps
use erps.Raps.{RapsRequest, flag_dnf, flag_rb, NodeId, bytes}
use erps.Ring.{
  idle, protection, manual_switch, forced_switch, pending, Request, invalid, raps_nr, raps_nr_rb,
  wtb_running, wtb_expires, wtr_running, wtr_expires, req_ms, req_raps_ms, req_raps_sf,
  req_clear_sf, req_sf, req_raps_fs, req_fs, req_clear, PortRef, ref0, ref1, Ring,
}
use erps.Sim.Actions.{
  start_wtr_timer, stop_wtr_timer, start_wtb_timer, stop_wtb_timer, start_guard_timer,
  stop_guard_timer, block_port, unblock_port, flush_fdb, unblock_nonfailed_ports, start_tx, stop_tx,
  ring_other_port,
}
use erps.Sim.{Step, ◌>>◌, on, goto, skip, when, either, if_port_blocked, at_rpl}

abbrev pub owner : Ring → Bool
owner r = r.is_rpl_owner

abbrev pub revertive_owner : Ring → Bool
revertive_owner r = r.is_rpl_owner && r.is_revertive

abbrev pub plain : Ring → Bool
plain r = not r.is_rpl_owner && not r.is_rpl_neighbour

abbrev pub any_blocked : Ring → Bool
any_blocked r = r.port0.is_blocked || r.port1.is_blocked

-- The port is blocked and the other one opened; the ring is told so with the flags `f` if the port
-- is blocked already, and with the flags `g` otherwise.
unfoldable pub take_port : RapsRequest → ℕ → ℕ → Option PortRef → Step
unfolding if_port_blocked on ◌>>◌
take_port request f g port =
    if_port_blocked port (do on (start_tx request f); on (unblock_port (ring_other_port port)))
      (do
        on (block_port port)
        on (start_tx request g)
        on (unblock_port (ring_other_port port))
        on flush_fdb)

unfoldable pub stop_both_timers : Step
unfolding on ◌>>◌
stop_both_timers = do on stop_wtr_timer; on stop_wtb_timer

unfoldable pub open_ports : Step
unfolding on ◌>>◌
open_ports = do on (unblock_port (some ref0)); on (unblock_port (some ref1)); on stop_tx

unfoldable pub open_healthy : Step
unfolding on ◌>>◌
open_healthy = do on unblock_nonfailed_ports; on stop_tx

unfoldable pub block_first : RapsRequest → Option PortRef → Step
unfolding on ◌>>◌
block_first request port = do
  on (block_port port)
  on (unblock_port (ring_other_port port))
  on (start_tx request 0)

unfoldable pub init_rows : ℕ → Step
unfolding on goto when either at_rpl block_first ◌>>◌
init_rows now = do
  on stop_guard_timer
  on stop_wtr_timer
  on stop_wtb_timer
  either owner
      (do at_rpl (block_first Raps.nr); when (λ r. r.is_revertive) (on (start_wtr_timer now)))
      (either (λ r. r.is_rpl_neighbour) (at_rpl (block_first Raps.nr))
        (do on (block_port (some ref0)); on (unblock_port (some ref1)); on (start_tx Raps.nr 0)))
  goto pending

-- A node yields to one with a higher address.
unfoldable pub yield_if_lower : Option NodeId → Step
unfolding when open_healthy
yield_if_lower none r s = none
yield_if_lower (some remote) r s =
    when (λ x. is_lt (memcmp (bytes x.node_id) (bytes remote))) open_healthy r s

unfoldable pub idle_rows : Request → Option PortRef → Option NodeId → Step
unfolding on goto skip when at_rpl take_port open_ports open_healthy yield_if_lower ◌>>◌
idle_rows req_clear port remote = skip
idle_rows req_fs port remote = do take_port Raps.fs flag_dnf 0 port; goto forced_switch
idle_rows req_raps_fs port remote = do open_ports; goto forced_switch
idle_rows req_sf port remote = do take_port Raps.sf flag_dnf 0 port; goto protection
idle_rows req_clear_sf port remote = skip
idle_rows req_raps_sf port remote = do open_healthy; goto protection
idle_rows req_raps_ms port remote = do open_healthy; goto manual_switch
idle_rows req_ms port remote = do take_port Raps.ms flag_dnf 0 port; goto manual_switch
idle_rows wtr_expires port remote = skip
idle_rows wtr_running port remote = skip
idle_rows wtb_expires port remote = skip
idle_rows wtb_running port remote = skip
idle_rows raps_nr_rb port remote = do
  at_rpl (λ p. on (unblock_port (ring_other_port p)))
  when (λ r. not r.is_rpl_owner) (on stop_tx)
idle_rows raps_nr port remote = when plain (yield_if_lower remote)
idle_rows invalid port remote = skip

unfoldable pub protection_rows : ℕ → Request → Option PortRef → Step
unfolding on goto skip when take_port open_ports ◌>>◌
protection_rows now req_clear port = skip
protection_rows now req_fs port = do take_port Raps.fs flag_dnf 0 port; goto forced_switch
protection_rows now req_raps_fs port = do open_ports; goto forced_switch
protection_rows now req_sf port = take_port Raps.sf flag_dnf 0 port
protection_rows now req_clear_sf port = do
  on (start_guard_timer now)
  on (start_tx Raps.nr 0)
  when revertive_owner (on (start_wtr_timer now))
  goto pending
protection_rows now req_raps_sf port = skip
protection_rows now req_raps_ms port = skip
protection_rows now req_ms port = skip
protection_rows now wtr_expires port = skip
protection_rows now wtr_running port = skip
protection_rows now wtb_expires port = skip
protection_rows now wtb_running port = skip
protection_rows now raps_nr_rb port = goto pending
protection_rows now raps_nr port = do when revertive_owner (on (start_wtr_timer now)); goto pending
protection_rows now invalid port = skip

-- The guard timer starts, and NR is sent.
unfoldable pub clear_switch : ℕ → Step
unfolding on when ◌>>◌
clear_switch now = do
  on (start_guard_timer now)
  on (start_tx Raps.nr 0)
  when revertive_owner (on (start_wtb_timer now))

unfoldable pub manual_switch_rows : ℕ → Request → Option PortRef → Step
unfolding on goto skip when either take_port open_ports open_healthy clear_switch ◌>>◌
manual_switch_rows now req_clear port = do when any_blocked (clear_switch now); goto pending
manual_switch_rows now req_fs port = do take_port Raps.fs flag_dnf 0 port; goto forced_switch
manual_switch_rows now req_raps_fs port = do open_ports; goto forced_switch
manual_switch_rows now req_sf port = do take_port Raps.sf flag_dnf 0 port; goto protection
manual_switch_rows now req_clear_sf port = skip
manual_switch_rows now req_raps_sf port = open_healthy
manual_switch_rows now req_raps_ms port =
    either any_blocked (do clear_switch now; goto pending) (goto manual_switch)
manual_switch_rows now req_ms port = skip
manual_switch_rows now wtr_expires port = skip
manual_switch_rows now wtr_running port = skip
manual_switch_rows now wtb_expires port = skip
manual_switch_rows now wtb_running port = skip
manual_switch_rows now raps_nr_rb port = goto pending
manual_switch_rows now raps_nr port = do
  when revertive_owner (on (start_wtb_timer now))
  goto pending
manual_switch_rows now invalid port = skip

unfoldable pub forced_switch_rows : ℕ → Request → Option PortRef → Step
unfolding on goto skip when clear_switch ◌>>◌
forced_switch_rows now req_clear port = do when any_blocked (clear_switch now); goto pending
forced_switch_rows now req_fs port = do on (block_port port); on (start_tx Raps.fs 0); on flush_fdb
forced_switch_rows now req_raps_fs port = skip
forced_switch_rows now req_sf port = skip
forced_switch_rows now req_clear_sf port = skip
forced_switch_rows now req_raps_sf port = skip
forced_switch_rows now req_raps_ms port = skip
forced_switch_rows now req_ms port = skip
forced_switch_rows now wtr_expires port = skip
forced_switch_rows now wtr_running port = skip
forced_switch_rows now wtb_expires port = skip
forced_switch_rows now wtb_running port = skip
forced_switch_rows now raps_nr_rb port = goto pending
forced_switch_rows now raps_nr port = do
  when revertive_owner (on (start_wtb_timer now))
  goto pending
forced_switch_rows now invalid port = skip

unfoldable pub pending_rows : Request → Option PortRef → Option NodeId → Step
unfolding on goto skip when at_rpl take_port stop_both_timers open_ports open_healthy yield_if_lower
    ◌>>◌
pending_rows req_clear port remote = do
  when owner (do
    on stop_wtr_timer
    on stop_wtb_timer
    at_rpl (take_port Raps.nr (bit_or flag_rb flag_dnf) flag_rb))
  goto idle
pending_rows req_fs port remote = do
  take_port Raps.fs flag_dnf 0 port
  when owner stop_both_timers
  goto forced_switch
pending_rows req_raps_fs port remote = do
  open_ports
  when owner stop_both_timers
  goto forced_switch
pending_rows req_sf port remote = do
  take_port Raps.sf flag_dnf 0 port
  when owner stop_both_timers
  goto protection
pending_rows req_clear_sf port remote = skip
pending_rows req_raps_sf port remote = do open_healthy; when owner stop_both_timers; goto protection
pending_rows req_raps_ms port remote = do
  open_healthy
  when owner stop_both_timers
  goto manual_switch
pending_rows req_ms port remote = do
  when owner stop_both_timers
  take_port Raps.ms flag_dnf 0 port
  goto manual_switch
pending_rows wtr_expires port remote = do
  when owner (do on stop_wtb_timer; at_rpl (take_port Raps.nr (bit_or flag_dnf flag_rb) flag_rb))
  goto idle
pending_rows wtr_running port remote = skip
pending_rows wtb_expires port remote = do
  when owner (do on stop_wtr_timer; at_rpl (take_port Raps.nr (bit_or flag_rb flag_dnf) flag_rb))
  goto idle
pending_rows wtb_running port remote = skip
pending_rows raps_nr_rb port remote = do
  when owner stop_both_timers
  when plain open_ports
  when (λ r. r.is_rpl_neighbour)
      (at_rpl (λ p. do on (block_port p); on (unblock_port (ring_other_port p)); on stop_tx))
  goto idle
pending_rows raps_nr port remote = yield_if_lower remote
pending_rows invalid port remote = skip
