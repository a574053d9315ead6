-- ===== src/Ring/Fsm.antt =====
-- `ring_fsm` of src/sys/dev/erps/er_ring.c: the filter for repeated requests, and the dispatch on the
-- state to the rows of `Ring.Rows`.
use erps.Common.{ℕ, Bool, true, false, ◌&&◌, Option, none, some, ◌==◌, memcmp, is_eq}
use erps.Raps.{NodeId, bytes}
use erps.Ring.{
  State, init, idle, protection, manual_switch, forced_switch, pending, Request, rank, invalid,
  raps_nr, raps_nr_rb, wtb_running, wtb_expires, wtr_running, wtr_expires, req_ms, req_raps_ms,
  req_raps_sf, req_clear_sf, req_sf, req_raps_fs, req_fs, req_clear, PortRef, same_port, Ring, Act,
}
use erps.Ring.Rows.{fsm_init}
use erps.Ring.Rows.Idle.{fsm_idle}
use erps.Ring.Rows.Protection.{fsm_protection}
use erps.Ring.Rows.ManualSwitch.{fsm_manual_switch}
use erps.Ring.Rows.ForcedSwitch.{fsm_forced_switch}
use erps.Ring.Rows.Pending.{fsm_pending}

-- The three groups of the first `switch`, and INVALID, which is in none.
pub data Group : Type 0 where
  by_address by_port by_request ungrouped : Group

unfoldable pub group : Request → Group
group raps_nr = by_address
group raps_nr_rb = by_address
group req_raps_sf = by_address
group req_raps_ms = by_address
group req_raps_fs = by_address
group req_ms = by_port
group req_sf = by_port
group req_fs = by_port
group req_clear_sf = by_port
group wtb_running = by_request
group wtb_expires = by_request
group wtr_running = by_request
group wtr_expires = by_request
group req_clear = by_request
group invalid = ungrouped

-- Whether the request is a repetition, on which `ring_fsm` returns. The address is read only if
-- the request is the last one.
unfoldable pub dupe : Group → Bool → Option PortRef → Option NodeId → Ring → Option Bool
dupe by_address false port remote_node_id r = some false
dupe by_address true port none r = none
dupe by_address true port (some remote) r =
    some (is_eq (memcmp (bytes remote) (bytes r.prev_request_remote_node_id)))
dupe by_port same port remote_node_id r = some (same && same_port port r.prev_request_port)
dupe by_request same port remote_node_id r = some same
dupe ungrouped same port remote_node_id r = some false

abbrev pub is_dupe : Request → Option PortRef → Option NodeId → Ring → Option Bool
is_dupe req port remote_node_id r =
    dupe (group req) (rank req == rank r.prev_request) port remote_node_id r

unfoldable pub save_remote : Option NodeId → NodeId → NodeId
save_remote none previous = previous
save_remote (some remote) previous = remote

unfoldable pub save_request : Request → Option PortRef → Option NodeId → Ring → Ring
unfolding save_remote
save_request req port remote_node_id r = record r {
  prev_request = req;
  prev_request_port = port;
  prev_request_remote_node_id = save_remote remote_node_id r.prev_request_remote_node_id;
}

-- The `switch` on the state.
unfoldable pub execute_row : ℕ → State → Request → Option PortRef → Option NodeId → Act
unfolding fsm_init fsm_idle fsm_protection fsm_manual_switch fsm_forced_switch fsm_pending
execute_row now init req port remote_node_id = fsm_init now
execute_row now idle req port remote_node_id = fsm_idle req port remote_node_id
execute_row now protection req port remote_node_id = fsm_protection now req port
execute_row now manual_switch req port remote_node_id = fsm_manual_switch now req port
execute_row now forced_switch req port remote_node_id = fsm_forced_switch now req port
execute_row now pending req port remote_node_id = fsm_pending req port remote_node_id

-- The early return on a repetition.
unfoldable pub unless_dupe : Option Bool → Act → Act
unless_dupe none a r = none
unless_dupe (some true) a r = some r
unless_dupe (some false) a r = a r

unfoldable pub ring_fsm : ℕ → Request → Option PortRef → Option NodeId → Act
unfolding unless_dupe save_request execute_row
ring_fsm now req port remote_node_id r =
    unless_dupe (is_dupe req port remote_node_id r)
      (λ r.
        execute_row now r.state req port remote_node_id (save_request req port remote_node_id r))
      r
