-- ===== src/Sim/Fsm.antt =====
-- `ring_fsm` and `ring_process_request` of extras/sim/ring.c.
use erps.Common.{ℕ, true, false, ◌&&◌, Option, none, some, ltb, if◌then◌else◌}
use erps.Raps.{NodeId}
use erps.Ring.{
  State, init, idle, protection, manual_switch, forced_switch, pending, Request, rank, req_clear,
  PortRef, Ring,
}
use erps.Ring.Fsm.{Group, by_request, group, is_dupe, save_request}
use erps.Ring.Priority.{is_req, unsupported, separating, denied, clear_local_sf, retain}
use erps.Sim.{Step}
use erps.Sim.Rows.{
  init_rows, idle_rows, protection_rows, manual_switch_rows, forced_switch_rows, pending_rows,
}
use erps.Sim.Outcome.{Outcome, done, died, crashed}

-- The `switch` on the state.
unfoldable pub run_row : ℕ → State → Request → Option PortRef → Option NodeId → Step
unfolding init_rows idle_rows protection_rows manual_switch_rows forced_switch_rows pending_rows
run_row now init req port remote = init_rows now
run_row now idle req port remote = idle_rows req port remote
run_row now protection req port remote = protection_rows now req port
run_row now manual_switch req port remote = manual_switch_rows now req port
run_row now forced_switch req port remote = forced_switch_rows now req port
run_row now pending req port remote = pending_rows req port remote

-- `r->state = new_state`.
abbrev pub store_state : Option (Ring × State) → Outcome Ring
store_state none = crashed
store_state (some (r, new_state)) = done (record r { state = new_state })

-- On a repetition the process ends if the request is in the third group.
unfoldable pub on_repetition : Group → Ring → Outcome Ring
on_repetition by_request r = died
on_repetition _ r = done r

unfoldable pub ring_fsm : ℕ → Request → Option PortRef → Option NodeId → Ring → Outcome Ring
unfolding run_row on_repetition save_request
ring_fsm now req port remote_node_id r = elim (is_dupe req port remote_node_id r) [
  | none ↦ crashed
  | some true ↦ on_repetition (group req) r
  | some false ↦
      store_state (
        run_row now r.state req port remote_node_id (save_request req port remote_node_id r)
          r.state)
]

-- The comparison with the local request.
unfoldable pub override : ℕ → Request → Option PortRef → Option NodeId → Ring → Outcome Ring
unfolding retain
override now request port remote_node_id r =
    if ltb (rank r.local_request) (rank request)
    then ring_fsm now request port remote_node_id (record r { local_request = retain request })
    else done r

unfoldable pub ring_process_request :
    ℕ → Request → Option PortRef → Option NodeId → Ring → Outcome Ring
unfolding unsupported separating denied clear_local_sf override
ring_process_request now request port remote_node_id r =
    if unsupported request r
    then done r
    else if separating request r
    then done r
    else if is_req request req_clear && denied r
    then done r
    else override now request port remote_node_id (clear_local_sf request r)
