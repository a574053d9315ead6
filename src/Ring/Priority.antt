-- ===== src/Ring/Priority.antt =====
-- `ring_process_request` of src/sys/dev/erps/er_ring.c: which requests reach the state machine.
use erps.Common.{ℕ, Bool, not, ◌&&◌, ◌||◌, Option, some, ltb, ◌==◌, if◌then◌else◌}
use erps.Raps.{NodeId}
use erps.Ring.{
  State, init, idle, protection, manual_switch, forced_switch, pending, Request, rank, invalid,
  req_ms, req_clear_sf, req_sf, req_fs, req_clear, PortRef, Ring, Act,
}
use erps.Ring.Fsm.{ring_fsm}

-- The values of the enumeration.
abbrev pub state_code : State → ℕ
state_code init = 0
state_code idle = 1
state_code protection = 2
state_code manual_switch = 3
state_code forced_switch = 4
state_code pending = 5

abbrev pub is_req : Request → Request → Bool
is_req a b = rank a == rank b

abbrev pub is_in : Ring → State → Bool
is_in r s = state_code r.state == state_code s

-- Version 1 has no local MS and FS.
unfoldable pub unsupported : Request → Ring → Bool
unsupported request r = (r.version == 1) && (is_req request req_fs || is_req request req_ms)

-- SF is ignored in FORCED_SWITCH.
unfoldable pub separating : Request → Ring → Bool
separating request r = is_req request req_sf && is_in r forced_switch

-- The variable `denied` at the end of the checks on a local CLEAR.
unfoldable pub denied : Ring → Bool
denied r =
    let local = is_req r.local_request req_ms || is_req r.local_request req_fs in
    let reverting =
      r.is_rpl_owner
      && (not (is_in r forced_switch)
          && (not (is_in r manual_switch) && (not (is_in r protection) && not (is_in r idle)))) in
    not (local || reverting)

-- The local request that is kept when `request` takes over.
unfoldable pub retain : Request → Request
retain req_sf = req_sf
retain req_fs = req_fs
retain req_ms = req_ms
retain _ = invalid

abbrev pub local_sf_cleared : Request → Ring → Bool
local_sf_cleared request r = is_req r.local_request req_sf && is_req request req_clear_sf

-- CLEAR_SF takes a local SF back.
unfoldable pub clear_local_sf : Request → Ring → Ring
clear_local_sf request r =
    if local_sf_cleared request r then (record r { local_request = invalid }) else r

-- The comparison with the local request, which a request that wins replaces.
unfoldable pub compete : ℕ → Request → Option PortRef → Option NodeId → Act
unfolding retain
compete now request port remote_node_id r =
    if ltb (rank r.local_request) (rank request)
    then ring_fsm now request port remote_node_id (record r { local_request = retain request })
    else some r

unfoldable pub ring_process_request : ℕ → Request → Option PortRef → Option NodeId → Act
unfolding unsupported separating denied clear_local_sf compete
ring_process_request now request port remote_node_id r =
    if unsupported request r
    then some r
    else if separating request r
    then some r
    else if is_req request req_clear && denied r
    then some r
    else compete now request port remote_node_id (clear_local_sf request r)
