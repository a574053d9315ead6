-- ===== src/Ring.antt =====
-- The ring: its states, requests and record (src/sys/dev/erps/er_ring.h) and the actions of its
-- state machine (the first part of er_ring.c).
pub mod Rows
pub mod Fsm
pub mod Logic
pub mod Steady
pub mod Moves
pub mod RowsTotal
pub mod Total
pub mod Repeat
pub mod ReceiveTotal
pub mod Created
pub mod Effects
pub mod Switching
pub mod Moved
pub mod Transitions
pub mod LookupTotal
pub mod Guard
pub mod Deaf
pub mod Admission
pub mod Running
pub mod Reversion
pub mod Yielding
pub mod Resting
pub mod Attached
pub mod Resources
pub mod Recovery
pub mod Forward
pub mod Priority
pub mod Receive
pub mod Lifecycle
use erps.Common.{
  ℕ, ◌+◌, ◌*◌, Bool, true, false, not, ◌||◌, ◌&&◌, Option, none, some, List, ltb, ◌==◌,
  if◌then◌else◌,
}
use erps.Raps.{RapsRequest, code, NodeId, Raps, er_raps_encode}
use erps.Port.{Port, er_port_block, er_port_unblock, er_port_is_blocked}

pub data State : Type 0 where
  init idle protection manual_switch forced_switch pending : State

pub data Request : Type 0 where
  invalid raps_nr raps_nr_rb wtb_running wtb_expires wtr_running wtr_expires : Request
  req_ms req_raps_ms req_raps_sf req_clear_sf req_sf req_raps_fs req_fs req_clear : Request

-- The values of the enumeration, which are the priorities of the requests.
abbrev pub rank : Request → ℕ
rank invalid = 0
rank raps_nr = 1
rank raps_nr_rb = 2
rank wtb_running = 3
rank wtb_expires = 4
rank wtr_running = 5
rank wtr_expires = 6
rank req_ms = 7
rank req_raps_ms = 8
rank req_raps_sf = 9
rank req_clear_sf = 10
rank req_sf = 11
rank req_raps_fs = 12
rank req_fs = 13
rank req_clear = 14

-- A pointer to one of the two ports of the ring; a pointer that may be null is an `Option`.
pub data PortRef : Type 0 where
  ref0 ref1 : PortRef

abbrev pub same_port : Option PortRef → Option PortRef → Bool
same_port none none = true
same_port (some ref0) (some ref0) = true
same_port (some ref1) (some ref1) = true
same_port _ _ = false

pub record Ring : Type 0 where
  pub port0 : Port
  pub port1 : Port
  pub is_rpl_owner : Bool
  pub is_rpl_neighbour : Bool
  pub is_revertive : Bool
  pub rpl_port : Option PortRef
  pub version : ℕ
  pub id : ℕ
  pub raps_vid : ℕ
  pub node_id : NodeId
  pub guard_timer_active : Bool
  pub guard_timer_active_since : ℕ
  pub wtr_timer_active : Bool
  pub wtr_timer_active_since : ℕ
  pub wtb_timer_active : Bool
  pub wtb_timer_active_since : ℕ
  pub local_request : Request
  pub state : State
  pub prev_request : Request
  pub prev_request_port : Option PortRef
  pub prev_request_remote_node_id : NodeId
  pub is_sending_raps : Bool
  pub raps : Raps
  pub raps_frame : List ℕ
  pub raps_frame_len : ℕ
  pub raps_bursts_remain : ℕ
  pub guard_time : ℕ
  pub wtr_time : ℕ
  pub wtb_time : ℕ
  pub active : Bool

-- A change of the ring that faults at a null pointer.
abbrev pub Act : Type 0
Act = Ring → Option Ring

infixl 5 ◌>>◌
unfoldable pub ◌>>◌ : Act → Act → Act
◌>>◌ a b r = elim (a r) [ none ↦ none | some r' ↦ b r' ]

-- `if (test(r)) a` with no other branch.
unfoldable pub only_if : (Ring → Bool) → Act → Act
only_if test a r = if test r then a r else some r

unfoldable pub if_else : (Ring → Bool) → Act → Act → Act
if_else test a b r = if test r then a r else b r

-- An action on `r->rpl_port`.
unfoldable pub with_rpl : (Option PortRef → Act) → Act
with_rpl f r = f r.rpl_port r

unfoldable pub start_wtr_timer : ℕ → Act
start_wtr_timer now r = some (record r { wtr_timer_active_since = now; wtr_timer_active = true })

unfoldable pub stop_wtr_timer : Act
stop_wtr_timer r = some (record r { wtr_timer_active = false })

unfoldable pub start_wtb_timer : ℕ → Act
start_wtb_timer now r = some (record r { wtb_timer_active_since = now; wtb_timer_active = true })

unfoldable pub stop_wtb_timer : Act
stop_wtb_timer r = some (record r { wtb_timer_active = false })

unfoldable pub start_guard_timer : ℕ → Act
start_guard_timer now r =
    some (record r { guard_timer_active_since = now; guard_timer_active = true })

unfoldable pub stop_guard_timer : Act
stop_guard_timer r = some (record r { guard_timer_active = false })

-- The port behind a pointer.
abbrev pub port_of : Ring → PortRef → Port
port_of r ref0 = r.port0
port_of r ref1 = r.port1

abbrev pub set_port : PortRef → Port → Ring → Ring
set_port ref0 port r = record r { port0 = port }
set_port ref1 port r = record r { port1 = port }

unfoldable pub block_port : Option PortRef → Act
unfolding er_port_block
block_port none r = none
block_port (some p) r = some (set_port p (er_port_block (port_of r p)) r)

unfoldable pub unblock_port : Option PortRef → Act
unfolding er_port_unblock
unblock_port none r = none
unblock_port (some p) r = some (set_port p (er_port_unblock (port_of r p)) r)

unfoldable pub is_port_blocked : Option PortRef → Ring → Option Bool
unfolding er_port_is_blocked
is_port_blocked none r = none
is_port_blocked (some p) r = some (er_port_is_blocked (port_of r p))

unfoldable pub flush_fdb : Act
flush_fdb r = some r

-- The comparison is of pointers: a null pointer, which is not port 1, gives port 1.
unfoldable pub er_ring_other_port : Option PortRef → Option PortRef
er_ring_other_port port = if same_port port (some ref1) then some ref0 else some ref1

unfoldable pub unblock_nonfailed_ports : Act
unfolding unblock_port ◌>>◌ only_if
unblock_nonfailed_ports = do
  only_if (λ r. not r.port0.is_failed) (unblock_port (some ref0))
  only_if (λ r. not r.port1.is_failed) (unblock_port (some ref1))

-- The frame is encoded again only if it differs from the last one.
unfoldable pub start_tx : RapsRequest → ℕ → Act
start_tx request flags r =
    let raps = record r.raps { request = request; flags = flags } in
    let r' =
      (if not (code r.raps.request == code request) || not (r.raps.flags == flags)
        then (record r {
          raps = raps;
          raps_frame = (er_raps_encode raps r.raps_frame r.raps_frame_len).1;
          raps_bursts_remain = 3;
        })
        else r) in
    some (record r' { is_sending_raps = true })

unfoldable pub stop_tx : Act
stop_tx r = some (record r { is_sending_raps = false })

-- `if (is_port_blocked(port)) a else b`.
unfoldable pub if_blocked : Option PortRef → Act → Act → Act
unfolding is_port_blocked
if_blocked port a b r = elim (is_port_blocked port r) [
  | none ↦ none
  | some blocked ↦ if blocked then a r else b r
]

-- `new_state = s`, of which `r->state = new_state` makes the new state at the end.
unfoldable pub enter : State → Act
enter s r = some (record r { state = s })

-- A row with no action and no new state.
unfoldable pub stay : Act
stay r = some r
