-- ===== src/Tests.antt =====
-- A node whose ring has just left IDLE for PROTECTION, and the theorems at that node.
mod Creation
mod Frames
mod Simulator
mod Ctl
mod Daemon
mod Node
mod Netmap
mod Network
mod Healing
mod Io
mod Bridge
use erps.Common.{
  ℕ, ◌+◌, ◌≤◌, ◌<◌, ◌*◌, ◌/◌, ◌^◌, ◌-◌, ◌↔◌, Bool, true, false, Option, none, some, List, [], ◌∷◌,
  ◌≡◌, ◌≢◌, ◌⊎◌, inl, inr, refl, arith, is_eq, memcmp, replicate,
}
use erps.Raps
use erps.Raps.{
  NodeId, zero_id, bytes, er_raps_encode, er_raps_parse, er_is_raps_frame, er_is_local_raps_frame,
}
use erps.Raps.Frame.{frame_of}
use erps.Raps.Roundtrip.{
  IsMessage, received, er_raps_parse-er_raps_encode, er_is_local_raps_frame-er_raps_encode,
}
use erps.Port.{Port}
use erps.Ring.{
  forced_switch, req_fs, idle, protection, invalid, raps_nr, req_raps_sf, req_sf, req_ms, Ring,
  ref0, ref1, PortRef, port_of, start_tx, pending,
}
use erps.Netmap.{er_netmap_on_recv}
use erps.Netmap.Total.{IsNode, er_netmap_on_recv-total}
use erps.Ring.Rows.{some_blocked, switch_to}
use erps.Ring.Fsm.{ring_fsm, dupe, group, is_dupe}
use erps.Ring.Priority.{ring_process_request}
use erps.Ring.Receive.{Clock, guarded, process_raps_frame, er_forward_lookup}
use erps.Ring.Lifecycle.{
  Kernel, NetmapCall, er_ring_create, join_ports, er_port_create, finish_ring, new_ring,
}
use erps.Ring.Steady.{IsConfigured}
use erps.Ring.RowsTotal.{IsCall}
use erps.Ring.Total.{IsSound, ring_fsm-total}
use erps.Ring.Transitions.{target, ring_fsm-target}
use erps.Ring.Repeat.{ring_fsm-idempotent}
use erps.Ring.ReceiveTotal.{ring_process_request-total}
use erps.Ring.LookupTotal.{er_forward_lookup-total}
use erps.Ring.Forward.{RapsPasses, er_forward_lookup-passes}
use erps.Ring.Guard.{elapsed, guarded_iff, guarded_again}
use erps.Ring.Deaf.{created_rings_deaf}
use erps.Ring.Created.{IsNew, er_ring_create-IsNew}
use erps.Ring.Effects.{Switched}
use erps.Ring.Switching.{ring_fsm-Switched}
use erps.Control.{Erreq, Answer, eriocinit, eriocstatus, er_ioctl, einval, success, bad_rpl}
use erps.Control.Init.{IsUp, er_ioctl_init, er_ioctl_unchanged}

abbrev pub here : NodeId
here = record { b0 = 2; b1 = 0; b2 = 0; b3 = 0; b4 = 0; b5 = 1 }

abbrev pub there : NodeId
there = record { b0 = 2; b1 = 0; b2 = 0; b3 = 0; b4 = 0; b5 = 2 }

abbrev east : Port
east = record { name = 101 ∷ 109 ∷ 48 ∷ []; idx = 2; is_blocked = true; is_failed = false }

abbrev west : Port
west = record { name = 101 ∷ 109 ∷ 49 ∷ []; idx = 3; is_blocked = false; is_failed = false }

-- NR, RB from this node.
abbrev pub message : Raps.Raps
message = record {
  ring_id = 1;
  vid = 4093;
  version = 1;
  flags = 0x80;
  request = Raps.nr;
  subcode = 0;
  node_id = here;
}

-- SF from the other node.
abbrev pub foreign : Raps.Raps
foreign = record message { flags = 0; request = Raps.sf; node_id = there }

-- The owner of the RPL at port 0, which it blocks, in IDLE.
abbrev pub owner : Ring
owner = record {
  port0 = east;
  port1 = west;
  is_rpl_owner = true;
  is_rpl_neighbour = false;
  is_revertive = true;
  rpl_port = some ref0;
  version = 2;
  id = 1;
  raps_vid = 2000;
  node_id = here;
  guard_timer_active = false;
  guard_timer_active_since = 0;
  wtr_timer_active = false;
  wtr_timer_active_since = 0;
  wtb_timer_active = false;
  wtb_timer_active_since = 0;
  local_request = invalid;
  state = idle;
  prev_request = raps_nr;
  prev_request_port = some ref1;
  prev_request_remote_node_id = there;
  is_sending_raps = true;
  raps = message;
  raps_frame = frame_of message;
  raps_frame_len = 55;
  raps_bursts_remain = 3;
  guard_time = 500;
  wtr_time = 300000;
  wtb_time = 5500;
  active = true;
}

pub owner-IsSound : IsSound owner
owner-IsSound = record {
  has_rpl = λ _. (ref0, refl);
  frame = record { buffer = refl; buffer_len = refl; in_sync = inr refl };
}

-- The same ring behind the SF of the other node.
abbrev protected : Ring
protected = record owner {
  port0 = record east { is_blocked = false };
  state = protection;
  prev_request = req_raps_sf;
  prev_request_port = some ref1;
  prev_request_remote_node_id = there;
  is_sending_raps = false;
}

sf_run : ring_fsm 100 req_raps_sf (some ref1) (some there) owner ≡ some protected
unfolding ring_fsm dupe group
sf_run = refl

ring_fsm-total_example :
    (r' : Ring) × (ring_fsm 100 req_raps_sf (some ref1) (some there) owner ≡ some r')
    × IsSound r'
    × IsConfigured owner r'
ring_fsm-total_example =
    ring_fsm-total 100 req_raps_sf (some ref1) (some there) owner owner-IsSound tt

ring_fsm-target_example :
    (is_dupe req_raps_sf (some ref1) (some there) owner ≡ some true) × (protected ≡ owner)
    ⊎ (is_dupe req_raps_sf (some ref1) (some there) owner ≡ some false)
      × (protection ≡ target idle req_raps_sf (some_blocked owner))
ring_fsm-target_example = ring_fsm-target 100 req_raps_sf (some ref1) (some there) sf_run

ring_fsm-idempotent_example :
    ring_fsm 200 req_raps_sf (some ref1) (some there) protected ≡ some protected
ring_fsm-idempotent_example =
    ring_fsm-idempotent 100 200 req_raps_sf (some ref1) (some there) owner-IsSound tt
      (λ e. ground (arith, e)) sf_run

abbrev pub clock : Clock
clock = record { ticks = 100; hz = 1000; raps_allocated = true }

er_forward_lookup-total_example :
    (b : Bool) × (r' : Ring) × (er_forward_lookup clock (some ref1) (frame_of foreign) 55 owner
      ≡ some (b, r'))
    × IsSound r'
    × IsConfigured owner r'
er_forward_lookup-total_example =
    er_forward_lookup-total clock (frame_of foreign) 55 (ground arith) refl (some ref1) owner
      owner-IsSound

lookup_run :
    er_forward_lookup clock (some ref1) (frame_of foreign) 55 owner ≡ some (true, protected)
unfolding er_forward_lookup er_is_raps_frame er_is_local_raps_frame process_raps_frame er_raps_parse
    ring_process_request ring_fsm dupe group
lookup_run = refl

er_forward_lookup-passes_example :
    (er_is_raps_frame (frame_of foreign) 55 ≡ some true)
      × ((p : PortRef) × (some ref1 ≡ some p)
          × (process_raps_frame clock (frame_of foreign) 55 p owner ≡ some protected)
          × RapsPasses p (frame_of foreign) 55 owner protected)
    ⊎ (er_is_raps_frame (frame_of foreign) 55 ≡ some false)
      × (protected ≡ owner)
      × ((some ref1 ≡ none)
          ⊎ ((p : PortRef) × (some ref1 ≡ some p) × ((port_of owner p).is_blocked ≡ false)))
er_forward_lookup-passes_example =
    er_forward_lookup-passes clock (some ref1) (frame_of foreign) 55 lookup_run

abbrev forced : Raps.Raps
forced = record message { request = Raps.fs; flags = 0 }

-- The owner behind a local FS for port 1.
abbrev switched : Ring
switched = record owner {
  port0 = record east { is_blocked = false };
  port1 = record west { is_blocked = true };
  state = forced_switch;
  prev_request = req_fs;
  prev_request_port = some ref1;
  raps = forced;
  raps_frame = frame_of forced;
}

fs_run : ring_fsm 100 req_fs (some ref1) none owner ≡ some switched
unfolding ring_fsm dupe group start_tx er_raps_encode
fs_run = refl

ring_fsm-Switched_example : Switched Raps.fs Raps.flag_dnf 0 ref1 owner switched
ring_fsm-Switched_example =
    ring_fsm-Switched 100 req_fs ref1 none Raps.fs (unfold dupe group in refl) refl fs_run
