-- ===== src/Tests/Creation.antt =====
-- A ring that ERIOCINIT creates, and the theorems at that ring.
use erps.Common.{ℕ, ◌++◌, true, false, Option, none, some, List, [], ◌∷◌, ◌≡◌, ◌⊎◌, refl}
use erps.Raps
use erps.Raps.{NodeId, zero_id, er_raps_encode, er_is_raps_frame, er_is_local_raps_frame}
use erps.Raps.Frame.{frame_of}
use erps.Ring.{pending, invalid, Ring, ref0, ref1, start_tx}
use erps.Port.{Port}
use erps.Ring.Fsm.{ring_fsm, dupe, group}
use erps.Ring.Receive.{Clock, er_forward_lookup}
use erps.Ring.Lifecycle.{
  Kernel, NetmapCall, attach, get_adapter, get_indices, regops, er_ring_create, join_ports,
  er_port_create, finish_ring, new_ring, er_lookup_ring, er_activate_ring, er_ring_destroy,
  same_name, detach, unget_adapter,
}
use erps.Ring.Attached.{attaches, detaches}
use erps.Ring.Resources.{created_and_destroyed}
use erps.Ring.Deaf.{created_rings_deaf}
use erps.Control.{
  Erreq, Answer, eriocinit, er_ioctl, install, configure, create_for, bad_rpl, einval, success,
}
use erps.Control.Init.{IsUp, er_ioctl_init, er_ioctl-total}

abbrev pub name0 : List ℕ
name0 = 101 ∷ 109 ∷ 48 ∷ []

abbrev pub name1 : List ℕ
name1 = 101 ∷ 109 ∷ 49 ∷ []

abbrev pub kernel : Kernel
kernel = record {
  ticks = 100;
  ring_allocated = true;
  port_allocated = λ _ _. true;
  raps_allocated = true;
  frame_allocated = true;
  attaches = λ _ _. true;
  has_adapter = λ _ _. true;
  port_index = λ _ _ _. some 2;
  nm_bdg_noport = 255;
}

abbrev alice : NodeId
alice = record { b0 = 2; b1 = 0; b2 = 0; b3 = 0; b4 = 0; b5 = 1 }

abbrev bob : NodeId
bob = record { b0 = 2; b1 = 0; b2 = 0; b3 = 0; b4 = 0; b5 = 2 }

abbrev message : Raps.Raps
message = record {
  ring_id = 1;
  vid = 4093;
  version = 0;
  flags = 0;
  request = Raps.nr;
  subcode = 0;
  node_id = zero_id;
}

-- The ring of the owner of the RPL at port 0.
abbrev born : Ring
born = record {
  port0 = record { name = name0; idx = 2; is_blocked = true; is_failed = false };
  port1 = record { name = name1; idx = 2; is_blocked = false; is_failed = false };
  is_rpl_owner = true;
  is_rpl_neighbour = false;
  is_revertive = false;
  rpl_port = some ref0;
  version = 0;
  id = 1;
  raps_vid = 4093;
  node_id = zero_id;
  guard_timer_active = false;
  guard_timer_active_since = 0;
  wtr_timer_active = false;
  wtr_timer_active_since = 0;
  wtb_timer_active = false;
  wtb_timer_active_since = 0;
  local_request = invalid;
  state = pending;
  prev_request = invalid;
  prev_request_port = none;
  prev_request_remote_node_id = zero_id;
  is_sending_raps = true;
  raps = message;
  raps_frame = frame_of message;
  raps_frame_len = 55;
  raps_bursts_remain = 3;
  guard_time = 0;
  wtr_time = 0;
  wtb_time = 0;
  active = false;
}

abbrev calls : List NetmapCall
calls =
    attach name0
    ∷ get_adapter name0
    ∷ get_indices name0
    ∷ attach name1
    ∷ get_adapter name1
    ∷ get_indices name1
    ∷ regops 1
    ∷ []

creation : (id : NodeId) → er_ring_create kernel 1 name0 name1 1 0 id ≡ some (some born, calls)
unfolding er_ring_create join_ports er_port_create finish_ring new_ring ring_fsm dupe group start_tx
    er_raps_encode
creation id = refl

abbrev clock : Clock
clock = record { ticks = 200; hz = 1000; raps_allocated = true }

created_rings_deaf_example :
    er_forward_lookup clock (some ref1) born.raps_frame 55 born ≡ some (false, born)
created_rings_deaf_example =
    created_rings_deaf kernel kernel 1 1 name0 name1 name0 name1 1 0 1 0 alice bob clock ref1
      {calls1 = calls} {calls2 = calls} (creation alice) (creation bob)

abbrev pub request : Erreq
request = record {
  er_port0 = name0;
  er_port1 = name1;
  er_port0_failed = false;
  er_port1_failed = false;
  er_port0_blocked = false;
  er_port1_blocked = false;
  er_node_id = alice;
  er_id = 1;
  er_version = 2;
  er_guard_time = 500;
  er_wtr_time = 1;
  er_raps_vid = 2000;
  er_revertive = 1;
  er_rpl_port = 1;
  er_rpl_owner = 1;
  er_rpl_neighbour = 0;
  er_cmd = 0;
}

abbrev pub up : Ring
up = record born {
  version = 2;
  raps_vid = 2000;
  guard_time = 500;
  wtr_time = 300000;
  wtb_time = 5500;
  is_revertive = true;
  active = true;
}

abbrev pub answer : Answer
answer = record { err = success; er_global = some up; req = some request; calls = calls }

pub init_run : er_ioctl kernel eriocinit (some request) none ≡ some answer
unfolding er_ioctl er_lookup_ring install create_for configure er_activate_ring er_ring_create
    join_ports er_port_create finish_ring new_ring ring_fsm dupe group start_tx er_raps_encode
    bad_rpl
init_run = refl

er_ioctl_init_example :
    (answer.er_global ≡ none) × (answer.err ≡ einval)
    ⊎ (◌≡◌ {A = Option Ring} none none)
      × (bad_rpl request ≡ false)
      × (answer.err ≡ success)
      × ((r : Ring) × (answer.er_global ≡ some r) × IsUp request r)
er_ioctl_init_example = er_ioctl_init kernel request none init_run

er_ioctl-total_example : (a : Answer) × (er_ioctl kernel eriocinit (some request) none ≡ some a)
er_ioctl-total_example = er_ioctl-total kernel eriocinit (some request) none refl

-- Netmap takes the first port only.
abbrev half : Kernel
half = record kernel { attaches = λ before name. same_name name name0 }

abbrev half_calls : List NetmapCall
half_calls =
    attach name0
    ∷ get_adapter name0
    ∷ get_indices name0
    ∷ attach name1
    ∷ unget_adapter name1
    ∷ detach name1
    ∷ []

created_and_destroyed_example :
    attaches name1 (calls ++ er_ring_destroy born) ≡ detaches name1 (calls ++ er_ring_destroy born)
created_and_destroyed_example =
    created_and_destroyed kernel 1 name0 name1 1 0 alice name1 (creation alice)
