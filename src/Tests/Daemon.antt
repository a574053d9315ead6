-- ===== src/Tests/Daemon.antt =====
-- The start of the simulator, its client and its forwarding, and the theorems at these.
use erps.Common.{ℕ, true, false, some, List, [], ◌∷◌, ◌≡◌, ◌≢◌, ◌⊎◌, refl, replicate, take, none}
use erps.Raps
use erps.Raps.{NodeId, zero_id, er_raps_encode}
use erps.Raps.Frame.{frame_of}
use erps.Ring.{pending, invalid, ref0, ref1, port_of}
use erps.Sim.Actions.{
  start_tx, stop_guard_timer, stop_wtr_timer, stop_wtb_timer, block_port, unblock_port,
  start_wtr_timer,
}
use erps.Ring.Fsm.{dupe, group}
use erps.Ring.Receive.{as_bool, forward_raps}
use erps.Sim.Outcome.{done, crashed}
use erps.Sim.Daemon.{Daemon, fs, execute, rio_client, relay}
use erps.Sim.Client
use erps.Sim.Client.{Padding, sent, word}
use erps.Sim.Commanded.{port_word, needed, rio_client-main}
use erps.Sim.Setup.{
  System, Flag, owner_of, parse_flags, main, check_arguments, bad_arguments, start,
  ring_port_create, find_rpl_port, start_io,
}
use erps.Sim.Node.{ring_create, blank_ring}
use erps.Sim.Fsm.{ring_fsm, run_row, on_repetition}
use erps.Sim.Started.{IsAvailable}
use erps.Sim.Relay.{relay-forward_raps}
use erps.Tests.{there, owner}

relay-forward_raps_example :
    ((port_of owner ref1).is_blocked ≡ true)
      × (relay ref1 (7 ∷ []) 1 owner ≡ [])
      × (forward_raps ref1 owner ≡ false)
    ⊎ ((port_of owner ref1).is_blocked ≡ false)
      × ((port_of owner ref0).is_blocked ≡ false)
      × (relay ref1 (7 ∷ []) 1 owner ≡ (ref0, 7 ∷ []) ∷ [])
      × (forward_raps ref1 owner ≡ as_bool (port_of owner ref0).idx)
    ⊎ ((port_of owner ref1).is_blocked ≡ false)
      × ((port_of owner ref0).is_blocked ≡ true)
      × (relay ref1 (7 ∷ []) 1 owner ≡ (ref0, 7 ∷ []) ∷ [])
      × (forward_raps ref1 owner ≡ false)
relay-forward_raps_example = relay-forward_raps ref1 ref0 (7 ∷ []) 1 owner refl

abbrev padding : Padding
padding = record { b1 = 9; b2 = 8; b3 = 7 }

rio_client-main_example :
    (msg : List ℕ) × (Client.main true padding ([] ∷ word fs ∷ port_word ref1 ∷ []) ≡ sent msg)
    × (rio_client 100 (take 5 msg) 0 owner ≡ execute 100 (some fs) (needed fs ref1) owner)
    × ((rest : ℕ)
        → rest ≢ 0
        → needed fs ref1 ≡ some ref1
        → rio_client 100 (take 5 msg) rest owner ≡ crashed)
rio_client-main_example = rio_client-main padding [] fs ref1 100 owner

-- A system whose `sscanf` reads the address of this node from every text.
abbrev pub system : System
system = record {
  now = 100;
  opens = λ dev. true;
  allocated = true;
  garbage = replicate 55 7;
  sscanf = λ text. there;
  io_starts = true;
  selectable = true;
}

pub system-IsAvailable : IsAvailable system
system-IsAvailable = record {
  opens = λ dev. refl;
  allocated = refl;
  garbage = refl;
  io_starts = refl;
  selectable = refl;
}

abbrev pub flags : List Flag
flags = owner_of (101 ∷ []) ∷ []

abbrev pub argv : List (List ℕ)
argv = (101 ∷ []) ∷ (102 ∷ []) ∷ replicate 17 58 ∷ []

abbrev greeting : Raps.Raps
greeting = record {
  ring_id = 1;
  vid = 4093;
  version = 0;
  flags = 0;
  request = Raps.nr;
  subcode = 0;
  node_id = there;
}

-- The daemon of these arguments.
abbrev pub started : Daemon
started = record {
  ring = record owner {
    port0 = record { name = 101 ∷ []; idx = 0; is_blocked = true; is_failed = false };
    port1 = record { name = 102 ∷ []; idx = 0; is_blocked = false; is_failed = false };
    version = 0;
    raps_vid = 4093;
    node_id = there;
    wtr_timer_active = true;
    wtr_timer_active_since = 100;
    state = pending;
    prev_request = invalid;
    prev_request_port = none;
    prev_request_remote_node_id = zero_id;
    raps = greeting;
    raps_frame = frame_of greeting;
    guard_time = 0;
    wtr_time = 0;
    wtb_time = 0;
    active = false;
  };
  repeat = 1000;
}

pub start_run : main system flags argv ≡ some (done started)
unfolding main parse_flags check_arguments bad_arguments start ring_port_create find_rpl_port
    start_io ring_create blank_ring ring_fsm run_row on_repetition dupe group start_tx
    er_raps_encode stop_guard_timer stop_wtr_timer stop_wtb_timer block_port unblock_port
    start_wtr_timer
start_run = refl
