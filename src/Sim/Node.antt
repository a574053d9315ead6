-- ===== src/Sim/Node.antt =====
-- A node of the simulator: ring_raps.c, tick.c, and the rest of ring.c (extras/sim). `now` is what
-- `tick_now` returns during a call, in milliseconds.
use erps.Common.{
  ℕ, ◌+◌, ◌-◌, ◌*◌, ◌%◌, ◌^◌, Bool, true, false, not, ◌&&◌, Option, none, some, List, [], ◌∷◌, ltb,
  leb, if◌then◌else◌, take,
}
use erps.Raps.{NodeId, zero_id, Raps, er_raps_create, er_raps_get_len, er_raps_parse}
use erps.Port.{Port}
use erps.Ring.{init, invalid, wtr_expires, PortRef, ref0, ref1, Ring}
use erps.Ring.Receive.{request_of}
use erps.Sim.Outcome.{Outcome, done, died, ◌>>=◌, lift}
use erps.Sim.Fsm.{ring_fsm, ring_process_request}

unfoldable pub ri_raps_create : Raps
unfolding er_raps_create
ri_raps_create = er_raps_create

unfoldable pub ri_raps_get_len : Raps → ℕ
unfolding er_raps_get_len
ri_raps_get_len = er_raps_get_len

unfoldable pub ri_raps_parse : List ℕ → ℕ → Option (Option Raps)
ri_raps_parse = er_raps_parse

-- On `tick_t`, which has 64 bits.
unfoldable pub tick_diff_msec : ℕ → ℕ → ℕ
tick_diff_msec t1 t2 = (t1 + 2 ^ 64 - t2) % 2 ^ 64

-- In seconds.
abbrev pub wtr_timer : ℕ
wtr_timer = 15

-- The ring in front of the call of `ring_fsm`; `malloc` leaves `garbage` in the frame.
unfoldable pub blank_ring : List ℕ → Port → Port → Option PortRef → Bool → Bool → NodeId → Ring
unfolding ri_raps_create ri_raps_get_len
blank_ring garbage port0 port1 rpl_port is_rpl_owner is_rpl_neighbour node_id =
    let raps = record ri_raps_create {
      vid = 4093;
      ring_id = 1;
      node_id = node_id;
      subcode = 0;
      flags = 0xff;
    } in
    record {
      port0 = port0;
      port1 = port1;
      is_rpl_owner = is_rpl_owner;
      is_rpl_neighbour = is_rpl_neighbour;
      is_revertive = true;
      rpl_port = rpl_port;
      version = 0;
      id = 1;
      raps_vid = 4093;
      node_id = node_id;
      guard_timer_active = false;
      guard_timer_active_since = 0;
      wtr_timer_active = false;
      wtr_timer_active_since = 0;
      wtb_timer_active = false;
      wtb_timer_active_since = 0;
      local_request = invalid;
      state = init;
      prev_request = invalid;
      prev_request_port = none;
      prev_request_remote_node_id = zero_id;
      is_sending_raps = false;
      raps = raps;
      raps_frame = garbage;
      raps_frame_len = ri_raps_get_len raps;
      raps_bursts_remain = 0;
      guard_time = 0;
      wtr_time = 0;
      wtb_time = 0;
      active = false;
    }

unfoldable pub ring_create :
    ℕ → Bool → List ℕ → Port → Port → Option PortRef → Bool → Bool → NodeId → Outcome Ring
ring_create now allocated garbage port0 port1 rpl_port is_rpl_owner is_rpl_neighbour node_id =
    if allocated
    then ring_fsm now invalid none none
        (blank_ring garbage port0 port1 rpl_port is_rpl_owner is_rpl_neighbour node_id)
    else died

-- The frames that go out, in their order.
unfoldable pub ring_send_raps : Ring → List (PortRef × List ℕ)
ring_send_raps r =
    (ref0, take r.raps_frame_len r.raps_frame) ∷ (ref1, take r.raps_frame_len r.raps_frame) ∷ []

abbrev pub wtr_due : ℕ → Ring → Bool
wtr_due now r = leb (wtr_timer * 1000) (tick_diff_msec now r.wtr_timer_active_since)

unfoldable pub ring_timer : ℕ → Ring → Outcome Ring
unfolding tick_diff_msec
ring_timer now r =
    if r.wtr_timer_active && wtr_due now r
    then ring_process_request now wtr_expires none none r
      >>= (λ r'. done (record r' { wtr_timer_active = false }))
    else done r

-- Whether the guard timer holds the message back.
abbrev pub holds_back : ℕ → Ring → Bool
holds_back now r = r.guard_timer_active && ltb (tick_diff_msec now r.guard_timer_active_since) 500

-- The `switch` on the request of the message.
unfoldable pub dispatch : ℕ → Option Raps → PortRef → Ring → Outcome Ring
unfolding request_of
dispatch now none origin r = done r
dispatch now (some raps) origin r = elim (request_of raps) [
  | none ↦ done r
  | some request ↦ ring_process_request now request (some origin) (some raps.node_id) r
]

-- `allocated` says whether `ri_raps_create` is given its memory.
unfoldable pub ring_process_raps : ℕ → Bool → List ℕ → ℕ → PortRef → Ring → Outcome Ring
unfolding tick_diff_msec ri_raps_parse dispatch
ring_process_raps now allocated buf len origin r =
    if holds_back now r
    then done r
    else if not allocated
    then died
    else (lift (ri_raps_parse buf len)
        >>= (λ raps. dispatch now raps origin (record r { guard_timer_active = false })))
