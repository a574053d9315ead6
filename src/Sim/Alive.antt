-- ===== src/Sim/Alive.antt =====
-- Frames and timers at a running ring.
use erps.Common.{
  ℕ, ◌≤◌, ◌-◌, length, Bool, true, false, not, ◌&&◌, ◌==◌, if◌then◌else◌, Option, none, some, List,
  [], ◌≡◌, ◌≢◌, inl, inr, refl, arith, ap, ◌∙◌, Bool-cases, Option-cases, ltb,
}
use erps.Raps.{NodeId, Raps}
use erps.Port.{Port}
use erps.Raps.Safe.{er_raps_parse_total, er_is_raps_frame_total, er_is_local_raps_frame_total}
use erps.Ring.{Request, rank, raps_nr, wtr_expires, PortRef, Ring}
use erps.Ring.Fsm.{group}
use erps.Ring.Receive.{request_of}
use erps.Ring.RowsTotal.{IsCall}
use erps.Ring.Running.{
  IsRunning, IsSettled, ring_process_request-IsSettled, ring_process_request-IsRunning,
}
use erps.Sim.Outcome.{Outcome, done, lift}
use erps.Sim.Fsm.{ring_process_request}
use erps.Sim.Equal.{is_impossible, same_process_request}
use erps.Sim.Node.{ring_timer, wtr_due, holds_back, dispatch, ring_process_raps, ri_raps_parse}
use erps.Sim.Daemon.{
  Daemon, Sent, is_erps_frame, is_local_erps_frame, relay, port_cb, ring_timer_cb, send_raps_cb,
}

-- `o` is a running ring.
abbrev pub Runs : Outcome Ring → Type 0
Runs o = (r' : Ring) × (o ≡ done r') × IsRunning r'

pub requested :
    (now : ℕ) (request : Request) (port : Option PortRef) (remote : Option NodeId) (r : Ring)
    → IsRunning r
    → IsCall request port remote
    → request ≢ wtr_expires
    → is_impossible request r ≡ false
    → Runs (ring_process_request now request port remote r)
requested now request port remote r h c n m =
    let (r', run, h') = ring_process_request-IsRunning now request port remote r h c n in
    (r', same_process_request now request port remote r m ∙ ap lift run, h')

pub not_expired : (q : Request) → q ≢ wtr_expires → (rank wtr_expires == rank q) ≡ false
not_expired wtr_expires n = absurd (n refl)
not_expired _ n = refl

-- Neither the ports, nor two of the timers, nor the rest of a burst belong to what a settled ring is.
pub IsSettled-touched :
    (r : Ring) (p0 p1 : Port) (g w : Bool) (k : ℕ)
    → IsSettled r
    → IsSettled (record r {
      port0 = p0;
      port1 = p1;
      guard_timer_active = g;
      wtr_timer_active = w;
      raps_bursts_remain = k;
    })
IsSettled-touched r p0 p1 g w k h = record {
  sound = record {
    has_rpl = h.sound.has_rpl;
    frame = record {
      buffer = h.sound.frame.buffer;
      buffer_len = h.sound.frame.buffer_len;
      in_sync = h.sound.frame.in_sync;
    };
  };
  left_init = h.left_init;
  local = h.local;
}

pub IsRunning-unguarded :
    (r : Ring) → IsRunning r → IsRunning (record r { guard_timer_active = false })
IsRunning-unguarded r h = record {
  settled =
      IsSettled-touched r r.port0 r.port1 false r.wtr_timer_active r.raps_bursts_remain h.settled;
  timed = h.timed;
}

pub ring_timer_due :
    (now : ℕ) (r : Ring) {r' : Ring}
    → (r.wtr_timer_active && wtr_due now r) ≡ true
    → ring_process_request now wtr_expires none none r ≡ done r'
    → ring_timer now r ≡ done (record r' { wtr_timer_active = false })
unfolding ring_timer
ring_timer_due now r e run = rw (run, ring_timer, e) refl

-- The end of the WTR timer switches the timer off whatever the ring makes of it.
pub ring_timer-Runs : (now : ℕ) (r : Ring) → IsRunning r → Runs (ring_timer now r)
unfolding ring_timer group
ring_timer-Runs now r h = elim (Bool-cases (r.wtr_timer_active && wtr_due now r)) [
  | inr e ↦ (r, rw (e, ring_timer) refl, h)
  | inl e ↦
      let on : r.wtr_timer_active ≡ true = ground arith in
      let possible : is_impossible wtr_expires r ≡ false =
        not_expired r.prev_request (h.timed on) in
      let (r', run, h', _) =
        ring_process_request-IsSettled now wtr_expires none none r h.settled tt in
      let run' = same_process_request now wtr_expires none none r possible ∙ ap lift run in
      (
        record r' { wtr_timer_active = false },
        ring_timer_due now r e run',
        record {
          settled =
              IsSettled-touched r' r'.port0 r'.port1 r'.guard_timer_active false
                r'.raps_bursts_remain h';
          timed = λ off. cc;
        },
      )
]

-- The requests of messages are told apart from the timers and from CLEAR.
message_lem :
    (request : Request) (raps : Raps) (p : PortRef) (r : Ring)
    → request_of raps ≡ some request
    → IsCall request (some p) (some raps.node_id)
      × (request ≢ wtr_expires)
      × (is_impossible request r ≡ false)
unfolding request_of group
message_lem raps_nr raps p r e = ground arith
message_lem _ raps p r e = ground arith

pub dispatch-Runs :
    (now : ℕ) (o : Option Raps) (p : PortRef) (r : Ring) → IsRunning r → Runs (dispatch now o p r)
unfolding dispatch
dispatch-Runs now none p r h = (r, refl, h)
dispatch-Runs now (some raps) p r h = elim (Option-cases (request_of raps)) [
  | inl e ↦ (r, rw (e, dispatch) refl, h)
  | inr (request, e) ↦
      let (c, n, m) = message_lem request raps p r e in
      rw (e, dispatch) (requested now request (some p) (some raps.node_id) r h c n m)
]

module _ (now : ℕ) (buf : List ℕ) (len : ℕ) (fits : len ≤ length buf) where
  pub ring_process_raps-Runs :
      (p : PortRef) (r : Ring) → IsRunning r → Runs (ring_process_raps now true buf len p r)
  unfolding ring_process_raps ri_raps_parse
  ring_process_raps-Runs p r h = elim (Bool-cases (holds_back now r)) [
    | inl e ↦ (r, rw (e, ring_process_raps) refl, h)
    | inr e ↦
        let (o, parsed) = er_raps_parse_total buf len fits in
        rw (e, parsed) (dispatch-Runs now o p _ (IsRunning-unguarded r h))
  ]

  -- A daemon that is running goes on running.
  pub port_cb_runs :
      (p : PortRef) (d : Daemon)
      → IsRunning d.ring
      → (d' : Daemon) × (sent : Sent) × (port_cb now true p (some (buf, len)) d ≡ done (d', sent))
        × IsRunning d'.ring
  unfolding port_cb is_erps_frame is_local_erps_frame
  port_cb_runs p d h =
      let (is_raps, e) = er_is_raps_frame_total buf len fits in
      elim (Bool-cases is_raps) [
        | inr f ↦ (d, [], rw (e, f) refl, h)
        | inl f ↦
            let (own, g) = er_is_local_raps_frame_total buf d.ring.node_id len fits in
            elim (Bool-cases own) [
              | inl o ↦ (d, [], rw (e, f, g, o) refl, h)
              | inr o ↦
                  let (r', run, h') = ring_process_raps-Runs p d.ring h in
                  (record d { ring = r' }, relay p buf len r', rw (e, f, g, o, run) refl, h')
            ]
      ]

pub ring_timer_cb_runs :
    (now : ℕ) (d : Daemon)
    → IsRunning d.ring
    → (d' : Daemon) × (sent : Sent) × (ring_timer_cb now d ≡ done (d', sent)) × IsRunning d'.ring
unfolding ring_timer_cb
ring_timer_cb_runs now d h =
    let (r', run, h') = ring_timer-Runs now d.ring h in
    (record d { ring = r' }, [], rw run refl, h')

choice :
    (P : Daemon × Sent → Type 0) (b c : Bool) (x y z : Daemon × Sent)
    → P x
    → P y
    → P z
    → P (if not b then x else if c then y else z)
choice P false c x y z hx hy hz = hx
choice P true true x y z hx hy hz = hy
choice P true false x y z hx hy hz = hz

pub send_raps_cb-IsRunning : (d : Daemon) → IsRunning d.ring → IsRunning (send_raps_cb d).0.ring
unfolding send_raps_cb
send_raps_cb-IsRunning d h =
    choice (λ x. IsRunning x.0.ring) d.ring.is_sending_raps (ltb 0 d.ring.raps_bursts_remain) _ _ _
      h
      (record {
        settled =
            IsSettled-touched d.ring d.ring.port0 d.ring.port1 d.ring.guard_timer_active
              d.ring.wtr_timer_active (d.ring.raps_bursts_remain - 1) h.settled;
        timed = h.timed;
      })
      h
