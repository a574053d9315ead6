-- ===== src/Sim/Network/Alarm.antt =====
-- A message SF at a node of extras/sim that is not occupied, and at one that has had it.
use mathlib.Core.Path.{subst}
use erps.Common.{
  ℕ, ◌<◌, true, false, some, ◌≡◌, ◌≢◌, inl, inr, refl, arith, is_eq, memcmp, memcmp_refl, ◌∙◌, ap,
  ◌==◌, Bool, sym,
}
use erps.Raps.{Raps, NodeId, bytes}
use erps.Raps
use erps.Raps.Frame.{frame_of}
use erps.Raps.Roundtrip.{IsMessage, received}
use erps.Ring.{
  State, protection, Request, rank, req_raps_sf, invalid, PortRef, ref0, ref1, Ring, port_of,
}
use erps.Ring.Fsm.{group, dupe, is_dupe, save_request, save_remote}
use erps.Ring.Receive.{request_of}
use erps.Ring.Priority.{retain}
use erps.Ring.Admission.{Admitted, ring_process_request-Admitted}
use erps.Ring.Rows.{some_blocked}
use erps.Ring.Total.{run_row, skip_row}
use erps.Ring.Transitions.{ring_fsm-target, target}
use erps.Ring.Yielding.{Free, at_rest, in_wait, Yields, ring_fsm-Yields}
use erps.Ring.Running.{IsRunning, IsSettled, IsSettled-relabel, ring_process_request-IsRunning}
use erps.Sim.Outcome.{done, lift}
use erps.Sim.Fsm.{ring_process_request}
use erps.Sim.Equal.{same_process_request}
use erps.Sim.Alive.{IsRunning-unguarded}
use erps.Sim.Node.{holds_back}
use erps.Sim.Network.{Hop}
use erps.Sim.Network.Line.{Takes, role_of, role_of-IsConfigured}
use erps.Sim.Network.Message.{Differ, unguarded, port_cb-Passes}

-- A running node that is free for a message SF: it is in IDLE or PENDING, the last message was no SF,
-- nothing more urgent has been asked of it, no guard timer holds the message back, and both ports are
-- in order.
pub record IsFree (now : ℕ) (source : NodeId) (r : Ring) : Type 0 where
  pub running : IsRunning r
  pub free : Free r.state
  pub news : r.prev_request ≢ req_raps_sf
  pub weaker : rank r.local_request < rank req_raps_sf
  pub listens : holds_back now r ≡ false
  pub other : Differ source r.node_id
  pub healthy0 : r.port0.is_failed ≡ false
  pub healthy1 : r.port1.is_failed ≡ false

-- What it is behind the message: in PROTECTION, with both ports open, silent, and mindful of the message.
pub record HasHeard (source : NodeId) (r : Ring) : Type 0 where
  pub running : IsRunning r
  pub protected : r.state ≡ protection
  pub open0 : r.port0.is_blocked ≡ false
  pub open1 : r.port1.is_blocked ≡ false
  pub silent : r.is_sending_raps ≡ false
  pub unguarded : r.guard_timer_active ≡ false
  pub request : r.prev_request ≡ req_raps_sf
  pub remote : r.prev_request_remote_node_id ≡ source
  pub unasked : r.local_request ≡ invalid
  pub other : Differ source r.node_id

not_last : (q : Request) → q ≢ req_raps_sf → (rank req_raps_sf == rank q) ≡ false
not_last req_raps_sf n = absurd (n refl)
not_last _ n = refl

sf_fresh :
    (p : PortRef) (source : NodeId) (r : Ring)
    → r.prev_request ≢ req_raps_sf
    → is_dupe req_raps_sf (some p) (some source) r ≡ some false
unfolding dupe group
sf_fresh p source r n = rw (not_last r.prev_request n) refl

sf_Admitted : (r : Ring) → rank r.local_request < rank req_raps_sf → Admitted req_raps_sf r
sf_Admitted r h = record {
  supported = λ e. (λ f. ground (arith, f), λ f. ground (arith, f));
  no_separation = λ e. ground (arith, e);
  clearable = λ e. ground (arith, e);
  severe = inl h;
}

-- Both states lead to PROTECTION.
led : {s : State} (b : Bool) → Free s → target s req_raps_sf b ≡ protection
led b at_rest = refl
led b in_wait = refl

-- The request SF of the message, at the ring behind the guard timer.
heard :
    (now : ℕ) (p : PortRef) (source : NodeId) (r : Ring)
    → IsFree now source r
    → (r' : Ring) × (ring_process_request now req_raps_sf (some p) (some source) (unguarded r)
        ≡ done r')
      × (role_of p r' ≡ role_of p r)
      × HasHeard source r'
heard now p source r h =
    let r0 : Ring = unguarded r in
    let h0 : IsRunning r0 = IsRunning-unguarded r h.running in
    let asked : Ring = record r0 { local_request = retain req_raps_sf } in
    let fresh : is_dupe req_raps_sf (some p) (some source) asked ≡ some false =
      sf_fresh p source asked h.news in
    let settled : IsSettled asked =
      IsSettled-relabel r0 (retain req_raps_sf) (unfold retain in inl refl) h0.settled in
    let (r', run, _, kept, memory) =
      run_row now req_raps_sf (some p) (some source) asked settled.sound tt fresh in
    let y : Yields asked r' = ring_fsm-Yields now (some p) (some source) h.free fresh run in
    let moved : r'.state ≡ protection =
      elim (ring_fsm-target now req_raps_sf (some p) (some source) run) [
        | inl (e, _) ↦ absurd (ground (arith, e, fresh))
        | inr (_, e) ↦ e ∙ led (some_blocked asked) h.free
      ] in
    elim (ring_process_request-Admitted now req_raps_sf (some p) (some source) r0) [
      | inl (refused, _) ↦ absurd (refused (sf_Admitted r0 h.weaker))
      | inr (_, granted) ↦
          let (r1, run1, running1) =
            ring_process_request-IsRunning now req_raps_sf (some p) (some source) r0 h0 tt
              (λ e. ground (arith, e)) in
          let same : r1 ≡ r' = cc in
          (
            r',
            same_process_request now req_raps_sf (some p) (some source) r0 (unfold group in refl)
                ∙ ap lift (granted ∙ run),
            role_of-IsConfigured p kept,
            record {
              running = subst IsRunning same running1;
              protected = moved;
              open0 = y.open0 h.healthy0;
              open1 = y.open1 h.healthy1;
              silent = y.silent;
              unguarded = y.guard;
              request = unfold save_request in memory.request;
              remote = unfold save_request save_remote in memory.remote;
              unasked = unfold save_request retain in memory.local;
              other = subst (Differ source) (sym kept.node_id) h.other;
            },
          )
    ]

-- The same request once more.
heard_again :
    (now : ℕ) (p : PortRef) (source : NodeId) (r : Ring)
    → HasHeard source r
    → (r' : Ring) × (ring_process_request now req_raps_sf (some p) (some source) (unguarded r)
        ≡ done r')
      × (role_of p r' ≡ role_of p r)
      × HasHeard source r'
heard_again now p source r h =
    let r0 : Ring = unguarded r in
    let h0 : IsRunning r0 = IsRunning-unguarded r h.running in
    let asked : Ring = record r0 { local_request = retain req_raps_sf } in
    let again : is_eq (memcmp (bytes source) (bytes r.prev_request_remote_node_id)) ≡ true =
      subst (λ n. is_eq (memcmp (bytes source) (bytes n)) ≡ true) (sym h.remote)
        (memcmp_refl (bytes source)) in
    let known : is_dupe req_raps_sf (some p) (some source) asked ≡ some true =
      unfold dupe group in rw (h.request, again) refl in
    elim (ring_process_request-Admitted now req_raps_sf (some p) (some source) r0) [
      | inl (refused, _) ↦ absurd (refused (sf_Admitted r0 (rw h.unasked (ground arith))))
      | inr (_, granted) ↦ (
        asked,
        same_process_request now req_raps_sf (some p) (some source) r0 (unfold group in refl)
            ∙ ap lift (granted ∙ skip_row now req_raps_sf (some p) (some source) asked known),
        refl,
        record {
          running = record {
            settled =
                IsSettled-relabel r0 (retain req_raps_sf) (unfold retain in inl refl) h0.settled;
            timed = h0.timed;
          };
          protected = h.protected;
          open0 = h.open0;
          open1 = h.open1;
          silent = h.silent;
          unguarded = refl;
          request = h.request;
          remote = h.remote;
          unasked = unfold retain in refl;
          other = h.other;
        },
      )
    ]

heard_open :
    (p : PortRef) (source : NodeId) (r : Ring)
    → HasHeard source r
    → (port_of r p).is_blocked ≡ false
heard_open ref0 source r h = h.open0
heard_open ref1 source r h = h.open1

sf_stands : (m : Raps) → m.request ≡ Raps.sf → request_of (received m) ≡ some req_raps_sf
unfolding request_of
sf_stands m e = rw e refl

module _ (now : ℕ) (m : Raps) (message : IsMessage m) (says : m.request ≡ Raps.sf) where
  -- A free node passes the message on, and has heard it.
  pub hears :
      (hop : Hop)
      → IsFree now m.node_id hop.daemon.ring
      → Takes now (frame_of m) (λ h. HasHeard m.node_id h.daemon.ring) hop
  hears hop h =
      let (r', run, role, h') = heard now hop.entry m.node_id hop.daemon.ring h in
      (
        record hop.daemon { ring = r' },
        port_cb-Passes now m hop req_raps_sf message h.other h.listens (sf_stands m says) run
            (heard_open hop.entry m.node_id r' h'),
        role,
        h',
      )

  -- So does one that has heard it.
  pub hears_again :
      (hop : Hop)
      → HasHeard m.node_id hop.daemon.ring
      → Takes now (frame_of m) (λ h. HasHeard m.node_id h.daemon.ring) hop
  hears_again hop h =
      let (r', run, role, h') = heard_again now hop.entry m.node_id hop.daemon.ring h in
      (
        record hop.daemon { ring = r' },
        port_cb-Passes now m hop req_raps_sf message h.other (rw h.unguarded refl)
            (sf_stands m says) run (heard_open hop.entry m.node_id r' h'),
        role,
        h',
      )
