-- ===== src/Sim/Network/Noting.antt =====
-- The message NR behind a failure, at a node of extras/sim that has heard of the failure.
use mathlib.Core.Path.{subst}
use erps.Common.{
  ℕ, true, false, some, ◌≡◌, inl, inr, refl, arith, ◌∙◌, ap, sym, is_eq, memcmp, memcmp_refl,
}
use erps.Raps.{Raps, NodeId, bytes}
use erps.Raps
use erps.Raps.Frame.{frame_of}
use erps.Raps.Roundtrip.{IsMessage, received}
use erps.Ring.{pending, raps_nr, invalid, PortRef, ref0, ref1, Ring, port_of}
use erps.Ring.Fsm.{group, dupe, is_dupe, save_request, save_remote}
use erps.Ring.Receive.{request_of}
use erps.Ring.Priority.{retain}
use erps.Ring.Admission.{Admitted, ring_process_request-Admitted}
use erps.Ring.Rows.{some_blocked, reverts}
use erps.Ring.Steady.{IsConfigured}
use erps.Ring.Total.{run_row, skip_row}
use erps.Ring.Transitions.{ring_fsm-target, target}
use erps.Ring.Recovery.{Notes, ring_fsm-Notes}
use erps.Ring.Running.{IsRunning, IsSettled, IsSettled-relabel, ring_process_request-IsRunning}
use erps.Sim.Outcome.{done, lift}
use erps.Sim.Fsm.{ring_process_request}
use erps.Sim.Equal.{same_process_request}
use erps.Sim.Alive.{IsRunning-unguarded}
use erps.Sim.Reversion.{IsWaiting}
use erps.Sim.Network.{opposite, Hop}
use erps.Sim.Network.Line.{Takes, role_of, role_of-IsConfigured}
use erps.Sim.Network.Message.{Differ, unguarded, port_cb-Passes}
use erps.Sim.Network.Alarm.{HasHeard}
use erps.Sim.Network.Resting.{IsPatient}

-- What the node is behind the message: in PENDING, with both ports open, and silent; a revertive owner
-- has started its WTR timer.
pub record HasNoted (now : ℕ) (source : NodeId) (r : Ring) : Type 0 where
  pub running : IsRunning r
  pub in_pending : r.state ≡ pending
  pub open0 : r.port0.is_blocked ≡ false
  pub open1 : r.port1.is_blocked ≡ false
  pub silent : r.is_sending_raps ≡ false
  pub unguarded : r.guard_timer_active ≡ false
  pub request : r.prev_request ≡ raps_nr
  pub remote : r.prev_request_remote_node_id ≡ source
  pub unasked : r.local_request ≡ invalid
  pub other : Differ source r.node_id
  pub ticking : reverts r ≡ true → r.wtr_timer_active ≡ true
  pub since : reverts r ≡ true → r.wtr_timer_active_since ≡ now

nr_Admitted : (r : Ring) → r.local_request ≡ invalid → Admitted raps_nr r
nr_Admitted r h = record {
  supported = λ e. (λ f. ground (arith, f), λ f. ground (arith, f));
  no_separation = λ e. ground (arith, e);
  clearable = λ e. ground (arith, e);
  severe = inl (ground (arith, h));
}

same_reverts : {r r' : Ring} → IsConfigured r r' → reverts r' ≡ true → reverts r ≡ true
same_reverts {r} {r'} k e = ground (arith, k.owner, k.revertive, e)

-- The request NR of the message, at the ring behind the guard timer.
noted :
    (now : ℕ) (p : PortRef) (source : NodeId) (r : Ring)
    → HasHeard source r
    → (r' : Ring) × (ring_process_request now raps_nr (some p) (some source) (unguarded r)
        ≡ done r')
      × (role_of p r' ≡ role_of p r)
      × HasNoted now source r'
noted now p source r h =
    let r0 : Ring = unguarded r in
    let h0 : IsRunning r0 = IsRunning-unguarded r h.running in
    let asked : Ring = record r0 { local_request = retain raps_nr } in
    let fresh : is_dupe raps_nr (some p) (some source) asked ≡ some false =
      unfold dupe group in rw h.request refl in
    let settled : IsSettled asked =
      IsSettled-relabel r0 (retain raps_nr) (unfold retain in inl refl) h0.settled in
    let (r', run, _, kept, memory) =
      run_row now raps_nr (some p) (some source) asked settled.sound tt fresh in
    let y : Notes now asked r' =
      ring_fsm-Notes now (some p) (some source) asked h.protected fresh run in
    let moved : r'.state ≡ pending = elim (ring_fsm-target now raps_nr (some p) (some source) run) [
      | inl (e, _) ↦ absurd (ground (arith, e, fresh))
      | inr (_, e) ↦ e ∙ ap (λ s. target s raps_nr (some_blocked asked)) h.protected
    ] in
    elim (ring_process_request-Admitted now raps_nr (some p) (some source) r0) [
      | inl (refused, _) ↦ absurd (refused (nr_Admitted r0 h.unasked))
      | inr (_, granted) ↦
          let (r1, run1, running1) =
            ring_process_request-IsRunning now raps_nr (some p) (some source) r0 h0 tt
              (λ e. ground (arith, e)) in
          let same : r1 ≡ r' = cc in
          (
            r',
            same_process_request now raps_nr (some p) (some source) r0 (unfold group in refl)
                ∙ ap lift (granted ∙ run),
            role_of-IsConfigured p kept,
            record {
              running = subst IsRunning same running1;
              in_pending = moved;
              open0 = ap (λ x. x.is_blocked) y.port0 ∙ h.open0;
              open1 = ap (λ x. x.is_blocked) y.port1 ∙ h.open1;
              silent = y.sending ∙ h.silent;
              unguarded = y.guard;
              request = unfold save_request in memory.request;
              remote = unfold save_request save_remote in memory.remote;
              unasked = unfold save_request retain in memory.local;
              other = subst (Differ source) (sym kept.node_id) h.other;
              ticking = λ e. y.ticking (same_reverts kept e);
              since = λ e. y.since (same_reverts kept e);
            },
          )
    ]

-- The same request once more, which changes nothing but the guard timer and the local request, both unset before.
noted_again :
    (later now : ℕ) (p : PortRef) (source : NodeId) (r : Ring)
    → HasNoted now source r
    → (r' : Ring) × (ring_process_request later raps_nr (some p) (some source) (unguarded r)
        ≡ done r')
      × (role_of p r' ≡ role_of p r)
      × HasNoted now source r'
noted_again later now p source r h =
    let r0 : Ring = unguarded r in
    let h0 : IsRunning r0 = IsRunning-unguarded r h.running in
    let asked : Ring = record r0 { local_request = retain raps_nr } in
    let again : is_eq (memcmp (bytes source) (bytes r.prev_request_remote_node_id)) ≡ true =
      subst (λ n. is_eq (memcmp (bytes source) (bytes n)) ≡ true) (sym h.remote)
        (memcmp_refl (bytes source)) in
    let known : is_dupe raps_nr (some p) (some source) asked ≡ some true =
      unfold dupe group in rw (h.request, again) refl in
    elim (ring_process_request-Admitted later raps_nr (some p) (some source) r0) [
      | inl (refused, _) ↦ absurd (refused (nr_Admitted r0 h.unasked))
      | inr (_, granted) ↦ (
        asked,
        same_process_request later raps_nr (some p) (some source) r0 (unfold group in refl)
            ∙ ap lift (granted ∙ skip_row later raps_nr (some p) (some source) asked known),
        refl,
        record {
          running = record {
            settled = IsSettled-relabel r0 (retain raps_nr) (unfold retain in inl refl) h0.settled;
            timed = h0.timed;
          };
          in_pending = h.in_pending;
          open0 = h.open0;
          open1 = h.open1;
          silent = h.silent;
          unguarded = refl;
          request = h.request;
          remote = h.remote;
          unasked = unfold retain in refl;
          other = h.other;
          ticking = h.ticking;
          since = h.since;
        },
      )
    ]

noted_open :
    (now : ℕ) (p : PortRef) (source : NodeId) (r : Ring)
    → HasNoted now source r
    → (port_of r p).is_blocked ≡ false
noted_open now ref0 source r h = h.open0
noted_open now ref1 source r h = h.open1

nr_stands : (m : Raps) → m.request ≡ Raps.nr → m.flags ≡ 0 → request_of (received m) ≡ some raps_nr
unfolding request_of
nr_stands m e f = rw (e, f) refl

module _ (m : Raps) (message : IsMessage m) (says : m.request ≡ Raps.nr) (plain : m.flags ≡ 0) where
  -- A node that has heard of the failure passes the message on, and has noted its end.
  pub notes :
      (now : ℕ) (hop : Hop)
      → HasHeard m.node_id hop.daemon.ring
      → Takes now (frame_of m) (λ h. HasNoted now m.node_id h.daemon.ring) hop
  notes now hop h =
      let (r', run, role, h') = noted now hop.entry m.node_id hop.daemon.ring h in
      (
        record hop.daemon { ring = r' },
        port_cb-Passes now m hop raps_nr message h.other (rw h.unguarded refl)
            (nr_stands m says plain) run (noted_open now hop.entry m.node_id r' h'),
        role,
        h',
      )

  -- So does one that has noted it.
  pub notes_again :
      (later now : ℕ) (hop : Hop)
      → HasNoted now m.node_id hop.daemon.ring
      → Takes later (frame_of m) (λ h. HasNoted now m.node_id h.daemon.ring) hop
  notes_again later now hop h =
      let (r', run, role, h') = noted_again later now hop.entry m.node_id hop.daemon.ring h in
      (
        record hop.daemon { ring = r' },
        port_cb-Passes later m hop raps_nr message h.other (rw h.unguarded refl)
            (nr_stands m says plain) run (noted_open now hop.entry m.node_id r' h'),
        role,
        h',
      )

-- The revertive owner is then one that waits for its WTR timer.
pub noted-IsWaiting :
    (now : ℕ) (source : NodeId) (p : PortRef) (r : Ring)
    → HasNoted now source r
    → r.is_rpl_owner ≡ true
    → r.is_revertive ≡ true
    → r.rpl_port ≡ some p
    → IsWaiting p r
noted-IsWaiting now source p r h owner revertive rpl = record {
  running = h.running;
  in_pending = h.in_pending;
  owner = owner;
  rpl = rpl;
  ticking = h.ticking (ground (arith, owner, revertive));
  unasked = h.unasked;
}

-- The other nodes wait for the message of the owner.
pub noted-IsPatient :
    (now later : ℕ) (source owner : NodeId) (p : PortRef) (r : Ring)
    → HasNoted now source r
    → r.is_rpl_owner ≡ false
    → Differ owner r.node_id
    → (r.is_rpl_neighbour ≡ true → r.rpl_port ≡ some (opposite p))
    → IsPatient later owner p r
noted-IsPatient now later source owner p r h plain other away = record {
  running = h.running;
  in_pending = h.in_pending;
  plain = plain;
  news = λ e. let f = h.request in ground (arith, e, f);
  unasked = h.unasked;
  listens = rw h.unguarded refl;
  other = other;
  away = away;
}
