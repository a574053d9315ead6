-- ===== src/Sim/Network/Resting.antt =====
-- The message NR, RB of the owner at a node of extras/sim in PENDING.
use mathlib.Core.Path.{subst}
use erps.Common.{
  ℕ, true, false, some, ◌≡◌, ◌≢◌, ◌⊎◌, inl, inr, refl, arith, ◌∙◌, ap, sym, ◌==◌, Bool-cases,
}
use erps.Raps.{Raps, NodeId}
use erps.Raps
use erps.Raps.Frame.{frame_of}
use erps.Raps.Roundtrip.{IsMessage, received}
use erps.Ring.{
  idle, pending, Request, rank, raps_nr_rb, invalid, PortRef, ref0, ref1, Ring, port_of,
}
use erps.Ring.Created.{BlocksOne}
use erps.Ring.Fsm.{group, dupe, is_dupe, save_request, save_remote}
use erps.Ring.Receive.{request_of}
use erps.Ring.Priority.{retain}
use erps.Ring.Admission.{Admitted, ring_process_request-Admitted}
use erps.Ring.Rows.{some_blocked}
use erps.Ring.Total.{run_row}
use erps.Ring.Transitions.{ring_fsm-target, target}
use erps.Ring.Resting.{Rests, ring_fsm-Rests}
use erps.Ring.Running.{IsRunning, IsSettled, IsSettled-relabel, ring_process_request-IsRunning}
use erps.Sim.Outcome.{done, lift}
use erps.Sim.Fsm.{ring_process_request}
use erps.Sim.Equal.{same_process_request}
use erps.Sim.Alive.{IsRunning-unguarded}
use erps.Sim.Node.{holds_back}
use erps.Sim.Network.{opposite, Hop}
use erps.Sim.Network.Line.{Takes, role_of, role_of-IsConfigured}
use erps.Sim.Network.Message.{Differ, unguarded, port_cb-Passes}

-- A running node in PENDING that is not the owner and waits for its message: nothing has been asked of
-- it, the last message was no NR, RB, and no guard timer holds the message back. If it is the
-- neighbour of the RPL, the message does not come over the RPL.
pub record IsPatient (now : ℕ) (source : NodeId) (p : PortRef) (r : Ring) : Type 0 where
  pub running : IsRunning r
  pub in_pending : r.state ≡ pending
  pub plain : r.is_rpl_owner ≡ false
  pub news : r.prev_request ≢ raps_nr_rb
  pub unasked : r.local_request ≡ invalid
  pub listens : holds_back now r ≡ false
  pub other : Differ source r.node_id
  pub away : r.is_rpl_neighbour ≡ true → r.rpl_port ≡ some (opposite p)

-- What it is behind the message, which came in on port `p`: in IDLE and silent, mindful of the message, with both
-- ports open or, at the neighbour of the RPL, with only the RPL blocked, which is the other port.
pub record HasRested (source : NodeId) (p : PortRef) (r : Ring) : Type 0 where
  pub running : IsRunning r
  pub in_idle : r.state ≡ idle
  pub silent : r.is_sending_raps ≡ false
  pub unguarded : r.guard_timer_active ≡ false
  pub request : r.prev_request ≡ raps_nr_rb
  pub remote : r.prev_request_remote_node_id ≡ source
  pub unasked : r.local_request ≡ invalid
  pub other : Differ source r.node_id
  pub ports :
      (r.is_rpl_neighbour ≡ false) × (r.port0.is_blocked ≡ false) × (r.port1.is_blocked ≡ false)
      ⊎ (r.is_rpl_neighbour ≡ true) × (r.rpl_port ≡ some (opposite p)) × BlocksOne r (opposite p)

not_last : (q : Request) → q ≢ raps_nr_rb → (rank raps_nr_rb == rank q) ≡ false
not_last raps_nr_rb n = absurd (n refl)
not_last _ n = refl

nr_rb_fresh :
    (p : PortRef) (source : NodeId) (r : Ring)
    → r.prev_request ≢ raps_nr_rb
    → is_dupe raps_nr_rb (some p) (some source) r ≡ some false
unfolding dupe group
nr_rb_fresh p source r n = rw (not_last r.prev_request n) refl

pub nr_rb_Admitted : (r : Ring) → r.local_request ≡ invalid → Admitted raps_nr_rb r
nr_rb_Admitted r h = record {
  supported = λ e. (λ f. ground (arith, f), λ f. ground (arith, f));
  no_separation = λ e. ground (arith, e);
  clearable = λ e. ground (arith, e);
  severe = inl (ground (arith, h));
}

-- The request NR_RB of the message, at the ring behind the guard timer.
rested :
    (now : ℕ) (p : PortRef) (source : NodeId) (r : Ring)
    → IsPatient now source p r
    → (r' : Ring) × (ring_process_request now raps_nr_rb (some p) (some source) (unguarded r)
        ≡ done r')
      × (role_of p r' ≡ role_of p r)
      × HasRested source p r'
rested now p source r h =
    let r0 : Ring = unguarded r in
    let h0 : IsRunning r0 = IsRunning-unguarded r h.running in
    let asked : Ring = record r0 { local_request = retain raps_nr_rb } in
    let fresh : is_dupe raps_nr_rb (some p) (some source) asked ≡ some false =
      nr_rb_fresh p source asked h.news in
    let settled : IsSettled asked =
      IsSettled-relabel r0 (retain raps_nr_rb) (unfold retain in inl refl) h0.settled in
    let (r', run, _, kept, memory) =
      run_row now raps_nr_rb (some p) (some source) asked settled.sound tt fresh in
    let y : Rests asked r' =
      ring_fsm-Rests now (some p) (some source) h.in_pending h.plain fresh run in
    let moved : r'.state ≡ idle = elim (ring_fsm-target now raps_nr_rb (some p) (some source) run) [
      | inl (e, _) ↦ absurd (ground (arith, e, fresh))
      | inr (_, e) ↦ e ∙ ap (λ s. target s raps_nr_rb (some_blocked asked)) h.in_pending
    ] in
    elim (ring_process_request-Admitted now raps_nr_rb (some p) (some source) r0) [
      | inl (refused, _) ↦ absurd (refused (nr_rb_Admitted r0 h.unasked))
      | inr (_, granted) ↦
          let (r1, run1, running1) =
            ring_process_request-IsRunning now raps_nr_rb (some p) (some source) r0 h0 tt
              (λ e. ground (arith, e)) in
          let same : r1 ≡ r' = cc in
          (
            r',
            same_process_request now raps_nr_rb (some p) (some source) r0 (unfold group in refl)
                ∙ ap lift (granted ∙ run),
            role_of-IsConfigured p kept,
            record {
              running = subst IsRunning same running1;
              in_idle = moved;
              silent = y.silent;
              unguarded = y.guard;
              request = unfold save_request in memory.request;
              remote = unfold save_request save_remote in memory.remote;
              unasked = unfold save_request retain in memory.local;
              other = subst (Differ source) (sym kept.node_id) h.other;
              ports = elim (Bool-cases r.is_rpl_neighbour) [
                | inr e ↦ inl (kept.neighbour ∙ e, y.open0 e, y.open1 e)
                | inl e ↦
                    inr
                      (kept.neighbour ∙ e, kept.rpl ∙ h.away e, y.blocks (opposite p) e (h.away e))
              ];
            },
          )
    ]

rested_open :
    (source : NodeId) (p : PortRef) (r : Ring)
    → HasRested source p r
    → (port_of r p).is_blocked ≡ false
rested_open source ref0 r h = elim h.ports [ inl (_, a, b) ↦ a | inr (_, _, (a, b)) ↦ b ]
rested_open source ref1 r h = elim h.ports [ inl (_, a, b) ↦ b | inr (_, _, (a, b)) ↦ b ]

pub nr_rb_stands :
    (m : Raps)
    → m.request ≡ Raps.nr
    → (m.flags ≡ 0x80) ⊎ (m.flags ≡ 0xc0)
    → request_of (received m) ≡ some raps_nr_rb
unfolding request_of
nr_rb_stands m e (inl f) = rw (e, f) refl
nr_rb_stands m e (inr f) = rw (e, f) refl

-- A patient node passes the message on, and rests.
pub rests :
    (now : ℕ) (m : Raps)
    → IsMessage m
    → m.request ≡ Raps.nr
    → (m.flags ≡ 0x80) ⊎ (m.flags ≡ 0xc0)
    → (hop : Hop) → IsPatient now m.node_id hop.entry hop.daemon.ring
    → Takes now (frame_of m) (λ h. HasRested m.node_id h.entry h.daemon.ring) hop
rests now m message says flags hop h =
    let (r', run, role, h') = rested now hop.entry m.node_id hop.daemon.ring h in
    (
      record hop.daemon { ring = r' },
      port_cb-Passes now m hop raps_nr_rb message h.other h.listens (nr_rb_stands m says flags) run
          (rested_open m.node_id hop.entry r' h'),
      role,
      h',
    )
