-- ===== src/Node/Moves.antt =====
-- The state of the ring over one frame.
use mathlib.Core.Path.{subst}
use erps.Common.{
  ℕ, Bool, true, false, Option, none, some, List, ◌≡◌, ◌⊎◌, inl, inr, sym, arith, Bool-cases,
  Option-cases, ◌∙◌, ap,
}
use erps.Raps.{Raps, NodeId, er_raps_parse, er_is_raps_frame, er_is_local_raps_frame}
use erps.Ring.{State, Request, PortRef, Ring}
use erps.Ring.Rows.{some_blocked}
use erps.Ring.Priority.{ring_process_request}
use erps.Ring.Receive.{
  Clock, request_of, process_parsed, stored, guarded, process_raps_frame, lookup_raps,
  er_forward_lookup,
}
use erps.Ring.Transitions.{target, ring_fsm-target}
use erps.Ring.Admission.{ring_process_request-Admitted}

-- The frame holds a message that stands for the request.
abbrev pub Holds : List ℕ → ℕ → Request → Type 0
Holds buf len req =
    (raps : Raps) × (er_raps_parse buf len ≡ some (some raps)) × (request_of raps ≡ some req)

-- The state stays, or is the one that the module gives for the request of the frame.
abbrev pub Moves : List ℕ → ℕ → State → State → Type 0
Moves buf len s s' =
    (s' ≡ s)
    ⊎ ((req : Request) × (blocked : Bool) × Holds buf len req × (s' ≡ target s req blocked))

requested :
    (now : ℕ) (request : Request) (port : Option PortRef) (remote : Option NodeId) (r : Ring)
    {r' : Ring}
    → ring_process_request now request port remote r ≡ some r'
    → (r'.state ≡ r.state) ⊎ (r'.state ≡ target r.state request (some_blocked r))
requested now request port remote r {r'} h =
    elim (ring_process_request-Admitted now request port remote r) [
      | inl (_, e) ↦ inl (ground (arith, e, h))
      | inr (_, e) ↦ elim (ring_fsm-target now request port remote (sym e ∙ h)) [
        | inl (_, same) ↦ inl (ap (λ x. x.state) same)
        | inr (_, moved) ↦ inr moved
      ]
    ]

module _ (clock : Clock) (buf : List ℕ) (len : ℕ) where
  process_parsed-Moves :
      (origin : PortRef) (r : Ring) (raps : Raps) {r' : Ring}
      → er_raps_parse buf len ≡ some (some raps)
      → process_parsed clock (some raps) origin (record r { guard_timer_active = false }) ≡ some r'
      → Moves buf len r.state r'.state
  unfolding process_parsed
  process_parsed-Moves origin r raps f h = elim (Option-cases (request_of raps)) [
    | inl q ↦ inl (ground (arith, rw (q, process_parsed) at h))
    | inr (req, q) ↦
        elim (requested clock.ticks req (some origin) (some raps.node_id)
          (record r { guard_timer_active = false }) (rw (q, process_parsed) at h)) [
            | inl same ↦ inl same
            | inr moved ↦ inr (req, some_blocked r, (raps, f, q), moved)
          ]
  ]

  process_raps_frame-Moves :
      (origin : PortRef) (r : Ring) {r' : Ring}
      → process_raps_frame clock buf len origin r ≡ some r'
      → Moves buf len r.state r'.state
  unfolding process_raps_frame process_parsed stored
  process_raps_frame-Moves origin r {r'} h = elim (Bool-cases (guarded clock r)) [
    | inl e ↦ inl (ground (arith, rw (e, process_raps_frame) at h))
    | inr e ↦ elim (Option-cases (er_raps_parse buf len)) [
      | inl f ↦ absurd (ground (arith, rw (e, f, process_raps_frame) at h))
      | inr (none, f) ↦ inl (ground (arith, rw (e, f, process_raps_frame) at h))
      | inr (some raps, f) ↦ elim (Bool-cases clock.raps_allocated) [
        | inr n ↦ absurd (ground (arith, rw (e, f, n, process_raps_frame) at h))
        | inl m ↦ process_parsed-Moves origin r raps f (rw (e, f, m, process_raps_frame) at h)
      ]
    ]
  ]

  lookup_raps-Moves :
      (recv_port : Option PortRef) (r : Ring) {pass : Bool} {r' : Ring}
      → lookup_raps clock recv_port buf len r ≡ some (pass, r')
      → Moves buf len r.state r'.state
  unfolding lookup_raps
  lookup_raps-Moves none r h = inl (ground (arith, h))
  lookup_raps-Moves (some p) r {pass} {r'} h =
      elim (Option-cases (er_is_local_raps_frame r.node_id buf len)) [
        | inl e ↦ absurd (ground (arith, rw (e, lookup_raps) at h))
        | inr (true, e) ↦ inl (ground (arith, rw (e, lookup_raps) at h))
        | inr (false, e) ↦ elim (Option-cases (process_raps_frame clock buf len p r)) [
          | inl f ↦ absurd (ground (arith, rw (e, f, lookup_raps) at h))
          | inr (r1, f) ↦
              let same : r1 ≡ r' = ground (arith, rw (e, f, lookup_raps) at h) in
              subst (λ x. Moves buf len r.state x.state) same (process_raps_frame-Moves p r f)
        ]
      ]

  pub er_forward_lookup-Moves :
      (recv_port : Option PortRef) (r : Ring) {pass : Bool} {r' : Ring}
      → er_forward_lookup clock recv_port buf len r ≡ some (pass, r')
      → Moves buf len r.state r'.state
  unfolding er_forward_lookup
  er_forward_lookup-Moves recv_port r h = elim (Option-cases (er_is_raps_frame buf len)) [
    | inl e ↦ absurd (ground (arith, rw (e, er_forward_lookup) at h))
    | inr (true, e) ↦ lookup_raps-Moves recv_port r (rw (e, er_forward_lookup) at h)
    | inr (false, e) ↦ inl (ground (arith, rw (e, er_forward_lookup) at h))
  ]
