-- ===== src/Ring/Admission.antt =====
-- Which requests `ring_process_request` lets through, and what it keeps of them.
use erps.Common.{
  ℕ, ◌<◌, ltb, Bool, true, false, not, ◌&&◌, Option, some, ◌≡◌, ◌≢◌, ◌⊎◌, inl, inr, refl, arith,
  Bool-cases,
}
use erps.Raps.{NodeId}
use erps.Ring.{
  init, forced_switch, pending, Request, rank, raps_nr, req_ms, req_clear_sf, req_sf, req_fs,
  req_clear, PortRef, Ring,
}
use erps.Ring.Fsm.{ring_fsm}
use erps.Ring.Priority.{
  is_req, unsupported, separating, denied, clear_local_sf, local_sf_cleared, retain, compete,
  ring_process_request,
}

-- The rules of the protocol for letting a request through.
pub record Admitted (request : Request) (r : Ring) : Type 0 where
  pub supported : r.version ≡ 1 → (request ≢ req_fs) × (request ≢ req_ms)
  pub no_separation : request ≡ req_sf → r.state ≢ forced_switch
  pub clearable :
      request ≡ req_clear
      → (r.local_request ≡ req_ms)
        ⊎ (r.local_request ≡ req_fs)
        ⊎ (r.is_rpl_owner ≡ true) × ((r.state ≡ init) ⊎ (r.state ≡ pending))
  pub severe :
      (rank r.local_request < rank request) ⊎ (r.local_request ≡ req_sf) × (request ≡ req_clear_sf)

admits : Request → Ring → Bool
admits request r =
    not (unsupported request r)
    && (not (separating request r)
        && (not (is_req request req_clear && denied r)
            && ltb (rank (clear_local_sf request r).local_request) (rank request)))

admits-Admitted : (request : Request) (r : Ring) → admits request r ≡ true → Admitted request r
unfolding admits unsupported separating denied clear_local_sf
admits-Admitted raps_nr r h = ground arith
admits-Admitted _ r h = ground arith

Admitted-admits : (request : Request) (r : Ring) → Admitted request r → admits request r ≡ true
unfolding admits unsupported separating denied clear_local_sf
Admitted-admits raps_nr r h = ground (arith, h.supported, h.no_separation, h.clearable, h.severe)
Admitted-admits _ r h = ground (arith, h.supported, h.no_separation, h.clearable, h.severe)

compete-clear_local_sf :
    (now : ℕ) (request : Request) (port : Option PortRef) (remote : Option NodeId) (r : Ring)
    → ltb (rank (clear_local_sf request r).local_request) (rank request) ≡ true
    → compete now request port remote (clear_local_sf request r)
      ≡ ring_fsm now request port remote (record r { local_request = retain request })
unfolding compete clear_local_sf
compete-clear_local_sf now request port remote r h =
    elim (Bool-cases (local_sf_cleared request r)) [
      | inl e ↦ rw h (rw e refl)
      | inr e ↦ rw h (rw e refl)
    ]

rank_lem :
    (request : Request) (r : Ring)
    → local_sf_cleared request r ≡ true
    → ltb 0 (rank request) ≡ false
    → ⊥
rank_lem request r e h = ground arith

spent :
    (now : ℕ) (request : Request) (port : Option PortRef) (remote : Option NodeId) (r : Ring)
    → ltb (rank (clear_local_sf request r).local_request) (rank request) ≡ false
    → compete now request port remote (clear_local_sf request r) ≡ some r
unfolding compete clear_local_sf
spent now request port remote r h = elim (Bool-cases (local_sf_cleared request r)) [
  | inl e ↦ absurd (rank_lem request r e (rw e at h))
  | inr e ↦ rw h (rw e refl)
]

filtered :
    (now : ℕ) (request : Request) (port : Option PortRef) (remote : Option NodeId) (r : Ring)
    → (admits request r ≡ false) × (ring_process_request now request port remote r ≡ some r)
      ⊎ (admits request r ≡ true)
        × (ring_process_request now request port remote r
            ≡ ring_fsm now request port remote (record r { local_request = retain request }))
unfolding ring_process_request admits
filtered now request port remote r = elim (Bool-cases (unsupported request r)) [
  | inl e ↦ inl (rw e (refl, refl))
  | inr e ↦ elim (Bool-cases (separating request r)) [
    | inl f ↦ inl (rw (e, f) (refl, refl))
    | inr f ↦ elim (Bool-cases (is_req request req_clear && denied r)) [
      | inl g ↦ inl (rw (e, f, g) (refl, refl))
      | inr g ↦
          elim (Bool-cases (ltb (rank (clear_local_sf request r).local_request) (rank request))) [
            | inl h ↦ inr (
              rw (e, f, g, h) refl,
              rw (e, f, g) (compete-clear_local_sf now request port remote r h),
            )
            | inr h ↦ inl (rw (e, f, g, h) refl, rw (e, f, g) (spent now request port remote r h))
          ]
    ]
  ]
]

pub ring_process_request-Admitted :
    (now : ℕ) (request : Request) (port : Option PortRef) (remote : Option NodeId) (r : Ring)
    → (¬ Admitted request r) × (ring_process_request now request port remote r ≡ some r)
      ⊎ Admitted request r
        × (ring_process_request now request port remote r
            ≡ ring_fsm now request port remote (record r { local_request = retain request }))
ring_process_request-Admitted now request port remote r =
    elim (filtered now request port remote r) [
      | inl (refused, e) ↦
          inl (λ k. absurd (ground (arith, Admitted-admits request r k, refused)), e)
      | inr (granted, e) ↦ inr (admits-Admitted request r granted, e)
    ]
