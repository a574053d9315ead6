-- ===== src/Sim/Reversion.antt =====
-- The WTR timer of the owner, over the calls of the timer callback of extras/sim/ringd.c.
use mathlib.Core.Path.{subst}
use erps.Common.{
  ℕ, zero, suc, ◌+◌, ◌*◌, ◌≤◌, ◌<◌, ◌^◌, true, false, none, some, List, [], ◌∷◌, ◌≡◌, ◌⊎◌, inl, inr,
  refl, ap, ◌∙◌, arith, Bool-cases,
}
use erps.Raps
use erps.Raps.{code}
use erps.Ring.{idle, pending, invalid, Request, wtr_expires, PortRef, ref0, ref1, Ring}
use erps.Ring.Fsm.{group, dupe, is_dupe}
use erps.Ring.Priority.{retain}
use erps.Ring.Admission.{Admitted, ring_process_request-Admitted}
use erps.Ring.Steady.{IsConfigured}
use erps.Ring.Total.{ring_fsm-total}
use erps.Ring.Created.{BlocksOne}
use erps.Ring.Running.{IsRunning, IsSettled, ring_fsm-IsSettled, IsSettled-relabel}
use erps.Ring.Reversion.{Reverts, wtr_over, ring_fsm-Reverts}
use erps.Sim.Outcome.{Outcome, done, ◌>>=◌, lift}
use erps.Sim.Equal.{is_impossible, same_process_request}
use erps.Sim.Node.{ring_timer, wtr_due, tick_diff_msec}
use erps.Sim.Alive.{not_expired, ring_timer_due, IsSettled-touched}

-- The owner of the RPL at `p` waits for its WTR timer, and nothing has been asked of it locally.
pub record IsWaiting (p : PortRef) (r : Ring) : Type 0 where
  pub running : IsRunning r
  pub in_pending : r.state ≡ pending
  pub owner : r.is_rpl_owner ≡ true
  pub rpl : r.rpl_port ≡ some p
  pub ticking : r.wtr_timer_active ≡ true
  pub unasked : r.local_request ≡ invalid

-- The RPL is blocked and the other port open; the ring is told so with NR and RB, in IDLE.
pub record IsRestored (p : PortRef) (r : Ring) : Type 0 where
  pub running : IsRunning r
  pub in_idle : r.state ≡ idle
  pub blocks : BlocksOne r p
  pub sends : r.is_sending_raps ≡ true
  pub says : code r.raps.request ≡ code Raps.nr
  pub flags : (r.raps.flags ≡ 0x80) ⊎ (r.raps.flags ≡ 0xc0)
  pub stopped : r.wtr_timer_active ≡ false

expiry-Admitted : (p : PortRef) (r : Ring) → IsWaiting p r → Admitted wtr_expires r
expiry-Admitted p r h = record {
  supported = λ e. (λ f. ground (arith, f), λ f. ground (arith, f));
  no_separation = λ e. ground (arith, e);
  clearable = λ e. ground (arith, e);
  severe = inl (ground (arith, h.unasked));
}

stopped-IsRunning : (r : Ring) → IsSettled r → IsRunning (record r { wtr_timer_active = false })
stopped-IsRunning r h = record {
  settled = IsSettled-touched r r.port0 r.port1 r.guard_timer_active false r.raps_bursts_remain h;
  timed = λ on. ground (arith, on);
}

restored :
    (p : PortRef) (r r' : Ring)
    → IsSettled r'
    → Reverts p r r'
    → IsRestored p (record r' { wtr_timer_active = false })
restored ref0 r r' h (e, s) =
    let k = stopped-IsRunning r' h in ground (arith, s, k, Bool-cases r.port0.is_blocked)
restored ref1 r r' h (e, s) =
    let k = stopped-IsRunning r' h in ground (arith, s, k, Bool-cases r.port1.is_blocked)

-- Neither the local request nor the timer is part of the configuration.
same_configured :
    (q : Request) (r r' : Ring)
    → IsConfigured (record r { local_request = q }) r'
    → IsConfigured r (record r' { wtr_timer_active = false })
same_configured q r r' k = ground (arith, k)

ring_timer_restores :
    (now : ℕ) (p : PortRef) (r : Ring)
    → IsWaiting p r
    → wtr_due now r ≡ true
    → (r' : Ring) × (ring_timer now r ≡ done r') × IsRestored p r' × IsConfigured r r'
unfolding group
ring_timer_restores now p r h due =
    let possible : is_impossible wtr_expires r ≡ false =
      not_expired r.prev_request (h.running.timed h.ticking) in
    elim (ring_process_request-Admitted now wtr_expires none none r) [
      | inl (refused, _) ↦ absurd (refused (expiry-Admitted p r h))
      | inr (_, granted) ↦
          let asked : Ring = record r { local_request = retain wtr_expires } in
          let settled =
            IsSettled-relabel r (retain wtr_expires) (unfold retain in inl refl)
              h.running.settled in
          let (r', run, h', _) = ring_fsm-IsSettled now wtr_expires none none asked settled tt in
          let (r1, run1, _, kept1) =
            ring_fsm-total now wtr_expires none none asked settled.sound tt in
          let same : r1 ≡ r' = cc in
          let kept : IsConfigured asked r' = subst (IsConfigured asked) same kept1 in
          let fresh : is_dupe wtr_expires none none asked ≡ some false =
            unfold dupe in ap some possible in
          let end =
            ring_fsm-Reverts now wtr_expires none none p wtr_over h.in_pending h.owner h.rpl fresh
              run in
          (
            record r' { wtr_timer_active = false },
            ring_timer_due now r (ground (arith, h.ticking, due)) (
                same_process_request now wtr_expires none none r possible
                ∙ ap lift (granted ∙ run)),
            restored p asked r' h' end,
            same_configured (retain wtr_expires) r r' kept,
          )
    ]

-- The timer callback, at the times of the list.
unfoldable pub run_seconds : List ℕ → Ring → Outcome Ring
run_seconds [] r = done r
run_seconds (now ∷ times) r = ring_timer now r >>= run_seconds times

abbrev IsDueIn : List ℕ → Ring → Type 0
IsDueIn [] r = ⊥
IsDueIn (now ∷ times) r = (wtr_due now r ≡ true) ⊎ IsDueIn times r

idle_seconds :
    (times : List ℕ) (r : Ring) → r.wtr_timer_active ≡ false → run_seconds times r ≡ done r
unfolding run_seconds
idle_seconds [] r off = refl
idle_seconds (now ∷ times) r off =
    let same : ring_timer now r ≡ done r = unfold ring_timer in simp off refl in
    rw same (idle_seconds times r off)

seconds_restore :
    (times : List ℕ) (p : PortRef) (r : Ring)
    → IsWaiting p r
    → IsDueIn times r
    → (r' : Ring) × (run_seconds times r ≡ done r') × IsRestored p r' × IsConfigured r r'
unfolding run_seconds
seconds_restore [] p r h due = elim due [ ]
seconds_restore (now ∷ times) p r h due = elim (Bool-cases (wtr_due now r)) [
  | inl e ↦
      let (r', run, back, kept) = ring_timer_restores now p r h e in
      (r', rw run (idle_seconds times r' back.stopped), back, kept)
  | inr e ↦
      let same : ring_timer now r ≡ done r = unfold ring_timer in simp (e, h.ticking) refl in
      let later : IsDueIn times r = elim due [ inl f ↦ cc | inr f ↦ f ] in
      let (r', run, back, kept) = seconds_restore times p r h later in
      (r', rw (same, run) refl, back, kept)
]

-- `n` calls of the callback, a second apart.
abbrev pub every_second : ℕ → ℕ → List ℕ
every_second zero now = []
every_second (suc n) now = now ∷ every_second n (now + 1000)

late_enough :
    (n now : ℕ) (r : Ring)
    → r.wtr_timer_active_since ≤ now
    → r.wtr_timer_active_since + 15000 ≤ now + n * 1000
    → now + n * 1000 < 2 ^ 64
    → IsDueIn (every_second (suc n) now) r
unfolding tick_diff_msec
late_enough zero now r since late small = inl (ground arith)
late_enough (suc n) now r since late small =
    inr (late_enough n (now + 1000) r (omega arith) (omega arith) (omega arith))

-- The owner of the RPL waits in PENDING for its WTR timer, with no local request, and no other event comes
-- between: from any time behind the start of the timer that is far from the end of the clock, sixteen calls of the
-- timer callback a second apart restore the ring, with no exit and no fault, and leave its configuration.
pub wtr_restores :
    (now : ℕ) (p : PortRef) (r : Ring)
    → IsWaiting p r
    → r.wtr_timer_active_since ≤ now
    → now + 15000 < 2 ^ 64
    → (r' : Ring) × (run_seconds (every_second 16 now) r ≡ done r')
      × IsRestored p r'
      × IsConfigured r r'
wtr_restores now p r h since small =
    seconds_restore (every_second 16 now) p r h
      (late_enough 15 now r since (omega arith) (omega arith))
