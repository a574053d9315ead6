-- ===== src/Ring/Running.antt =====
-- What holds of the ring between two requests.
use mathlib.Core.Path.{subst}
use erps.Common.{
  ℕ, Bool, true, Option, some, ◌≡◌, ◌≢◌, ◌⊎◌, inl, inr, refl, arith, Bool-cases, ◌==◌, ◌∙◌, sym,
}
use erps.Raps.{NodeId}
use erps.Ring.{
  State, init, idle, protection, manual_switch, forced_switch, pending, Request, rank, invalid,
  wtr_expires, req_ms, req_sf, req_fs, raps_nr, PortRef, Ring,
}
use erps.Ring.Fsm.{save_request, ring_fsm}
use erps.Ring.Priority.{retain, ring_process_request}
use erps.Ring.RowsTotal.{IsCall}
use erps.Ring.Rows.{some_blocked}
use erps.Ring.Total.{IsSound, dupe_total, run_row, skip_row}
use erps.Ring.Transitions.{target, ring_fsm-target}
use erps.Ring.ReceiveTotal.{IsSound-relabel}
use erps.Ring.Admission.{ring_process_request-Admitted}

-- A local request that `ring_process_request` keeps.
abbrev pub IsLocal : Request → Type 0
IsLocal q = (q ≡ invalid) ⊎ (q ≡ req_ms) ⊎ (q ≡ req_sf) ⊎ (q ≡ req_fs)

-- A ring that has left INIT and keeps a local request or none.
pub record IsSettled (r : Ring) : Type 0 where
  pub sound : IsSound r
  pub left_init : r.state ≢ init
  pub local : IsLocal r.local_request

-- While the WTR timer runs, the last request was not the end of that timer.
abbrev pub IsTimed : Ring → Type 0
IsTimed r = r.wtr_timer_active ≡ true → r.prev_request ≢ wtr_expires

pub record IsRunning (r : Ring) : Type 0 where
  pub settled : IsSettled r
  pub timed : IsTimed r

retain-IsLocal : (q : Request) → IsLocal (retain q)
unfolding retain
retain-IsLocal raps_nr = ground arith
retain-IsLocal _ = ground arith

target_lem : (s : State) (req : Request) (b : Bool) → s ≢ init → target s req b ≢ init
target_lem init req b h = absurd (h refl)
target_lem idle req b h = ground arith
target_lem protection req b h = ground arith
target_lem manual_switch req b h = ground arith
target_lem forced_switch req b h = ground arith
target_lem pending req b h = ground arith

left :
    (r r' : Ring) (req : Request) {a b : Type 0}
    → r.state ≢ init
    → a × (r' ≡ r) ⊎ b × (r'.state ≡ target r.state req (some_blocked r))
    → r'.state ≢ init
left r r' req h (inl (_, e)) = λ i. h (cc)
left r r' req h (inr (_, e)) = λ i. target_lem r.state req (some_blocked r) h (cc)

-- A complete call of the state machine returns; the ring behind it is settled, and remembers the request or was not
-- changed at all.
pub ring_fsm-IsSettled :
    (now : ℕ) (req : Request) (port : Option PortRef) (remote : Option NodeId) (r : Ring)
    → IsSettled r
    → IsCall req port remote
    → (r' : Ring) × (ring_fsm now req port remote r ≡ some r')
      × IsSettled r'
      × ((r' ≡ r) ⊎ (r'.prev_request ≡ req))
unfolding save_request
ring_fsm-IsSettled now req port remote r h c =
    let (b, e) = dupe_total req (rank req == rank r.prev_request) port remote r c in
    elim (Bool-cases b) [
      | inl repeated ↦ (r, skip_row now req port remote r (rw repeated at e), h, inl refl)
      | inr fresh ↦
          let (r', run, sound, _, memory) =
            run_row now req port remote r h.sound c (rw fresh at e) in
          (
            r',
            run,
            record {
              sound = sound;
              left_init = left r r' req h.left_init (ring_fsm-target now req port remote run);
              local = subst IsLocal (sym memory.local) h.local;
            },
            inr memory.request,
          )
    ]

pub IsSettled-relabel :
    (r : Ring) (q : Request) → IsLocal q → IsSettled r → IsSettled (record r { local_request = q })
IsSettled-relabel r q l h = record {
  sound = IsSound-relabel r q h.sound;
  left_init = h.left_init;
  local = l;
}

-- A complete request is processed with no fault and leaves a settled ring, which remembers it or is what it was.
pub ring_process_request-IsSettled :
    (now : ℕ) (request : Request) (port : Option PortRef) (remote : Option NodeId) (r : Ring)
    → IsSettled r
    → IsCall request port remote
    → (r' : Ring) × (ring_process_request now request port remote r ≡ some r')
      × IsSettled r'
      × ((r'.prev_request ≡ r.prev_request) × (r'.wtr_timer_active ≡ r.wtr_timer_active)
          ⊎ (r'.prev_request ≡ request))
ring_process_request-IsSettled now request port remote r h c =
    elim (ring_process_request-Admitted now request port remote r) [
      | inl (_, e) ↦ (r, e, h, inl (refl, refl))
      | inr (_, e) ↦
          let (r', run, h', moved) =
            ring_fsm-IsSettled now request port remote (record r { local_request = retain request })
              (IsSettled-relabel r (retain request) (retain-IsLocal request) h) c in
          (r', e ∙ run, h', elim moved [ inl same ↦ inl (cc, cc) | inr kept ↦ inr kept ])
    ]

-- Every complete request but the end of the WTR timer is processed with no fault, and leaves a running ring.
pub ring_process_request-IsRunning :
    (now : ℕ) (request : Request) (port : Option PortRef) (remote : Option NodeId) (r : Ring)
    → IsRunning r
    → IsCall request port remote
    → request ≢ wtr_expires
    → (r' : Ring) × (ring_process_request now request port remote r ≡ some r') × IsRunning r'
ring_process_request-IsRunning now request port remote r h c n =
    let (r', run, settled, moved) =
      ring_process_request-IsSettled now request port remote r h.settled c in
    (
      r',
      run,
      record {
        settled = settled;
        timed =
            λ on. elim moved [ inl (same, off) ↦ λ e. h.timed (cc) (cc) | inr kept ↦ λ e. n (cc) ];
      },
    )
