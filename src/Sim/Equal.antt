-- ===== src/Sim/Equal.antt =====
-- The state machine of the simulator beside that of the kernel module.
use erps.Common.{
  ℕ, Bool, true, false, ◌&&◌, Option, none, some, ltb, ◌==◌, ◌≡◌, ◌⊎◌, refl, ap, ◌∙◌, inl, inr,
  Bool-cases, Option-cases,
}
use erps.Raps.{NodeId}
use erps.Ring.{
  State, init, idle, protection, manual_switch, forced_switch, pending, Request, rank, req_clear,
  PortRef, Ring,
}
use erps.Ring.Fsm
use erps.Ring.Fsm.{
  Group, by_address, by_port, by_request, ungrouped, group, is_dupe, dupe, save_request,
  execute_row, unless_dupe,
}
use erps.Ring.Total.{skip_row}
use erps.Ring.Priority
use erps.Ring.Priority.{
  is_req, unsupported, separating, denied, clear_local_sf, local_sf_cleared, retain, compete,
}
use erps.Sim.Outcome.{done, died, lift}
use erps.Sim.Agrees.{Agrees, finish}
use erps.Sim.Same.{
  Agrees-init_rows, Agrees-idle_rows, Agrees-protection_rows, Agrees-manual_switch_rows,
  Agrees-forced_switch_rows, Agrees-pending_rows,
}
use erps.Sim.Fsm.{run_row, store_state, on_repetition, ring_fsm, override, ring_process_request}

Agrees-run_row :
    (now : ℕ) (s : State) (req : Request) (port : Option PortRef) (remote : Option NodeId)
    → Agrees (run_row now s req port remote) (execute_row now s req port remote)
unfolding run_row execute_row
Agrees-run_row now init req port remote = Agrees-init_rows now
Agrees-run_row now idle req port remote = Agrees-idle_rows req port remote
Agrees-run_row now protection req port remote = Agrees-protection_rows now req port
Agrees-run_row now manual_switch req port remote = Agrees-manual_switch_rows now req port
Agrees-run_row now forced_switch req port remote = Agrees-forced_switch_rows now req port
Agrees-run_row now pending req port remote = Agrees-pending_rows req port remote

store_state-eq-lift : (o : Option (Ring × State)) → store_state o ≡ lift (finish o)
store_state-eq-lift none = refl
store_state-eq-lift (some (r, s)) = refl

abbrev in_third : Group → Bool → Bool
in_third by_request same = same
in_third _ same = false

-- A timer or CLEAR request that is the last one once more.
abbrev pub is_impossible : Request → Ring → Bool
is_impossible req r = in_third (group req) (rank req == rank r.prev_request)

repetition :
    (g : Group) (same : Bool) (port : Option PortRef) (remote : Option NodeId) (r : Ring)
    → dupe g same port remote r ≡ some true
    → in_third g same ≡ false
    → on_repetition g r ≡ done r
unfolding dupe on_repetition
repetition by_address same port remote r h n = refl
repetition by_port same port remote r h n = refl
repetition ungrouped same port remote r h n = refl
repetition by_request same port remote r h n = cc

third :
    (g : Group) (same : Bool) (port : Option PortRef) (remote : Option NodeId) (r : Ring)
    → in_third g same ≡ true
    → (dupe g same port remote r ≡ some true) × (on_repetition g r ≡ died)
unfolding dupe on_repetition
third by_address same port remote r n = cc
third by_port same port remote r n = cc
third ungrouped same port remote r n = cc
third by_request same port remote r n = (cc, refl)

saved_row :
    (now : ℕ) (req : Request) (port : Option PortRef) (remote : Option NodeId) (r : Ring)
    → finish (run_row now r.state req port remote (save_request req port remote r) r.state)
      ≡ execute_row now r.state req port remote (save_request req port remote r)
unfolding save_request
saved_row now req port remote r =
    (Agrees-run_row now r.state req port remote).run (save_request req port remote r) r.state

pub same_fsm :
    (now : ℕ) (req : Request) (port : Option PortRef) (remote : Option NodeId) (r : Ring)
    → is_impossible req r ≡ false
    → ring_fsm now req port remote r ≡ lift (Fsm.ring_fsm now req port remote r)
unfolding ring_fsm Fsm.ring_fsm
same_fsm now req port remote r n = elim (Option-cases (is_dupe req port remote r)) [
  | inl e ↦ rw (e, unless_dupe, ring_fsm) refl
  | inr (true, e) ↦
      rw (e, unless_dupe, ring_fsm)
        (repetition (group req) (rank req == rank r.prev_request) port remote r e n)
  | inr (false, e) ↦
      rw (e, unless_dupe, ring_fsm)
        (store_state-eq-lift _ ∙ ap lift (saved_row now req port remote r))
]

pub dead_fsm :
    (now : ℕ) (req : Request) (port : Option PortRef) (remote : Option NodeId) (r : Ring)
    → is_impossible req r ≡ true
    → ring_fsm now req port remote r ≡ died
unfolding ring_fsm
dead_fsm now req port remote r n =
    let (e, dead) = third (group req) (rank req == rank r.prev_request) port remote r n in
    rw (e, ring_fsm) dead

-- The simulator ends in `die` on a timer or CLEAR request that is the last one once more, which the
-- kernel module ignores. On every other request, ring and argument both state machines give the
-- same ring, or both follow a null pointer.
pub ring_fsm-lift :
    (now : ℕ) (req : Request) (port : Option PortRef) (remote : Option NodeId) (r : Ring)
    → (is_impossible req r ≡ true)
        × (ring_fsm now req port remote r ≡ died)
        × (Fsm.ring_fsm now req port remote r ≡ some r)
      ⊎ (is_impossible req r ≡ false)
        × (ring_fsm now req port remote r ≡ lift (Fsm.ring_fsm now req port remote r))
ring_fsm-lift now req port remote r = elim (Bool-cases (is_impossible req r)) [
  | inl n ↦
      let (e, _) = third (group req) (rank req == rank r.prev_request) port remote r n in
      inl (n, dead_fsm now req port remote r n, skip_row now req port remote r e)
  | inr n ↦ inr (n, same_fsm now req port remote r n)
]

same_compared :
    (now : ℕ) (request : Request) (port : Option PortRef) (remote : Option NodeId) (r : Ring)
    → is_impossible request r ≡ false
    → override now request port remote r ≡ lift (compete now request port remote r)
unfolding override compete
same_compared now request port remote r n =
    elim (Bool-cases (ltb (rank r.local_request) (rank request))) [
      | inl e ↦
          rw e (same_fsm now request port remote (record r { local_request = retain request }) n)
      | inr e ↦ rw e refl
    ]

same_override :
    (now : ℕ) (request : Request) (port : Option PortRef) (remote : Option NodeId) (r : Ring)
    → is_impossible request r ≡ false
    → override now request port remote (clear_local_sf request r)
      ≡ lift (compete now request port remote (clear_local_sf request r))
unfolding clear_local_sf
same_override now request port remote r n = elim (Bool-cases (local_sf_cleared request r)) [
  | inl e ↦
      rw e (same_compared now request port remote (record r { local_request = Request.invalid }) n)
  | inr e ↦ rw e (same_compared now request port remote r n)
]

-- The filter in front of it.
pub same_process_request :
    (now : ℕ) (request : Request) (port : Option PortRef) (remote : Option NodeId) (r : Ring)
    → is_impossible request r ≡ false
    → ring_process_request now request port remote r
      ≡ lift (Priority.ring_process_request now request port remote r)
unfolding ring_process_request Priority.ring_process_request
same_process_request now request port remote r n = elim (Bool-cases (unsupported request r)) [
  | inl e ↦ rw e refl
  | inr e ↦ elim (Bool-cases (separating request r)) [
    | inl f ↦ rw (e, f) refl
    | inr f ↦ elim (Bool-cases (is_req request req_clear && denied r)) [
      | inl g ↦ rw (e, f, g) refl
      | inr g ↦ rw (e, f, g) (same_override now request port remote r n)
    ]
  ]
]
