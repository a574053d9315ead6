-- ===== src/Ring/Switching.antt =====
-- What a local request does to the ports, by every row that obeys it.
use mathlib.Core.Path.{subst}
use erps.Common.{ℕ, false, Option, none, some, ◌≡◌, refl, inl, inr, arith, Option-cases}
use erps.Raps.{RapsRequest, flag_dnf, NodeId}
use erps.Raps
use erps.Ring.{
  State, idle, protection, manual_switch, pending, Request, req_ms, req_sf, req_fs, PortRef, ref0,
  ref1, Ring, Act, ◌>>◌, stop_wtr_timer, stop_wtb_timer, enter,
}
use erps.Ring.Rows.{switch_to, stop_owner_timers}
use erps.Ring.Rows.Idle.{fsm_idle}
use erps.Ring.Rows.Protection.{fsm_protection}
use erps.Ring.Rows.ManualSwitch.{fsm_manual_switch}
use erps.Ring.Rows.Pending.{fsm_pending}
use erps.Ring.Fsm.{is_dupe, save_request, execute_row, unless_dupe, ring_fsm}
use erps.Ring.Logic.{Keeps, Keeps->>, Keeps-only_if}
use erps.Ring.Effects.{Switched, switch_to-Switched}

-- The request that the node tells the ring, for each state and local request that make it switch.
abbrev pub switches : State → Request → Option RapsRequest
switches idle req_fs = some Raps.fs
switches idle req_sf = some Raps.sf
switches idle req_ms = some Raps.ms
switches protection req_fs = some Raps.fs
switches protection req_sf = some Raps.sf
switches manual_switch req_fs = some Raps.fs
switches manual_switch req_sf = some Raps.sf
switches pending req_fs = some Raps.fs
switches pending req_sf = some Raps.sf
switches _ _ = none

module _ (q : RapsRequest) (p : PortRef) (r0 : Ring) where
  Switched-enter : (s : State) → Keeps (Switched q flag_dnf 0 p r0) (enter s)
  unfolding enter
  Switched-enter s = record { run = λ r h. (_, refl, ground arith) }

  Switched-stop_wtr_timer : Keeps (Switched q flag_dnf 0 p r0) stop_wtr_timer
  unfolding stop_wtr_timer
  Switched-stop_wtr_timer = record { run = λ r h. (_, refl, ground arith) }

  Switched-stop_wtb_timer : Keeps (Switched q flag_dnf 0 p r0) stop_wtb_timer
  unfolding stop_wtb_timer
  Switched-stop_wtb_timer = record { run = λ r h. (_, refl, ground arith) }

  Switched-stop_owner_timers :
      (s : State) → Keeps (Switched q flag_dnf 0 p r0) (do stop_owner_timers; enter s)
  unfolding stop_owner_timers
  Switched-stop_owner_timers s =
      Keeps->> _ _
        (Keeps-only_if _ _ (Keeps->> _ _ Switched-stop_wtr_timer Switched-stop_wtb_timer))
        (Switched-enter s)

  behind :
      (rest : Act) {r' : Ring}
      → Keeps (Switched q flag_dnf 0 p r0) rest
      → (switch_to q (some p) >> rest) r0 ≡ some r'
      → Switched q flag_dnf 0 p r0 r'
  unfolding ◌>>◌
  behind rest {r'} k h = elim (Option-cases (switch_to q (some p) r0)) [
    | inl e ↦ absurd (ground (arith, e, h))
    | inr (r1, e) ↦
        let (r2, run, s) = k.run r1 (switch_to-Switched q p e) in
        let same : r2 ≡ r' = cc (rw (e, ◌>>◌) at h) in subst (Switched q flag_dnf 0 p r0) same s
  ]

abbrev Obeys : Option RapsRequest → PortRef → Ring → Ring → Type 0
Obeys none p r r' = Unit {0}
Obeys (some q) p r r' = Switched q flag_dnf 0 p r r'

row-Obeys :
    (now : ℕ) (s : State) (req : Request) (p : PortRef) (remote : Option NodeId) (r : Ring)
    {r' : Ring}
    → execute_row now s req (some p) remote r ≡ some r'
    → Obeys (switches s req) p r r'
unfolding execute_row fsm_idle fsm_protection fsm_manual_switch fsm_pending
row-Obeys now idle req_fs p remote r h = behind Raps.fs p r _ (Switched-enter _ p r _) h
row-Obeys now idle req_sf p remote r h = behind Raps.sf p r _ (Switched-enter _ p r _) h
row-Obeys now idle req_ms p remote r h = behind Raps.ms p r _ (Switched-enter _ p r _) h
row-Obeys now protection req_fs p remote r h = behind Raps.fs p r _ (Switched-enter _ p r _) h
row-Obeys now protection req_sf p remote r h = switch_to-Switched Raps.sf p h
row-Obeys now manual_switch req_fs p remote r h = behind Raps.fs p r _ (Switched-enter _ p r _) h
row-Obeys now manual_switch req_sf p remote r h = behind Raps.sf p r _ (Switched-enter _ p r _) h
row-Obeys now pending req_fs p remote r h =
    behind Raps.fs p r _ (Switched-stop_owner_timers _ p r _) h
row-Obeys now pending req_sf p remote r h =
    behind Raps.sf p r _ (Switched-stop_owner_timers _ p r _) h
row-Obeys now _ _ p remote r h = tt

-- What has been saved of the request makes no difference.
resave :
    (o : Option RapsRequest) (req : Request) (p : PortRef) (remote : Option NodeId) (r r' : Ring)
    → Obeys o p (save_request req (some p) remote r) r'
    → Obeys o p r r'
unfolding save_request
resave none req p remote r r' h = tt
resave (some q) req ref0 remote r r' h = record {
  blocks = h.blocks;
  sending = h.sending;
  says = h.says;
  quiet = h.quiet;
  loud = h.loud;
  owner = h.owner;
  rpl = h.rpl;
}
resave (some q) req ref1 remote r r' h = record {
  blocks = h.blocks;
  sending = h.sending;
  says = h.says;
  quiet = h.quiet;
  loud = h.loud;
  owner = h.owner;
  rpl = h.rpl;
}

-- A local FS or SF in IDLE, PROTECTION, MANUAL_SWITCH or PENDING, or a local MS in IDLE, that is not a repetition: if
-- the state machine returns, the port of the request is blocked and the other one open, and the ring sends the
-- request, with DNF if the port was blocked before and with no flags otherwise.
pub ring_fsm-Switched :
    (now : ℕ) (req : Request) (p : PortRef) (remote : Option NodeId) (q : RapsRequest) {r r' : Ring}
    → is_dupe req (some p) remote r ≡ some false
    → switches r.state req ≡ some q
    → ring_fsm now req (some p) remote r ≡ some r'
    → Switched q flag_dnf 0 p r r'
unfolding ring_fsm save_request
ring_fsm-Switched now req p remote q {r} {r'} fresh t h =
    let obeyed : Obeys (switches r.state req) p r r' =
      resave (switches r.state req) req p remote r r' (
        row-Obeys now r.state req p remote (save_request req (some p) remote r)
          (rw (fresh, unless_dupe) at h)) in
    subst (λ o. Obeys o p r r') t obeyed
