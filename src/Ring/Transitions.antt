-- ===== src/Ring/Transitions.antt =====
-- The state that each request leads to.
use erps.Common.{
  ℕ, Bool, true, false, Option, none, some, ◌≡◌, ◌⊎◌, inl, inr, refl, Bool-cases, Option-cases,
}
use erps.Raps.{NodeId, RapsRequest}
use erps.Ring.{
  State, init, idle, protection, manual_switch, forced_switch, pending, Request, raps_nr,
  raps_nr_rb, wtb_expires, wtr_expires, req_ms, req_raps_ms, req_raps_sf, req_clear_sf, req_sf,
  req_raps_fs, req_fs, req_clear, PortRef, Ring, ◌>>◌, if_else, enter,
}
use erps.Ring.Moved.{Moved, moved_rules, Moved-only_if}
use erps.Ring.Rows.{
  switch_to, block_rpl, open_both, stop_owner_timers, open_nonfailed, init_rpl, init_ports,
  fsm_init, some_blocked,
}
use erps.Ring.Rows.Idle.{yield_to, fsm_idle, remote_is_higher}
use erps.Ring.Rows.Protection.{fsm_protection}
use erps.Ring.Rows.ManualSwitch.{release_switch, fsm_manual_switch}
use erps.Ring.Rows.ForcedSwitch.{fsm_forced_switch}
use erps.Ring.Rows.Pending.{block_rpl_silently, pending_nr_rb, fsm_pending}
use erps.Ring.Fsm.{is_dupe, unless_dupe, save_request, execute_row, ring_fsm}

module _ {s : State} where
  Moved-switch_to : (q : RapsRequest) (p : Option PortRef) → Moved s s (switch_to q p)
  unfolding switch_to
  Moved-switch_to q p = search moved_rules

  Moved-block_rpl : (p : Option PortRef) → Moved s s (block_rpl p)
  unfolding block_rpl
  Moved-block_rpl p = search moved_rules

  Moved-open_both : Moved s s open_both
  unfolding open_both
  Moved-open_both = search moved_rules

  Moved-open_nonfailed : Moved s s open_nonfailed
  unfolding open_nonfailed
  Moved-open_nonfailed = search moved_rules

  Moved-stop_owner_timers : Moved s s stop_owner_timers
  unfolding stop_owner_timers
  Moved-stop_owner_timers = search moved_rules

  Moved-release_switch : (now : ℕ) → Moved s s (release_switch now)
  unfolding release_switch
  Moved-release_switch now = search moved_rules

  Moved-init_rpl : (p : Option PortRef) → Moved s s (init_rpl p)
  unfolding init_rpl
  Moved-init_rpl p = search moved_rules

  Moved-block_rpl_silently : (p : Option PortRef) → Moved s s (block_rpl_silently p)
  unfolding block_rpl_silently
  Moved-block_rpl_silently p = search moved_rules

  Moved-yield_to : (remote : Option NodeId) → Moved s s (yield_to remote)
  unfolding yield_to
  Moved-yield_to none = record { run = λ r r' e h. cc }
  Moved-yield_to (some n) = record {
    run = (Moved-only_if (remote_is_higher n) open_nonfailed Moved-open_nonfailed).run;
  }

ruleset row_rules = (
  moved_rules, Moved-switch_to, Moved-block_rpl, Moved-open_both, Moved-open_nonfailed,
  Moved-stop_owner_timers, Moved-release_switch, Moved-init_rpl, Moved-block_rpl_silently,
  Moved-yield_to,
)

-- The new state by the protocol: a signal failure, of the node or of another one, leads to PROTECTION from IDLE,
-- MANUAL_SWITCH and PENDING. `blocked` says whether a port of the node is blocked, of which the answer to R-APS(MS)
-- in MANUAL_SWITCH depends.
abbrev pub protocol : State → Request → Bool → State
protocol init _ blocked = pending
protocol idle req_fs blocked = forced_switch
protocol idle req_raps_fs blocked = forced_switch
protocol idle req_sf blocked = protection
protocol idle req_raps_sf blocked = protection
protocol idle req_ms blocked = manual_switch
protocol idle req_raps_ms blocked = manual_switch
protocol protection req_fs blocked = forced_switch
protocol protection req_raps_fs blocked = forced_switch
protocol protection req_clear_sf blocked = pending
protocol protection raps_nr blocked = pending
protocol protection raps_nr_rb blocked = pending
protocol manual_switch req_fs blocked = forced_switch
protocol manual_switch req_raps_fs blocked = forced_switch
protocol manual_switch req_sf blocked = protection
protocol manual_switch req_raps_sf blocked = protection
protocol manual_switch req_clear blocked = pending
protocol manual_switch req_raps_ms true = pending
protocol manual_switch raps_nr blocked = pending
protocol manual_switch raps_nr_rb blocked = pending
protocol forced_switch req_clear blocked = pending
protocol forced_switch raps_nr blocked = pending
protocol forced_switch raps_nr_rb blocked = pending
protocol pending req_fs blocked = forced_switch
protocol pending req_raps_fs blocked = forced_switch
protocol pending req_sf blocked = protection
protocol pending req_raps_sf blocked = protection
protocol pending req_ms blocked = manual_switch
protocol pending req_raps_ms blocked = manual_switch
protocol pending req_clear blocked = idle
protocol pending wtr_expires blocked = idle
protocol pending wtb_expires blocked = idle
protocol pending raps_nr_rb blocked = idle
protocol s _ blocked = s

-- What the module makes of it: row 35, R-APS(SF) in MANUAL_SWITCH, has no new state.
abbrev pub target : State → Request → Bool → State
target manual_switch req_raps_sf blocked = manual_switch
target s req blocked = protocol s req blocked

Moved-fsm_init : (now : ℕ) → Moved init pending (fsm_init now)
unfolding fsm_init init_ports
Moved-fsm_init now = search row_rules depth 8

Moved-fsm_idle :
    (req : Request) (b : Bool) (port : Option PortRef) (remote : Option NodeId)
    → Moved idle (target idle req b) (fsm_idle req port remote)
unfolding fsm_idle
Moved-fsm_idle req_fs b port remote = search row_rules
Moved-fsm_idle _ b port remote = search row_rules

Moved-fsm_protection :
    (now : ℕ) (req : Request) (b : Bool) (port : Option PortRef)
    → Moved protection (target protection req b) (fsm_protection now req port)
unfolding fsm_protection
Moved-fsm_protection now req_fs b port = search row_rules
Moved-fsm_protection now _ b port = search row_rules

Moved-fsm_forced_switch :
    (now : ℕ) (req : Request) (b : Bool) (port : Option PortRef)
    → Moved forced_switch (target forced_switch req b) (fsm_forced_switch now req port)
unfolding fsm_forced_switch
Moved-fsm_forced_switch now req_fs b port = search row_rules
Moved-fsm_forced_switch now _ b port = search row_rules

Moved-fsm_pending :
    (req : Request) (b : Bool) (port : Option PortRef) (remote : Option NodeId)
    → Moved pending (target pending req b) (fsm_pending req port remote)
unfolding fsm_pending
Moved-fsm_pending req_fs b port remote = search row_rules
Moved-fsm_pending raps_nr_rb b port remote = unfold pending_nr_rb in search row_rules depth 9
Moved-fsm_pending _ b port remote = search row_rules depth 8

Moved-ms_ms :
    (now : ℕ) (port : Option PortRef) (r r' : Ring)
    → r.state ≡ manual_switch
    → fsm_manual_switch now req_raps_ms port r ≡ some r'
    → r'.state ≡ target manual_switch req_raps_ms (some_blocked r)
unfolding fsm_manual_switch if_else
Moved-ms_ms now port r r' e h = elim (Bool-cases (some_blocked r)) [
  | inl x ↦
      let k : Moved manual_switch pending (release_switch now >> enter pending) =
        search row_rules in
      rw x (k.run r r' e (rw x at h))
  | inr x ↦
      let k : Moved manual_switch manual_switch (enter manual_switch) = search row_rules in
      rw x (k.run r r' e (rw x at h))
]

manual_switch_rule :
    (now : ℕ) (req : Request) (b : Bool) (port : Option PortRef)
    → (req ≡ req_raps_ms)
      ⊎ Moved manual_switch (target manual_switch req b) (fsm_manual_switch now req port)
unfolding fsm_manual_switch
manual_switch_rule now req_raps_ms b port = inl refl
manual_switch_rule now _ b port = inr (search row_rules depth 8)

manual_switch_target :
    (now : ℕ) (req : Request) (port : Option PortRef) (r r' : Ring)
    → r.state ≡ manual_switch
    → fsm_manual_switch now req port r ≡ some r'
    → r'.state ≡ target manual_switch req (some_blocked r)
manual_switch_target now req port r r' e h =
    elim (manual_switch_rule now req (some_blocked r) port) [
      | inl same ↦ rw same (Moved-ms_ms now port r r' e (rw same at h))
      | inr k ↦ k.run r r' e h
    ]

execute_row-target :
    (now : ℕ) (s : State) (req : Request) (port : Option PortRef) (remote : Option NodeId)
    (r r' : Ring)
    → r.state ≡ s
    → execute_row now s req port remote r ≡ some r'
    → r'.state ≡ target s req (some_blocked r)
unfolding execute_row
execute_row-target now init req port remote r r' e h = (Moved-fsm_init now).run r r' e h
execute_row-target now idle req port remote r r' e h =
    (Moved-fsm_idle req (some_blocked r) port remote).run r r' e h
execute_row-target now protection req port remote r r' e h =
    (Moved-fsm_protection now req (some_blocked r) port).run r r' e h
execute_row-target now manual_switch req port remote r r' e h =
    manual_switch_target now req port r r' e h
execute_row-target now forced_switch req port remote r r' e h =
    (Moved-fsm_forced_switch now req (some_blocked r) port).run r r' e h
execute_row-target now pending req port remote r r' e h =
    (Moved-fsm_pending req (some_blocked r) port remote).run r r' e h

-- A request that is a repetition changes nothing, also one of a timer or CLEAR. Any other one, if the state machine
-- returns, leads to the state that the protocol gives for the state, the request and whether a port is blocked, but for
-- R-APS(SF) in MANUAL_SWITCH (row 35), which leaves the ring in MANUAL_SWITCH where the protocol leads to PROTECTION.
pub ring_fsm-target :
    (now : ℕ) (req : Request) (port : Option PortRef) (remote : Option NodeId) {r r' : Ring}
    → ring_fsm now req port remote r ≡ some r'
    → (is_dupe req port remote r ≡ some true) × (r' ≡ r)
      ⊎ (is_dupe req port remote r ≡ some false) × (r'.state ≡ target r.state req (some_blocked r))
unfolding ring_fsm save_request
ring_fsm-target now req port remote {r} {r'} h = elim (Option-cases (is_dupe req port remote r)) [
  | inl e ↦ cc (rw (e, unless_dupe) at h)
  | inr (true, e) ↦ inl (e, cc (rw (e, unless_dupe) at h))
  | inr (false, e) ↦ inr (
    e,
    execute_row-target now r.state req port remote (save_request req port remote r) r' refl
        (rw (e, unless_dupe) at h),
  )
]
