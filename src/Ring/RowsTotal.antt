-- ===== src/Ring/RowsTotal.antt =====
-- The rows on complete calls.
use erps.Common.{
  ℕ, true, false, ◌⊎◌, inl, inr, Option, none, some, ◌≡◌, ◌∙◌, Bool-cases, Option-cases,
}
use erps.Raps.{RapsRequest, NodeId, flag_rb, flag_dnf}
use erps.Raps
use erps.Ring.{
  State, init, idle, protection, manual_switch, forced_switch, pending, Request, raps_nr,
  raps_nr_rb, wtb_expires, wtr_expires, req_ms, req_raps_ms, req_raps_sf, req_sf, req_raps_fs,
  req_fs, req_clear, PortRef, ref0, ref1, Ring, Act, ◌>>◌, only_if, enter, with_rpl, block_port,
  start_tx, unblock_port,
}
use erps.Ring.Logic.{
  Keeps, Keeps->>, Keeps-only_if, Keeps-if_else, Keeps-only_if_never, Keeps-if_else_never,
}
use erps.Ring.Steady.{
  IsSteady, Steady-stop_guard_timer, Steady-stop_wtr_timer, Steady-stop_wtb_timer, Steady-enter,
  Steady-start_wtr_timer,
}
use erps.Ring.Moves.{
  rules, timers, ports, sending, moves, Steady-block_rpl, Steady-open_both,
  Steady-stop_owner_timers, Steady-init_rpl, Steady-block_rpl_silently, Steady-with_rpl,
}
use erps.Ring.Fsm.{execute_row}
use erps.Ring.Rows.{block_rpl, init_rpl, init_ports, fsm_init}
use erps.Ring.Rows.Idle.{fsm_idle}
use erps.Ring.Rows.Protection.{fsm_protection}
use erps.Ring.Rows.ManualSwitch.{fsm_manual_switch}
use erps.Ring.Rows.ForcedSwitch.{fsm_forced_switch}
use erps.Ring.Rows.Pending.{block_rpl_silently, pending_nr_rb, fsm_pending}

-- The arguments that the callers of `ring_fsm` give: a local FS, MS or SF comes with its port, and
-- a message with the address of its sender.
abbrev pub IsCall : Request → Option PortRef → Option NodeId → Type 0
IsCall req_fs none remote = ⊥
IsCall req_ms none remote = ⊥
IsCall req_sf none remote = ⊥
IsCall raps_nr port none = ⊥
IsCall raps_nr_rb port none = ⊥
IsCall req_raps_ms port none = ⊥
IsCall req_raps_sf port none = ⊥
IsCall req_raps_fs port none = ⊥
IsCall _ port remote = Unit {0}

-- The owner and the neighbour of the RPL have an RPL port.
abbrev pub HasRpl : Ring → Type 0
HasRpl r =
    (r.is_rpl_owner ≡ true) ⊎ (r.is_rpl_neighbour ≡ true) → (p : PortRef) × (r.rpl_port ≡ some p)

module _ (r0 : Ring) (has_rpl : HasRpl r0) where
  owner_rpl : (r : Ring) → IsSteady r0 r → r0.rpl_port ≡ none → r.is_rpl_owner ≡ false
  owner_rpl r h e = elim (Bool-cases r0.is_rpl_owner) [
    | inl o ↦ absurd (cc (has_rpl (inl o)).1)
    | inr o ↦ h.configured.owner ∙ o
  ]

  neighbour_rpl : (r : Ring) → IsSteady r0 r → r0.rpl_port ≡ none → r.is_rpl_neighbour ≡ false
  neighbour_rpl r h e = elim (Bool-cases r0.is_rpl_neighbour) [
    | inl o ↦ absurd (cc (has_rpl (inr o)).1)
    | inr o ↦ h.configured.neighbour ∙ o
  ]

  -- A branch for the owner may use the RPL port.
  Steady-when_owner :
      (a : Act)
      → ((p : PortRef) → r0.rpl_port ≡ some p → Keeps (IsSteady r0) a)
      → Keeps (IsSteady r0) (only_if (λ r. r.is_rpl_owner) a)
  Steady-when_owner a k = elim (Option-cases r0.rpl_port) [
    | inl e ↦ Keeps-only_if_never _ a (λ r h. owner_rpl r h e)
    | inr (p, e) ↦ Keeps-only_if _ a (k p e)
  ]

  Steady-when_neighbour :
      (a : Act)
      → ((p : PortRef) → r0.rpl_port ≡ some p → Keeps (IsSteady r0) a)
      → Keeps (IsSteady r0) (only_if (λ r. r.is_rpl_neighbour) a)
  Steady-when_neighbour a k = elim (Option-cases r0.rpl_port) [
    | inl e ↦ Keeps-only_if_never _ a (λ r h. neighbour_rpl r h e)
    | inr (p, e) ↦ Keeps-only_if _ a (k p e)
  ]

  Steady-fsm_idle :
      (req : Request) (port : Option PortRef) (remote : Option NodeId)
      → IsCall req port remote
      → Keeps (IsSteady r0) (fsm_idle req port remote)
  unfolding fsm_idle
  Steady-fsm_idle req_fs (some p) remote c = search (rules, moves)
  Steady-fsm_idle req_ms (some p) remote c = search (rules, moves)
  Steady-fsm_idle req_sf (some p) remote c = search (rules, moves)
  Steady-fsm_idle raps_nr port (some remote) c = search (rules, moves)
  Steady-fsm_idle req_fs none remote c = elim c [ ]
  Steady-fsm_idle req_ms none remote c = elim c [ ]
  Steady-fsm_idle req_sf none remote c = elim c [ ]
  Steady-fsm_idle raps_nr port none c = elim c [ ]
  Steady-fsm_idle _ port remote c = search (rules, moves)

  Steady-fsm_protection :
      (now : ℕ) (req : Request) (port : Option PortRef) (remote : Option NodeId)
      → IsCall req port remote
      → Keeps (IsSteady r0) (fsm_protection now req port)
  unfolding fsm_protection
  Steady-fsm_protection now req_fs (some p) remote c = search (rules, moves)
  Steady-fsm_protection now req_sf (some p) remote c = search (rules, moves)
  Steady-fsm_protection now req_fs none remote c = elim c [ ]
  Steady-fsm_protection now req_sf none remote c = elim c [ ]
  Steady-fsm_protection now _ port remote c = search (rules, moves, timers, sending)

  Steady-fsm_manual_switch :
      (now : ℕ) (req : Request) (port : Option PortRef) (remote : Option NodeId)
      → IsCall req port remote
      → Keeps (IsSteady r0) (fsm_manual_switch now req port)
  unfolding fsm_manual_switch
  Steady-fsm_manual_switch now req_fs (some p) remote c = search (rules, moves)
  Steady-fsm_manual_switch now req_sf (some p) remote c = search (rules, moves)
  Steady-fsm_manual_switch now req_fs none remote c = elim c [ ]
  Steady-fsm_manual_switch now req_sf none remote c = elim c [ ]
  Steady-fsm_manual_switch now _ port remote c = search (rules, moves, timers)

  Steady-fsm_forced_switch :
      (now : ℕ) (req : Request) (port : Option PortRef) (remote : Option NodeId)
      → IsCall req port remote
      → Keeps (IsSteady r0) (fsm_forced_switch now req port)
  unfolding fsm_forced_switch
  Steady-fsm_forced_switch now req_fs (some p) remote c = search (rules, ports, sending)
  Steady-fsm_forced_switch now req_fs none remote c = elim c [ ]
  Steady-fsm_forced_switch now _ port remote c = search (rules, moves, timers)

  Steady-pending_nr_rb : Keeps (IsSteady r0) pending_nr_rb
  unfolding pending_nr_rb
  Steady-pending_nr_rb = Keeps->> _ _ (Steady-stop_owner_timers r0) (
      Keeps->> _ _ (Keeps-only_if _ _ (Steady-open_both r0)) (
        Keeps->> _ _
          (Steady-when_neighbour _
            (λ p e. Steady-with_rpl r0 block_rpl_silently p e (Steady-block_rpl_silently r0 p)))
          (Steady-enter r0 idle)))

  Steady-revert :
      (a : Act)
      → Keeps (IsSteady r0) a
      → Keeps
          (IsSteady r0)
          (do only_if (λ r. r.is_rpl_owner) (do a; with_rpl block_rpl); enter idle)
  Steady-revert a k =
      Keeps->> _ _
        (Steady-when_owner _
          (λ p e. Keeps->> _ _ k (Steady-with_rpl r0 block_rpl p e (Steady-block_rpl r0 p))))
        (Steady-enter r0 idle)

  Steady-fsm_pending :
      (req : Request) (port : Option PortRef) (remote : Option NodeId)
      → IsCall req port remote
      → Keeps (IsSteady r0) (fsm_pending req port remote)
  unfolding fsm_pending
  Steady-fsm_pending req_clear port remote c =
      Keeps->> _ _
        (Steady-when_owner _ (λ p e. Keeps->> _ _ (Steady-stop_wtr_timer r0) (
          Keeps->> _ _ (Steady-stop_wtb_timer r0)
            (Steady-with_rpl r0 block_rpl p e (Steady-block_rpl r0 p)))))
        (Steady-enter r0 idle)
  Steady-fsm_pending wtr_expires port remote c = Steady-revert _ (Steady-stop_wtb_timer r0)
  Steady-fsm_pending wtb_expires port remote c = Steady-revert _ (Steady-stop_wtr_timer r0)
  Steady-fsm_pending raps_nr_rb port remote c = Steady-pending_nr_rb
  Steady-fsm_pending req_fs (some p) remote c = search (rules, moves)
  Steady-fsm_pending req_ms (some p) remote c = search (rules, moves)
  Steady-fsm_pending req_sf (some p) remote c = search (rules, moves)
  Steady-fsm_pending raps_nr port (some remote) c = search (rules, moves)
  Steady-fsm_pending req_fs none remote c = elim c [ ]
  Steady-fsm_pending req_ms none remote c = elim c [ ]
  Steady-fsm_pending req_sf none remote c = elim c [ ]
  Steady-fsm_pending raps_nr port none c = elim c [ ]
  Steady-fsm_pending _ port remote c = search (rules, moves)

  -- The default of row 01.
  Steady-init_default :
      Keeps (IsSteady r0) (do block_port (some ref0); unblock_port (some ref1); start_tx Raps.nr 0)
  Steady-init_default = search (rules, ports, sending)

  Steady-init_ports : (now : ℕ) → Keeps (IsSteady r0) (init_ports now)
  unfolding init_ports
  Steady-init_ports now = elim (Option-cases r0.rpl_port) [
    | inl e ↦
        Keeps-if_else_never _ _ _ (λ r h. owner_rpl r h e)
          (Keeps-if_else_never _ _ _ (λ r h. neighbour_rpl r h e) Steady-init_default)
    | inr (p, e) ↦
        let k = Steady-with_rpl r0 init_rpl p e (Steady-init_rpl r0 p) in
        Keeps-if_else _ _ _ (Keeps->> _ _ k (Keeps-only_if _ _ (Steady-start_wtr_timer r0 now)))
          (Keeps-if_else _ _ _ k Steady-init_default)
  ]

  Steady-fsm_init : (now : ℕ) → Keeps (IsSteady r0) (fsm_init now)
  unfolding fsm_init
  Steady-fsm_init now = Keeps->> _ _ (Steady-stop_guard_timer r0) (
      Keeps->> _ _ (Steady-stop_wtr_timer r0) (
        Keeps->> _ _ (Steady-stop_wtb_timer r0)
          (Keeps->> _ _ (Steady-init_ports now) (Steady-enter r0 pending))))

  pub Steady-execute_row :
      (now : ℕ) (s : State) (req : Request) (port : Option PortRef) (remote : Option NodeId)
      → IsCall req port remote
      → Keeps (IsSteady r0) (execute_row now s req port remote)
  unfolding execute_row
  Steady-execute_row now init req port remote c = Steady-fsm_init now
  Steady-execute_row now idle req port remote c = Steady-fsm_idle req port remote c
  Steady-execute_row now protection req port remote c = Steady-fsm_protection now req port remote c
  Steady-execute_row now manual_switch req port remote c =
      Steady-fsm_manual_switch now req port remote c
  Steady-execute_row now forced_switch req port remote c =
      Steady-fsm_forced_switch now req port remote c
  Steady-execute_row now pending req port remote c = Steady-fsm_pending req port remote c
