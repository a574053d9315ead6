-- ===== src/Ring/Moves.antt =====
-- What the rows have in common, on steady rings.
use erps.Common.{ℕ, ◌<◌, Option, some, ◌≡◌, ◌∙◌, arith}
use erps.Raps.{RapsRequest, NodeId}
use erps.Ring.{PortRef, Ring, Act, with_rpl, unblock_port, er_ring_other_port}
use erps.Ring.Logic.{
  Keeps, Keeps->>, Keeps-only_if, Keeps-if_else, Keeps-if_blocked, Keeps-stay, Keeps-with_rpl,
  Keeps-only_if_never,
}
use erps.Ring.Steady.{
  IsSteady, Steady-start_wtr_timer, Steady-stop_wtr_timer, Steady-start_wtb_timer,
  Steady-stop_wtb_timer, Steady-start_guard_timer, Steady-stop_guard_timer, Steady-stop_tx,
  Steady-enter, Steady-flush_fdb, Steady-block_port, Steady-unblock_port, Steady-unblock_other,
  Steady-unblock_nonfailed_ports, Steady-start_tx,
}
use erps.Ring.Rows.{switch_to, block_rpl, open_both, stop_owner_timers, open_nonfailed, init_rpl}
use erps.Ring.Rows.Idle.{yield_to, remote_is_higher}
use erps.Ring.Rows.ManualSwitch.{release_switch}
use erps.Ring.Rows.Pending.{block_rpl_silently}

pub ruleset rules = (Keeps->>, Keeps-only_if, Keeps-if_else, Keeps-if_blocked, Keeps-stay)

pub ruleset timers = (
  Steady-start_wtr_timer, Steady-stop_wtr_timer, Steady-start_wtb_timer, Steady-stop_wtb_timer,
  Steady-start_guard_timer, Steady-stop_guard_timer,
)

pub ruleset ports = (
  Steady-flush_fdb, Steady-block_port, Steady-unblock_port, Steady-unblock_other,
  Steady-unblock_nonfailed_ports,
)

pub none-lt : 0 < 0xff
none-lt = omega arith

pub dnf-lt : 0x40 < 0xff
dnf-lt = omega arith

pub rb-lt : 0x80 < 0xff
rb-lt = omega arith

pub rb_dnf-lt : 0xc0 < 0xff
rb_dnf-lt = omega arith

pub ruleset sending = (Steady-start_tx, none-lt, dnf-lt, rb-lt, rb_dnf-lt)

module _ (r0 : Ring) where
  pub Steady-switch_to :
      (q : RapsRequest) (p : PortRef) → Keeps (IsSteady r0) (switch_to q (some p))
  unfolding switch_to
  Steady-switch_to q p = search (rules, ports, sending)

  pub Steady-block_rpl : (p : PortRef) → Keeps (IsSteady r0) (block_rpl (some p))
  unfolding block_rpl
  Steady-block_rpl p = search (rules, ports, sending)

  pub Steady-open_both : Keeps (IsSteady r0) open_both
  unfolding open_both
  Steady-open_both = search (rules, ports, Steady-stop_tx)

  pub Steady-open_nonfailed : Keeps (IsSteady r0) open_nonfailed
  unfolding open_nonfailed
  Steady-open_nonfailed = search (rules, ports, Steady-stop_tx)

  pub Steady-stop_owner_timers : Keeps (IsSteady r0) stop_owner_timers
  unfolding stop_owner_timers
  Steady-stop_owner_timers = search (rules, timers)

  pub Steady-release_switch : (now : ℕ) → Keeps (IsSteady r0) (release_switch now)
  unfolding release_switch
  Steady-release_switch now = search (rules, timers, sending)

  pub Steady-yield_to : (remote : NodeId) → Keeps (IsSteady r0) (yield_to (some remote))
  Steady-yield_to remote = record {
    run =
        unfold yield_to in
        (Keeps-only_if (remote_is_higher remote) open_nonfailed Steady-open_nonfailed).run;
  }

  pub Steady-init_rpl : (p : PortRef) → Keeps (IsSteady r0) (init_rpl (some p))
  unfolding init_rpl
  Steady-init_rpl p = search (rules, ports, sending)

  pub Steady-block_rpl_silently : (p : PortRef) → Keeps (IsSteady r0) (block_rpl_silently (some p))
  unfolding block_rpl_silently
  Steady-block_rpl_silently p = search (rules, ports, Steady-stop_tx)

  pub Steady-with_rpl :
      (f : Option PortRef → Act) (p : PortRef)
      → r0.rpl_port ≡ some p
      → Keeps (IsSteady r0) (f (some p))
      → Keeps (IsSteady r0) (with_rpl f)
  Steady-with_rpl f p e k = Keeps-with_rpl f (some p) (λ r h. h.configured.rpl ∙ e) k

  -- Row 14 reads the pointer, which may be null, and unblocks a port in any case.
  pub Steady-unblock_beside_rpl :
      Keeps (IsSteady r0) (with_rpl (λ p. unblock_port (er_ring_other_port p)))
  Steady-unblock_beside_rpl =
      Keeps-with_rpl (λ p. unblock_port (er_ring_other_port p)) r0.rpl_port
        (λ r h. h.configured.rpl) (Steady-unblock_other r0 r0.rpl_port)

pub ruleset moves = (
  Steady-switch_to, Steady-open_both, Steady-open_nonfailed, Steady-stop_owner_timers,
  Steady-release_switch, Steady-yield_to, Steady-unblock_beside_rpl, Steady-enter, Steady-stop_tx,
)
