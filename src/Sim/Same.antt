-- ===== src/Sim/Same.antt =====
-- The rows of the simulator beside those of the kernel module.
use erps.Common.{ℕ, bit_or, not, Option, none, some, refl, memcmp, is_lt}
use erps.Raps.{RapsRequest, flag_dnf, flag_rb, NodeId, bytes}
use erps.Raps
use erps.Ring.{Request, req_fs, raps_nr_rb, PortRef}
use erps.Ring.Rows.{
  switch_to, block_rpl, open_both, stop_owner_timers, open_nonfailed, init_rpl, init_ports,
  fsm_init,
}
use erps.Ring.Rows.Idle.{yield_to, idle_nr, fsm_idle}
use erps.Ring.Rows.Protection.{fsm_protection}
use erps.Ring.Rows.ManualSwitch.{release_switch, fsm_manual_switch}
use erps.Ring.Rows.ForcedSwitch.{fsm_forced_switch}
use erps.Ring.Rows.Pending.{block_rpl_silently, pending_nr_rb, fsm_pending}
use erps.Sim.{when}
use erps.Sim.Rows.{
  revertive_owner, plain, any_blocked, take_port, stop_both_timers, open_ports, open_healthy,
  block_first, init_rows, yield_if_lower, idle_rows, protection_rows, clear_switch,
  manual_switch_rows, forced_switch_rows, pending_rows,
}
use erps.Sim.Agrees.{Agrees, Blind, Agrees-when, agrees_rules}

Blind-owner : Blind (λ r. r.is_rpl_owner)
Blind-owner = record { run = λ r s. refl }

Blind-not_owner : Blind (λ r. not r.is_rpl_owner)
Blind-not_owner = record { run = λ r s. refl }

Blind-neighbour : Blind (λ r. r.is_rpl_neighbour)
Blind-neighbour = record { run = λ r s. refl }

Blind-revertive : Blind (λ r. r.is_revertive)
Blind-revertive = record { run = λ r s. refl }

Blind-revertive_owner : Blind revertive_owner
Blind-revertive_owner = record { run = λ r s. refl }

Blind-plain : Blind plain
Blind-plain = record { run = λ r s. refl }

Blind-any_blocked : Blind any_blocked
Blind-any_blocked = record { run = λ r s. refl }

ruleset rules = (
  agrees_rules, Blind-owner, Blind-not_owner, Blind-neighbour, Blind-revertive,
  Blind-revertive_owner, Blind-plain, Blind-any_blocked,
)

Agrees-take_port :
    (q : RapsRequest) (p : Option PortRef) → Agrees (take_port q flag_dnf 0 p) (switch_to q p)
unfolding take_port switch_to
Agrees-take_port q p = search rules

Agrees-take_rpl :
    (p : Option PortRef)
    → Agrees (take_port Raps.nr (bit_or flag_rb flag_dnf) flag_rb p) (block_rpl p)
unfolding take_port block_rpl
Agrees-take_rpl p = search rules

Agrees-open_ports : Agrees open_ports open_both
unfolding open_ports open_both
Agrees-open_ports = search rules

Agrees-open_healthy : Agrees open_healthy open_nonfailed
unfolding open_healthy open_nonfailed
Agrees-open_healthy = search rules

Agrees-stop_both_timers : Agrees (when (λ r. r.is_rpl_owner) stop_both_timers) stop_owner_timers
unfolding stop_both_timers stop_owner_timers
Agrees-stop_both_timers = search rules

Agrees-clear_switch : (now : ℕ) → Agrees (clear_switch now) (release_switch now)
unfolding clear_switch release_switch
Agrees-clear_switch now = search rules

Agrees-block_first : (p : Option PortRef) → Agrees (block_first Raps.nr p) (init_rpl p)
unfolding block_first init_rpl
Agrees-block_first p = search rules

Agrees-yield_if_lower : (remote : Option NodeId) → Agrees (yield_if_lower remote) (yield_to remote)
unfolding yield_if_lower yield_to
Agrees-yield_if_lower none = record { run = λ r s. refl }
Agrees-yield_if_lower (some n) = record {
  run =
      (Agrees-when (λ x. is_lt (memcmp (bytes x.node_id) (bytes n))) open_healthy open_nonfailed
        (record { run = λ r s. refl }) Agrees-open_healthy).run;
}

ruleset row_rules = (
  rules, Agrees-take_port, Agrees-take_rpl, Agrees-open_ports, Agrees-open_healthy,
  Agrees-stop_both_timers, Agrees-clear_switch, Agrees-block_first, Agrees-yield_if_lower,
)

pub Agrees-init_rows : (now : ℕ) → Agrees (init_rows now) (fsm_init now)
unfolding init_rows fsm_init init_ports
Agrees-init_rows now = search row_rules depth 8

pub Agrees-idle_rows :
    (req : Request) (port : Option PortRef) (remote : Option NodeId)
    → Agrees (idle_rows req port remote) (fsm_idle req port remote)
unfolding idle_rows fsm_idle idle_nr
Agrees-idle_rows req_fs port remote = search row_rules
Agrees-idle_rows _ port remote = search row_rules

pub Agrees-protection_rows :
    (now : ℕ) (req : Request) (port : Option PortRef)
    → Agrees (protection_rows now req port) (fsm_protection now req port)
unfolding protection_rows fsm_protection
Agrees-protection_rows now req_fs port = search row_rules
Agrees-protection_rows now _ port = search row_rules

pub Agrees-manual_switch_rows :
    (now : ℕ) (req : Request) (port : Option PortRef)
    → Agrees (manual_switch_rows now req port) (fsm_manual_switch now req port)
unfolding manual_switch_rows fsm_manual_switch
Agrees-manual_switch_rows now req_fs port = search row_rules
Agrees-manual_switch_rows now _ port = search row_rules

pub Agrees-forced_switch_rows :
    (now : ℕ) (req : Request) (port : Option PortRef)
    → Agrees (forced_switch_rows now req port) (fsm_forced_switch now req port)
unfolding forced_switch_rows fsm_forced_switch
Agrees-forced_switch_rows now req_fs port = search row_rules
Agrees-forced_switch_rows now _ port = search row_rules

pub Agrees-pending_rows :
    (req : Request) (port : Option PortRef) (remote : Option NodeId)
    → Agrees (pending_rows req port remote) (fsm_pending req port remote)
unfolding pending_rows fsm_pending
Agrees-pending_rows req_fs port remote = search row_rules
Agrees-pending_rows raps_nr_rb port remote =
    unfold pending_nr_rb block_rpl_silently in search row_rules depth 9
Agrees-pending_rows _ port remote = search row_rules depth 8
