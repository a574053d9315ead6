-- ===== src/Sim.antt =====
-- The simulator (extras/sim): a program in user space with a copy of the state machine.
-- `struct ring` of extras/sim/ring.h is the record `Ring`, whose last four fields it does not have;
-- `struct ring_port` is `Port`, with no use of `idx`. ring_raps.c holds the parser and the encoder of
-- er_raps.c.
pub mod Actions
pub mod Rows
pub mod Agrees
pub mod Same
pub mod Outcome
pub mod Fsm
pub mod Equal
pub mod Node
pub mod Daemon
pub mod Alive
pub mod Served
pub mod Trace
pub mod Clear
pub mod Created
pub mod Burst
pub mod Reversion
pub mod Client
pub mod Commanded
pub mod Requested
pub mod Setup
pub mod Arguments
pub mod Started
pub mod Relay
pub mod Network
pub mod Io
use erps.Common.{Bool, Option, none, some, if◌then◌else◌}
use erps.Ring.{State, PortRef, Ring, Act}
use erps.Sim.Actions.{is_port_blocked}

-- A part of a row: `ring_fsm` keeps `new_state` in a variable, beside the ring.
abbrev pub Step : Type 0
Step = Ring → State → Option (Ring × State)

infixl 5 ◌>>◌
unfoldable pub ◌>>◌ : Step → Step → Step
◌>>◌ a b r s = elim (a r s) [ none ↦ none | some (r', s') ↦ b r' s' ]

-- An action, which leaves `new_state`.
unfoldable pub on : Act → Step
on a r s = elim (a r) [ none ↦ none | some r' ↦ some (r', s) ]

-- `new_state = t`.
unfoldable pub goto : State → Step
goto t r s = some (r, t)

unfoldable pub skip : Step
skip r s = some (r, s)

unfoldable pub when : (Ring → Bool) → Step → Step
when test a r s = if test r then a r s else some (r, s)

unfoldable pub either : (Ring → Bool) → Step → Step → Step
either test a b r s = if test r then a r s else b r s

-- `if (is_port_blocked(port)) a else b`.
unfoldable pub if_port_blocked : Option PortRef → Step → Step → Step
unfolding is_port_blocked
if_port_blocked port a b r s = elim (is_port_blocked port r) [
  | none ↦ none
  | some blocked ↦ if blocked then a r s else b r s
]

-- A step that is given `r->rpl_port`.
unfoldable pub at_rpl : (Option PortRef → Step) → Step
at_rpl f r s = f r.rpl_port r s
