-- ===== src/Node.antt =====
-- A node of the kernel module as a whole: what `er_global` points to, over the frames that the bridge
-- hands to er_netmap.c and the ioctls and module events that reach erps.c.
pub mod Total
pub mod Moves
pub mod Refines
pub mod Idle
use erps.Common.{ℕ, ◌≤◌, length, true, Option, none, some, List, ◌≡◌, ◌>>=◌}
use erps.Ring.{Ring}
use erps.Ring.Receive.{Clock}
use erps.Ring.Lifecycle.{Kernel}
use erps.Netmap.{er_netmap_on_recv}
use erps.Control.{Erreq, Command, er_ioctl}
use erps.Control.Module.{ModuleEvent, er_module_handler}

-- A frame with the time, the number of the ring, the buffer, the length and the port of the bridge;
-- an ioctl; an event of the module, with what `make_dev_p` returns.
pub data Event : Type 0 where
  frame : Clock → ℕ → List ℕ → ℕ → ℕ → Event
  ioctl : Kernel → Command → Option Erreq → Event
  module_event : ℕ → ModuleEvent → Event

-- A frame lies in its buffer, and there is memory for its message or for that of a new ring.
abbrev pub IsFit : Event → Type 0
IsFit (frame clock ring_nr buf len bdg_port) = (len ≤ length buf) × (clock.raps_allocated ≡ true)
IsFit (ioctl k cmd req) = k.raps_allocated ≡ true
IsFit (module_event err e) = Unit {0}

module _ (nm_bdg_noport : ℕ) (netmap_bdg_learning : List ℕ → ℕ → ℕ) where
  -- `er_global` behind an event; `none` is a fault.
  unfoldable pub step : Event → Option Ring → Option (Option Ring)
  step (frame clock ring_nr buf len bdg_port) g = do
    (port, g') ←
        er_netmap_on_recv nm_bdg_noport netmap_bdg_learning clock ring_nr buf len bdg_port g
    some g'
  step (ioctl k cmd req) g = do a ← er_ioctl k cmd req g; some a.er_global
  step (module_event err e) g = some (er_module_handler err e g).er_global

  -- The nodes that fit events lead to.
  pub data Reaches (g : Option Ring) : Option Ring → Type 0 where
    here : Reaches g g
    next :
        {g1 g2 : Option Ring} (e : Event)
        → Reaches g g1
        → IsFit e
        → step e g1 ≡ some g2
        → Reaches g g2
