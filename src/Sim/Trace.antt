-- ===== src/Sim/Trace.antt =====
-- The events of the simulator, and the daemons that they lead to.
use mathlib.Core.Path.{subst}
use erps.Common.{
  ℕ, Bool, true, sym, ◌+◌, ◌*◌, ◌≤◌, length, none, some, List, [], ◌≡◌, refl, get_elem?,
}
use erps.Ring.{PortRef}
use erps.Ring.Running.{IsRunning}
use erps.Sim.Outcome.{Outcome, done, ◌>>=◌}
use erps.Sim.Daemon.{
  Daemon, Sent, port_cb, ring_timer_cb, send_raps_cb, command_of, param_port, rio_client,
}
use erps.Sim.Alive.{port_cb_runs, ring_timer_cb_runs, send_raps_cb-IsRunning}
use erps.Sim.Served.{IsServed, execute-Runs}

-- A frame on a ring port, a frame that could not be received, the two timers, and the bytes of a
-- command, with what stands in memory behind the copied ones. The first argument is the time, the second
-- one whether there is memory for a message.
pub data Event : Type 0 where
  frame : ℕ → Bool → PortRef → List ℕ → ℕ → Event
  lost : ℕ → Bool → PortRef → Event
  second : ℕ → Event
  burst : Event
  command : ℕ → List ℕ → ℕ → Event

unfoldable pub handle : Event → Daemon → Outcome (Daemon × Sent)
unfolding port_cb ring_timer_cb send_raps_cb rio_client
handle (frame now allocated p buf len) d = port_cb now allocated p (some (buf, len)) d
handle (lost now allocated p) d = port_cb now allocated p none d
handle (second now) d = ring_timer_cb now d
handle burst d = done (send_raps_cb d)
handle (command now msg rest) d =
    rio_client now msg rest d.ring >>= (λ r. done (record d { ring = r }, []))

-- A frame lies in its buffer, and there is memory for its message; a command has five bytes, a port if it needs one, and is not a second
-- CLEAR.
abbrev pub IsFit : Event → Daemon → Type 0
IsFit (frame now allocated p buf len) d = (len ≤ length buf) × (allocated ≡ true)
IsFit (lost now allocated p) d = Unit {0}
IsFit (second now) d = Unit {0}
IsFit burst d = Unit {0}
IsFit (command now msg rest) d =
    (length msg ≡ 5)
    × ((cmd : ℕ) × (low : ℕ) × (get_elem? msg 0 ≡ some cmd)
        × (get_elem? msg 4 ≡ some low)
        × IsServed (command_of cmd) (param_port (low + 256 * rest)) d.ring)

pub data Reaches (d : Daemon) : Daemon → Type 0 where
  here : Reaches d d
  next :
      {d1 d2 : Daemon} (e : Event) (sent : Sent)
      → Reaches d d1
      → IsFit e d1
      → handle e d1 ≡ done (d2, sent)
      → Reaches d d2

-- A running daemon handles every event with no exit and no fault, and is running behind it, if a frame lies in its
-- buffer and there is memory for its message, and a command has five bytes, has a port where it needs one and is not a
-- second CLEAR.
pub handle_runs :
    (e : Event) (d : Daemon)
    → IsRunning d.ring
    → IsFit e d
    → (d' : Daemon) × (sent : Sent) × (handle e d ≡ done (d', sent)) × IsRunning d'.ring
unfolding handle rio_client
handle_runs (frame now allocated p buf len) d h (fits, memory) =
    subst
      (λ a.
        (d' : Daemon) × (sent : Sent) × (port_cb now a p (some (buf, len)) d ≡ done (d', sent))
        × IsRunning d'.ring)
      (sym memory) (port_cb_runs now buf len fits p d h)
handle_runs (lost now allocated p) d h f = (d, [], unfold port_cb in refl, h)
handle_runs (second now) d h f = ring_timer_cb_runs now d h
handle_runs burst d h f = (_, _, refl, send_raps_cb-IsRunning d h)
handle_runs (command now msg rest) d h (size, fit) =
    let (cmd, low, e0, e4, served) = fit in
    let (r', run, h') =
      execute-Runs now (command_of cmd) (param_port (low + 256 * rest)) d.ring h served in
    (record d { ring = r' }, [], rw (size, e0, e4, run) refl, h')

-- A running daemon is running behind any number of fit events.
pub Reaches-IsRunning : {d d' : Daemon} → IsRunning d.ring → Reaches d d' → IsRunning d'.ring
Reaches-IsRunning h here = h
Reaches-IsRunning {d} {d'} h (next {d1} {d2} e sent r fit run) =
    let (d3, sent3, run3, h3) = handle_runs e d1 (Reaches-IsRunning h r) fit in
    let same : d3 ≡ d' = cc in subst (λ x. IsRunning x.ring) same h3
