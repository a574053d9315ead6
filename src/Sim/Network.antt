-- ===== src/Sim/Network.antt =====
-- Daemons of extras/sim on a line of links: each one is given what the one in front of it has sent on
-- the link between them, frame by frame, with one call of `port_cb` for each. A link loses nothing, and
-- there is memory for each message.
pub mod Message
pub mod Line
pub mod Alarm
pub mod Failing
pub mod Failure
pub mod Resting
pub mod Noting
pub mod Recovering
pub mod Recovery
pub mod Crossing
pub mod Restoration
pub mod Roles
pub mod Resending
pub mod Healing
use erps.Common.{
  ℕ, Bool, true, false, some, none, List, [], ◌∷◌, ◌++◌, length, if◌then◌else◌, Option,
}
use erps.Ring.{PortRef, ref0, ref1, same_port}
use erps.Sim.Outcome.{Outcome, done, ◌>>=◌}
use erps.Sim.Daemon.{Daemon, Sent, port_cb}

abbrev pub opposite : PortRef → PortRef
opposite ref0 = ref1
opposite ref1 = ref0

-- The frames that went out at the port, in their order.
unfoldable pub sent_on : PortRef → Sent → List (List ℕ)
sent_on p [] = []
sent_on p ((q, frame) ∷ sent) =
    let rest = sent_on p sent in if same_port (some p) (some q) then frame ∷ rest else rest

-- The daemon is given the frames on the port.
unfoldable pub receive_all : ℕ → PortRef → List (List ℕ) → Daemon → Outcome (Daemon × Sent)
unfolding port_cb
receive_all now p [] d = done (d, [])
receive_all now p (frame ∷ frames) d =
    port_cb now true p (some (frame, length frame)) d
    >>= (λ first. receive_all now p frames first.0 >>= (λ rest. done (rest.0, first.1 ++ rest.1)))

-- A node, and the port of it that the frames come in on.
pub record Hop : Type 0 where
  pub entry : PortRef
  pub daemon : Daemon

-- The daemons behind the frames, and what leaves the last one.
unfoldable pub along : ℕ → List (List ℕ) → List Hop → Outcome (List Hop × List (List ℕ))
unfolding receive_all sent_on
along now frames [] = done ([], frames)
along now frames (hop ∷ hops) = receive_all now hop.entry frames hop.daemon >>= (λ first.
    along now (sent_on (opposite hop.entry) first.1) hops
    >>= (λ rest. done (record hop { daemon = first.0 } ∷ rest.0, rest.1)))
