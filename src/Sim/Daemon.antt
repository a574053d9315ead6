-- ===== src/Sim/Daemon.antt =====
-- The callbacks of extras/sim/ringd.c and the commands of extras/sim/ring_io.c.
use erps.Common.{
  ℕ, ◌+◌, ◌-◌, ◌*◌, Bool, true, false, not, Option, none, some, List, [], ◌∷◌, ltb, ◌==◌,
  if◌then◌else◌, take, length, get_elem?,
}
use erps.Raps.{NodeId, er_is_raps_frame, er_is_local_raps_frame}
use erps.Ring.{req_clear, req_ms, req_fs, req_sf, req_clear_sf, PortRef, ref0, ref1, Ring, port_of}
use erps.Sim.Actions.{ring_port_is_blocked, ring_other_port}
use erps.Sim.Outcome.{Outcome, done, crashed, ◌>>=◌, lift}
use erps.Sim.Fsm.{ring_process_request}
use erps.Sim.Node.{ring_timer, ring_process_raps, ring_send_raps}

-- The ring, and `repeat` of the timer of `send_raps_cb`, in milliseconds.
pub record Daemon : Type 0 where
  pub ring : Ring
  pub repeat : ℕ

abbrev pub Sent : Type 0
Sent = List (PortRef × List ℕ)

unfoldable pub is_erps_frame : List ℕ → ℕ → Option Bool
unfolding er_is_raps_frame
is_erps_frame = er_is_raps_frame

unfoldable pub is_local_erps_frame : List ℕ → ℕ → NodeId → Option Bool
unfolding er_is_local_raps_frame
is_local_erps_frame buf len node_id = er_is_local_raps_frame node_id buf len

-- The message goes on to the other port, unless the port that it came in on is blocked.
unfoldable pub relay : PortRef → List ℕ → ℕ → Ring → Sent
unfolding ring_port_is_blocked
relay port buf len r = elim (ring_other_port (some port)) [
  | none ↦ []
  | some other_port ↦
      if ring_port_is_blocked (port_of r port) then [] else (other_port, take len buf) ∷ []
]

-- `none` is a frame that could not be received; `allocated` says whether there is memory for a message.
unfoldable pub port_cb : ℕ → Bool → PortRef → Option (List ℕ × ℕ) → Daemon → Outcome (Daemon × Sent)
port_cb now allocated port none d = done (d, [])
port_cb now allocated port (some (buf, len)) d = lift (is_erps_frame buf len) >>= (λ is_raps.
    if not is_raps
    then done (d, [])
    else (lift (is_local_erps_frame buf len d.ring.node_id) >>= (λ own.
        if own
        then done (d, [])
        else (ring_process_raps now allocated buf len port d.ring
            >>= (λ r. done (record d { ring = r }, relay port buf len r))))))

unfoldable pub ring_timer_cb : ℕ → Daemon → Outcome (Daemon × Sent)
ring_timer_cb now d = ring_timer now d.ring >>= (λ r. done (record d { ring = r }, []))

-- A burst has 10 ms between two frames; then there are 5 s.
unfoldable pub send_raps_cb : Daemon → Daemon × Sent
unfolding ring_send_raps
send_raps_cb d =
    if not d.ring.is_sending_raps
    then (d, [])
    else if ltb 0 d.ring.raps_bursts_remain
    then (
      record {
        ring = record d.ring { raps_bursts_remain = d.ring.raps_bursts_remain - 1 };
        repeat = 10;
      },
      ring_send_raps d.ring,
    )
    else (record d { repeat = 5000 }, ring_send_raps d.ring)

pub data Command : Type 0 where
  status clear ms fs fail recover : Command

-- RING_IO_CMD_STATUS and its fellows.
abbrev pub command_code : Command → ℕ
command_code status = 1
command_code clear = 2
command_code ms = 3
command_code fs = 4
command_code fail = 5
command_code recover = 6

abbrev pub command_of : ℕ → Option Command
command_of c =
    if c == 1
    then some status
    else if c == 2
    then some clear
    else if c == 3
    then some ms
    else if c == 4
    then some fs
    else if c == 5
    then some fail
    else if c == 6
    then some recover
    else none

-- RING_IO_PORT0 and RING_IO_PORT1; any other parameter leaves `port` null.
abbrev pub param_port : ℕ → Option PortRef
param_port param = if param == 0xf1 then some ref1 else if param == 0xf0 then some ref0 else none

unfoldable pub set_failed : Bool → PortRef → Ring → Ring
set_failed failed ref0 r = record r { port0 = record r.port0 { is_failed = failed } }
set_failed failed ref1 r = record r { port1 = record r.port1 { is_failed = failed } }

-- The `switch` of `rio_client`. All commands with a port print its name.
unfoldable pub execute : ℕ → Option Command → Option PortRef → Ring → Outcome Ring
unfolding set_failed
execute now none port r = done r
execute now (some status) port r = done r
execute now (some clear) port r = ring_process_request now req_clear none none r
execute now (some ms) none r = crashed
execute now (some fs) none r = crashed
execute now (some fail) none r = crashed
execute now (some recover) none r = crashed
execute now (some ms) (some p) r = ring_process_request now req_ms (some p) none r
execute now (some fs) (some p) r = ring_process_request now req_fs (some p) none r
execute now (some fail) (some p) r =
    ring_process_request now req_sf (some p) none (set_failed true p r)
execute now (some recover) (some p) r =
    ring_process_request now req_clear_sf (some p) none (set_failed false p r)

-- The five bytes of a request hold `cmd` and the lowest byte of `param`, which stands behind three
-- bytes of padding; `rest` is what the other three bytes of `param` hold.
unfoldable pub rio_client : ℕ → List ℕ → ℕ → Ring → Outcome Ring
unfolding execute
rio_client now msg rest r =
    if not (length msg == 5)
    then done r
    else (lift (get_elem? msg 0) >>= (λ cmd.
        lift (get_elem? msg 4)
        >>= (λ low. execute now (command_of cmd) (param_port (low + 256 * rest)) r)))
