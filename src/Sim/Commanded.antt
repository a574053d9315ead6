-- ===== src/Sim/Commanded.antt =====
-- What the daemon makes of each command of its client.
use erps.Common.{
  ℕ, ◌+◌, ◌*◌, ◌≤◌, true, Option, none, some, List, [], ◌∷◌, ◌≡◌, ◌≢◌, refl, arith, take,
}
use erps.Ring.{PortRef, ref0, ref1, Ring}
use erps.Sim.Outcome.{crashed}
use erps.Sim.Daemon.{
  Command, status, clear, ms, fs, fail, recover, command_code, param_port, execute, rio_client,
}
use erps.Sim.Client.{
  sent, Padding, word, port0_word, port1_word, ring_io_send_msg, parse_port, port_command,
  send_port_command, parse_command, with_port, main,
}

-- How a port is written on the command line.
abbrev pub port_word : PortRef → List ℕ
port_word ref0 = port0_word
port_word ref1 = port1_word

-- The port that a command works on.
abbrev pub needed : Command → PortRef → Option PortRef
needed status p = none
needed clear p = none
needed _ p = some p

-- The lowest byte of `param`.
abbrev param_byte : Command → PortRef → ℕ
param_byte status p = 0
param_byte clear p = 0
param_byte _ ref0 = 0xf0
param_byte _ ref1 = 0xf1

-- The message of a command.
abbrev pub request : Padding → Command → ℕ → List ℕ
request pad cmd param = command_code cmd ∷ pad.b1 ∷ pad.b2 ∷ pad.b3 ∷ param ∷ 0 ∷ 0 ∷ 0 ∷ []

main-word :
    (pad : Padding) (name : List ℕ) (cmd : Command) (p : PortRef)
    → main true pad (name ∷ word cmd ∷ port_word p ∷ []) ≡ sent (request pad cmd (param_byte cmd p))
unfolding main parse_port with_port parse_command port_command send_port_command ring_io_send_msg
main-word pad name status ref0 = refl
main-word pad name status ref1 = refl
main-word pad name clear ref0 = refl
main-word pad name clear ref1 = refl
main-word pad name ms ref0 = refl
main-word pad name ms ref1 = refl
main-word pad name fs ref0 = refl
main-word pad name fs ref1 = refl
main-word pad name fail ref0 = refl
main-word pad name fail ref1 = refl
main-word pad name recover ref0 = refl
main-word pad name recover ref1 = refl

pub rio_client-request :
    (pad : Padding) (cmd : Command) (param rest now : ℕ) (r : Ring)
    → rio_client now (take 5 (request pad cmd param)) rest r
      ≡ execute now (some cmd) (param_port (param + 256 * rest)) r
unfolding rio_client
rio_client-request pad status param rest now r = refl
rio_client-request pad clear param rest now r = refl
rio_client-request pad ms param rest now r = refl
rio_client-request pad fs param rest now r = refl
rio_client-request pad fail param rest now r = refl
rio_client-request pad recover param rest now r = refl

found : (cmd : Command) (p : PortRef) → param_port (param_byte cmd p) ≡ needed cmd p
found status p = refl
found clear p = refl
found ms ref0 = refl
found ms ref1 = refl
found fs ref0 = refl
found fs ref1 = refl
found fail ref0 = refl
found fail ref1 = refl
found recover ref0 = refl
found recover ref1 = refl

no_port : (param rest : ℕ) → param ≤ 255 → rest ≢ 0 → param_port (param + 256 * rest) ≡ none
no_port param rest small n = ground arith

byte : (cmd : Command) (p : PortRef) → param_byte cmd p ≤ 255
byte status p = ground arith
byte clear p = ground arith
byte _ ref0 = ground arith
byte _ ref1 = ground arith

crashes :
    (cmd : Command) (p : PortRef) (now : ℕ) (r : Ring)
    → needed cmd p ≡ some p
    → execute now (some cmd) none r ≡ crashed
unfolding execute
crashes status p now r e = ground (arith, e)
crashes clear p now r e = ground (arith, e)
crashes ms p now r e = refl
crashes fs p now r e = refl
crashes fail p now r e = refl
crashes recover p now r e = refl

-- A connected client with a command and a port sends a message at which the daemon executes that command, on that port
-- if it needs one, as long as the bytes of `param` that the daemon does not receive are zero. If they are not, the
-- daemon follows a null pointer at every command that needs a port.
pub rio_client-main :
    (pad : Padding) (name : List ℕ) (cmd : Command) (p : PortRef) (now : ℕ) (r : Ring)
    → (msg : List ℕ) × (main true pad (name ∷ word cmd ∷ port_word p ∷ []) ≡ sent msg)
      × (rio_client now (take 5 msg) 0 r ≡ execute now (some cmd) (needed cmd p) r)
      × ((rest : ℕ)
          → rest ≢ 0
          → needed cmd p ≡ some p
          → rio_client now (take 5 msg) rest r ≡ crashed)
rio_client-main pad name cmd p now r =
    let same : param_byte cmd p + 256 * 0 ≡ param_byte cmd p = omega arith in
    (
      request pad cmd (param_byte cmd p),
      main-word pad name cmd p,
      rw (rio_client-request pad cmd (param_byte cmd p) 0 now r, same, found cmd p) refl,
      λ rest n e.
          rw
            (
              rio_client-request pad cmd (param_byte cmd p) rest now r,
              no_port (param_byte cmd p) rest (byte cmd p) n,
            )
            (crashes cmd p now r e),
    )
