-- ===== src/Sim/Requested.antt =====
-- What the daemon makes of any message of its client.
use erps.Common.{
  ℕ, ◌+◌, ◌*◌, ◌||◌, Bool, true, false, Option, none, some, List, [], ◌∷◌, ◌==◌, ◌≡◌, ◌≢◌, ◌⊎◌, inl,
  inr, refl, arith, take, Bool-cases, Option-cases,
}
use erps.Ring.{req_clear, PortRef, ref0, ref1, Ring}
use erps.Ring.Running.{IsRunning}
use erps.Ring.Lifecycle.{same_name}
use erps.Sim.Daemon.{
  Command, status, clear, ms, fs, fail, recover, command_code, param_port, rio_client,
}
use erps.Sim.Alive.{Runs}
use erps.Sim.Served.{IsServed, execute-Runs}
use erps.Sim.Client.{
  sent, Padding, word, ring_io_send_msg, parse_port, port_command, send_port_command, parse_command,
  with_port, main, info_word,
}
use erps.Sim.Commanded.{request, rio_client-request}

-- A message that a client may send, with a port if its command needs one.
abbrev IsRequest : Padding → List ℕ → Type 0
IsRequest pad msg =
    (cmd : Command) × (param : ℕ) × (msg ≡ request pad cmd param)
    × ((r : Ring) → r.prev_request ≢ req_clear → IsServed (some cmd) (param_port param) r)

-- `port` is no port, or one of the two.
abbrev IsPort : ℕ → Type 0
IsPort port = (port ≡ 0) ⊎ (port ≡ 0xf0) ⊎ (port ≡ 0xf1)

parse_port-IsPort : (name : Option (List ℕ)) {port : ℕ} → parse_port name ≡ some port → IsPort port
unfolding parse_port
parse_port-IsPort none h = ground (arith, h)
parse_port-IsPort (some name) h = ground (arith, h)

served :
    (cmd : Command) (p : PortRef) (r : Ring)
    → r.prev_request ≢ req_clear
    → IsServed (some cmd) (some p) r
served clear p r n = n
served status p r n = tt
served ms p r n = tt
served fs p r n = tt
served fail p r n = tt
served recover p r n = tt

port-IsServed :
    (cmd : Command) (port : ℕ) (r : Ring)
    → IsPort port
    → port ≢ 0
    → r.prev_request ≢ req_clear
    → IsServed (some cmd) (param_port port) r
port-IsServed cmd port r (inl e) n m = absurd (n e)
port-IsServed cmd port r (inr (inl e)) n m = rw e (served cmd ref0 r m)
port-IsServed cmd port r (inr (inr e)) n m = rw e (served cmd ref1 r m)

sent_request :
    (connected : Bool) (pad : Padding) (cmd : Command) (port : ℕ) {msg : List ℕ}
    → IsPort port
    → ring_io_send_msg connected pad (command_code cmd) port ≡ sent msg
    → msg ≡ request pad cmd port
unfolding ring_io_send_msg
sent_request false pad cmd port valid h = ground (arith, h)
sent_request true pad cmd port (inl e) h = ground (arith, h, e)
sent_request true pad cmd port (inr (inl e)) h = ground (arith, h, e)
sent_request true pad cmd port (inr (inr e)) h = ground (arith, h, e)

port_command-IsRequest :
    (connected : Bool) (pad : Padding) (cmd : Option Command) (port : ℕ) {msg : List ℕ}
    → IsPort port
    → port ≢ 0
    → send_port_command connected pad cmd port ≡ sent msg
    → IsRequest pad msg
unfolding send_port_command
port_command-IsRequest connected pad none port valid n h = ground (arith, h)
port_command-IsRequest connected pad (some cmd) port valid n h = (
  cmd,
  port,
  sent_request connected pad cmd port valid h,
  λ r m. port-IsServed cmd port r valid n m,
)

parse_command-IsRequest :
    (connected : Bool) (pad : Padding) (cmd : List ℕ) (port : ℕ) {msg : List ℕ}
    → IsPort port
    → parse_command connected pad cmd port ≡ sent msg
    → IsRequest pad msg
unfolding parse_command
parse_command-IsRequest connected pad cmd port valid h =
    elim (Bool-cases (same_name cmd (word clear))) [
      | inl e ↦ (clear, 0, sent_request connected pad clear 0 (inl refl) (rw e at h), λ r m. m)
      | inr e ↦ elim (Bool-cases (same_name cmd info_word || same_name cmd (word status))) [
        | inl f ↦
            (status, 0, sent_request connected pad status 0 (inl refl) (rw (e, f) at h), λ r m. tt)
        | inr f ↦ elim (Bool-cases (port == 0)) [
          | inl g ↦ absurd (ground (arith, rw (e, f, g) at h))
          | inr g ↦
              port_command-IsRequest connected pad (port_command cmd) port valid (ground (arith, g))
                (rw (e, f, g) at h)
        ]
      ]
    ]

with_port-IsRequest :
    (connected : Bool) (pad : Padding) (cmd : List ℕ) (name : Option (List ℕ)) {msg : List ℕ}
    → with_port connected pad cmd (parse_port name) ≡ sent msg
    → IsRequest pad msg
unfolding with_port
with_port-IsRequest connected pad cmd name h = elim (Option-cases (parse_port name)) [
  | inl e ↦ absurd (ground (arith, rw e at h))
  | inr (port, e) ↦
      parse_command-IsRequest connected pad cmd port (parse_port-IsPort name e) (rw e at h)
]

main-IsRequest :
    (connected : Bool) (pad : Padding) (argv : List (List ℕ)) {msg : List ℕ}
    → main connected pad argv ≡ sent msg
    → IsRequest pad msg
unfolding main
main-IsRequest connected pad [] h = ground (arith, h)
main-IsRequest connected pad (name ∷ []) h = ground (arith, h)
main-IsRequest connected pad (name ∷ cmd ∷ []) h = with_port-IsRequest connected pad cmd none h
main-IsRequest connected pad (name ∷ cmd ∷ port ∷ []) h =
    with_port-IsRequest connected pad cmd (some port) h
main-IsRequest connected pad (name ∷ cmd ∷ port ∷ more ∷ rest) h = ground (arith, h)

-- Whatever the command line: at a message that the client sends, a daemon whose ring is running and does not remember
-- a CLEAR goes on with no exit and no null pointer, if the bytes of `param` that it does not receive are zero.
pub main-Runs :
    (connected : Bool) (pad : Padding) (argv : List (List ℕ)) (now : ℕ) (r : Ring) {msg : List ℕ}
    → main connected pad argv ≡ sent msg
    → IsRunning r
    → r.prev_request ≢ req_clear
    → Runs (rio_client now (take 5 msg) 0 r)
main-Runs connected pad argv now r {msg} h running n =
    let (cmd, param, same, fit) = main-IsRequest connected pad argv h in
    let zero : param + 256 * 0 ≡ param = omega arith in
    rw (same, rio_client-request pad cmd param 0 now r, zero)
      (execute-Runs now (some cmd) (param_port param) r running (fit r n))
