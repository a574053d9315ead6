-- ===== src/Sim/Client.antt =====
-- extras/sim/ring-ctl.c, the client of the daemon: the message that a command line sends. Words are
-- lists of ASCII codes.
use erps.Common.{ℕ, ◌%◌, ◌/◌, Bool, ◌||◌, Option, none, some, List, [], ◌∷◌, ◌==◌, if◌then◌else◌}
use erps.Ring.Lifecycle.{same_name}
use erps.Sim.Daemon.{Command, status, clear, ms, fs, fail, recover, command_code}

-- The end of the program: `exit_usage(1)`, `exit(1)`, or 0 behind the bytes that were sent.
pub data Exit : Type 0 where
  usage : Exit
  failure : Exit
  sent : List ℕ → Exit

abbrev pub port0_word : List ℕ
port0_word = 112 ∷ 111 ∷ 114 ∷ 116 ∷ 48 ∷ []

abbrev pub port1_word : List ℕ
port1_word = 112 ∷ 111 ∷ 114 ∷ 116 ∷ 49 ∷ []

abbrev pub info_word : List ℕ
info_word = 105 ∷ 110 ∷ 102 ∷ 111 ∷ []

abbrev pub word : Command → List ℕ
word status = 115 ∷ 116 ∷ 97 ∷ 116 ∷ 117 ∷ 115 ∷ []
word clear = 99 ∷ 108 ∷ 101 ∷ 97 ∷ 114 ∷ []
word ms = 109 ∷ 115 ∷ []
word fs = 102 ∷ 115 ∷ []
word fail = 102 ∷ 97 ∷ 105 ∷ 108 ∷ []
word recover = 114 ∷ 101 ∷ 99 ∷ 111 ∷ 118 ∷ 101 ∷ 114 ∷ []

-- The bytes between `cmd` and `param` of `struct ring_io_req`, which nothing sets.
pub record Padding : Type 0 where
  pub b1 : ℕ
  pub b2 : ℕ
  pub b3 : ℕ

-- The eight bytes of `struct ring_io_req`; `connected` is the success of `socket` and `connect`.
unfoldable pub ring_io_send_msg : Bool → Padding → ℕ → ℕ → Exit
ring_io_send_msg connected pad code arg =
    if connected
    then sent (
        code
        ∷ pad.b1
        ∷ pad.b2
        ∷ pad.b3
        ∷ arg % 256
        ∷ arg / 256 % 256
        ∷ arg / 65536 % 256
        ∷ arg / 16777216 % 256
        ∷ [])
    else failure

-- `port` behind the parsing of the port name; `none` is an invalid one.
unfoldable pub parse_port : Option (List ℕ) → Option ℕ
parse_port none = some 0
parse_port (some port_name) =
    if same_name port_name port0_word
    then some 0xf0
    else if same_name port_name port1_word
    then some 0xf1
    else none

-- The commands that need a port.
unfoldable pub port_command : List ℕ → Option Command
port_command cmd =
    if same_name cmd (word fs)
    then some fs
    else if same_name cmd (word ms)
    then some ms
    else if same_name cmd (word fail)
    then some fail
    else if same_name cmd (word recover)
    then some recover
    else none

unfoldable pub send_port_command : Bool → Padding → Option Command → ℕ → Exit
unfolding ring_io_send_msg
send_port_command connected pad none port = failure
send_port_command connected pad (some cmd) port =
    ring_io_send_msg connected pad (command_code cmd) port

unfoldable pub parse_command : Bool → Padding → List ℕ → ℕ → Exit
unfolding ring_io_send_msg port_command send_port_command
parse_command connected pad cmd port =
    if same_name cmd (word clear)
    then ring_io_send_msg connected pad (command_code clear) 0
    else if same_name cmd info_word || same_name cmd (word status)
    then ring_io_send_msg connected pad (command_code status) 0
    else if port == 0
    then failure
    else send_port_command connected pad (port_command cmd) port

unfoldable pub with_port : Bool → Padding → List ℕ → Option ℕ → Exit
unfolding parse_command
with_port connected pad cmd none = usage
with_port connected pad cmd (some port) = parse_command connected pad cmd port

-- `argv`, with the name of the program.
unfoldable pub main : Bool → Padding → List (List ℕ) → Exit
unfolding parse_port with_port
main connected pad (name ∷ cmd ∷ []) = with_port connected pad cmd (parse_port none)
main connected pad (name ∷ cmd ∷ port_name ∷ []) =
    with_port connected pad cmd (parse_port (some port_name))
main connected pad _ = usage
