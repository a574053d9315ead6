-- ===== src/Ctl.antt =====
-- The control program src/usr.sbin/erps-ctl/erps-ctl.c. `getopt` and `sscanf` are parameters; the
-- ioctls go to `er_ioctl`. Words are lists of ASCII codes. A result `none` is a fault, of the program
-- or of the kernel module.
pub mod Effects
pub mod Total
use erps.Common.{
  ℕ, Bool, true, false, not, ◌||◌, Option, none, some, List, [], ◌∷◌, ◌==◌, ltb, if◌then◌else◌,
  length, take, ◌>>=◌,
}
use erps.Raps.{NodeId, zero_id}
use erps.Ring.{Ring}
use erps.Ring.Lifecycle.{Kernel, same_name}
use erps.Control.{
  Erreq, Command, eriocinit, eriocstatus, erioccommand, Errno, success, Answer, er_ioctl,
}

-- The exit code, `er_global` behind the run, and a line of the status for each port: its name,
-- whether it is blocked, whether it has failed.
pub record Result : Type 0 where
  pub exit_code : ℕ
  pub er_global : Option Ring
  pub shown : List (List ℕ × Bool × Bool)

abbrev pub exit : ℕ → Option Ring → Result
exit exit_code g = record { exit_code = exit_code; er_global = g; shown = [] }

abbrev pub succeeded : Errno → Bool
succeeded success = true
succeeded _ = false

-- A request behind `bzero`, with the ring id 1.
abbrev pub blank : Erreq
blank = record {
  er_port0 = [];
  er_port1 = [];
  er_port0_failed = false;
  er_port1_failed = false;
  er_port0_blocked = false;
  er_port1_blocked = false;
  er_node_id = zero_id;
  er_id = 1;
  er_version = 0;
  er_guard_time = 0;
  er_wtr_time = 0;
  er_raps_vid = 0;
  er_revertive = 0;
  er_rpl_port = 0;
  er_rpl_owner = 0;
  er_rpl_neighbour = 0;
  er_cmd = 0;
}

-- The kernel hands `req` to the device and back.
unfoldable pub do_ioctl : Kernel → Command → Erreq → Option Ring → Option Answer
do_ioctl k id req g = er_ioctl k id (some req) g

abbrev pub lines : Option Erreq → List (List ℕ × Bool × Bool)
lines none = []
lines (some req) =
    (req.er_port0, req.er_port0_blocked, req.er_port0_failed)
    ∷ (req.er_port1, req.er_port1_blocked, req.er_port1_failed)
    ∷ []

-- What follows the ioctl of `show_ring_status`.
unfoldable pub print_status : Answer → Result
print_status a =
    if succeeded a.err
    then (record { exit_code = 0; er_global = a.er_global; shown = lines a.req })
    else exit 1 a.er_global

unfoldable pub show_ring_status : Kernel → Option Ring → Option Result
unfolding do_ioctl print_status
show_ring_status k g = do a ← do_ioctl k eriocstatus blank g; some (print_status a)

-- `strncpy` into a field of 16 characters.
abbrev pub copied : List ℕ → List ℕ
copied name = take 16 name

abbrev pub port_field : Option (List ℕ) → List ℕ
port_field none = []
port_field (some port) = copied port

unfoldable pub ring_command : Kernel → ℕ → Option (List ℕ) → Option Ring → Option Result
unfolding do_ioctl
ring_command k command port g = do
  a ← do_ioctl k erioccommand (record blank { er_cmd = command; er_port0 = port_field port }) g
  some (exit (if succeeded a.err then 0 else 1) a.er_global)

-- What one call of `getopt` returns in `init_ring`, with `optarg`.
pub data Flag : Type 0 where
  owner_of neighbour_of node_id_of : List ℕ → Flag
  help unknown : Flag

-- The variables that the options set.
pub record Options : Type 0 where
  pub is_rpl_owner : Bool
  pub is_rpl_neighbour : Bool
  pub rpl_port : Option (List ℕ)
  pub node_id : NodeId

abbrev pub no_options : Options
no_options = record {
  is_rpl_owner = false;
  is_rpl_neighbour = false;
  rpl_port = none;
  node_id = zero_id;
}

-- How the loop over the options ends.
pub data Parsed : Type 0 where
  read : Options → Parsed
  exits returns : Parsed

-- ERPS_RPL_NONE, ERPS_RPL_PORT0 or ERPS_RPL_PORT1; `none` is a port that is neither.
unfoldable pub rpl_field : Option (List ℕ) → List ℕ → List ℕ → Option ℕ
rpl_field none port0 port1 = some 0
rpl_field (some rpl_port) port0 port1 =
    if same_name rpl_port port0 then some 1 else if same_name rpl_port port1 then some 2 else none

unfoldable pub request : Options → List ℕ → List ℕ → ℕ → Erreq
request o port0 port1 rpl_port = record blank {
  er_version = 2;
  er_node_id = o.node_id;
  er_port0 = copied port0;
  er_port1 = copied port1;
  er_rpl_port = rpl_port;
  er_rpl_owner = if o.is_rpl_owner then 1 else 0;
  er_rpl_neighbour = if o.is_rpl_neighbour then 1 else 0;
}

-- `init_ring` behind its options. `main` ignores whether it returns true or false.
unfoldable pub send_init : Kernel → Options → List (List ℕ) → Option Ring → Option Result
unfolding do_ioctl rpl_field request
send_init k o (port0 ∷ port1 ∷ []) g = elim (rpl_field o.rpl_port port0 port1) [
  | none ↦ some (exit 0 g)
  | some rpl_port ↦ (do
    a ← do_ioctl k eriocinit (request o port0 port1 rpl_port) g
    some (exit 0 a.er_global))
]
send_init k o _ g = some (exit 0 g)

unfoldable pub init_parsed : Kernel → Parsed → List (List ℕ) → Option Ring → Option Result
unfolding send_init
init_parsed k (read o) ports g = send_init k o ports g
init_parsed k exits ports g = some (exit 1 g)
init_parsed k returns ports g = some (exit 0 g)

-- ERPS_CLEAR and its fellows; `none` is an invalid command.
unfoldable pub command_with_port : List ℕ → Option ℕ
command_with_port cmd =
    if same_name cmd (102 ∷ 115 ∷ [])
    then some 3
    else if same_name cmd (109 ∷ 115 ∷ [])
    then some 2
    else if same_name cmd (102 ∷ 97 ∷ 105 ∷ 108 ∷ [])
    then some 4
    else if same_name cmd (114 ∷ 101 ∷ 99 ∷ 111 ∷ 118 ∷ 101 ∷ 114 ∷ [])
    then some 5
    else none

unfoldable pub issue : Kernel → Option ℕ → List (List ℕ) → Option Ring → Option Result
unfolding ring_command
issue k _ [] g = some (exit 1 g)
issue k none (port ∷ more) g = some (exit 1 g)
issue k (some command) (port ∷ more) g = ring_command k command (some port) g

-- The words `clear`, `info`, `status` and `init`.
abbrev pub clear_word : List ℕ
clear_word = 99 ∷ 108 ∷ 101 ∷ 97 ∷ 114 ∷ []

abbrev pub is_status : List ℕ → Bool
is_status cmd =
    same_name cmd (105 ∷ 110 ∷ 102 ∷ 111 ∷ [])
    || same_name cmd (115 ∷ 116 ∷ 97 ∷ 116 ∷ 117 ∷ 115 ∷ [])

abbrev pub init_word : List ℕ
init_word = 105 ∷ 110 ∷ 105 ∷ 116 ∷ []

module _ (sscanf : List ℕ → NodeId) where
  unfoldable pub parse_flags : List Flag → Options → Parsed
  parse_flags [] o = read o
  parse_flags (owner_of name ∷ flags) o =
      parse_flags flags (record o { is_rpl_owner = true; rpl_port = some name })
  parse_flags (neighbour_of name ∷ flags) o =
      parse_flags flags (record o { is_rpl_neighbour = true; rpl_port = some name })
  parse_flags (node_id_of text ∷ flags) o =
      let rest = parse_flags flags (record o { node_id = sscanf text }) in
      if length text == 17 then rest else exits
  parse_flags (help ∷ flags) o = returns
  parse_flags (unknown ∷ flags) o = parse_flags flags o

-- `getopt` tells of an option among the arguments, and leaves the rest; the second one is that of
-- `init_ring`.
module _ (getopt : List (List ℕ) → Bool × List (List ℕ))
    (getopt_init : List (List ℕ) → List Flag × List (List ℕ)) (sscanf : List ℕ → NodeId) where
  unfoldable pub init_ring : Kernel → List (List ℕ) → Option Ring → Option Result
  unfolding init_parsed parse_flags
  init_ring k argv g =
      init_parsed k (parse_flags sscanf (getopt_init argv).0 no_options) (getopt_init argv).1 g

  -- A null pointer is compared if there is no command.
  unfoldable pub run_command : Kernel → List (List ℕ) → Option Ring → Option Result
  unfolding show_ring_status ring_command init_ring command_with_port issue
  run_command k [] g = none
  run_command k (cmd ∷ args) g =
      if same_name cmd clear_word
      then ring_command k 1 none g
      else if is_status cmd
      then show_ring_status k g
      else if same_name cmd init_word
      then (if ltb (length args) 2 then some (exit 1 g) else init_ring k (cmd ∷ args) g)
      else issue k (command_with_port cmd) args g

  -- `opened` is the success of opening the device; the arguments are without the name of the program.
  unfoldable pub main : Kernel → Bool → List (List ℕ) → Option Ring → Option Result
  unfolding run_command
  main k opened [] g = some (exit 1 g)
  main k opened (arg ∷ args) g =
      if not opened
      then some (exit 1 g)
      else if (getopt (arg ∷ args)).0
      then some (exit 0 g)
      else run_command k (getopt (arg ∷ args)).1 g
