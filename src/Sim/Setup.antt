-- ===== src/Sim/Setup.antt =====
-- `main` of extras/sim/ringd.c up to its event loop, and `ring_port_create` of extras/sim/ring_port.c.
use erps.Common.{
  ℕ, Bool, true, false, not, ◌&&◌, ◌||◌, Option, none, some, List, [], ◌∷◌, ◌==◌, if◌then◌else◌,
  length,
}
use erps.Raps.{NodeId}
use erps.Port.{Port}
use erps.Ring.{PortRef, ref0, ref1, Ring}
use erps.Ring.Lifecycle.{same_name}
use erps.Sim.Outcome.{Outcome, done, died, ◌>>=◌}
use erps.Sim.Node.{ring_create}
use erps.Sim.Daemon.{Daemon}

-- What one call of `getopt` returns, with `optarg`.
pub data Flag : Type 0 where
  owner_of neighbour_of : List ℕ → Flag
  other : Flag

-- The variables that the options set.
pub record Options : Type 0 where
  pub is_rpl_owner : Bool
  pub is_rpl_neighbour : Bool
  pub rpl_port_name : Option (List ℕ)

-- What the calls of the system return: `pcap_open_live` and its fellows for each device, `malloc` and
-- the memory that it hands out, the six numbers that `sscanf` reads as bytes, the socket and the
-- thread of `ring_io_init`, the descriptors of both devices.
pub record System : Type 0 where
  pub now : ℕ
  pub opens : List ℕ → Bool
  pub allocated : Bool
  pub garbage : List ℕ
  pub sscanf : List ℕ → NodeId
  pub io_starts : Bool
  pub selectable : Bool

abbrev pub no_options : Options
no_options = record { is_rpl_owner = false; is_rpl_neighbour = false; rpl_port_name = none }

-- `none` is the call of `exit_usage`.
unfoldable pub parse_flags : List Flag → Options → Option Options
parse_flags [] o = some o
parse_flags (owner_of name ∷ flags) o =
    parse_flags flags (record o { is_rpl_owner = true; rpl_port_name = some name })
parse_flags (neighbour_of name ∷ flags) o =
    parse_flags flags (record o { is_rpl_neighbour = true; rpl_port_name = some name })
parse_flags (other ∷ flags) o = none

abbrev pub new_port : List ℕ → Port
new_port dev = record { name = dev; idx = 0; is_blocked = false; is_failed = false }

unfoldable pub ring_port_create : System → List ℕ → Outcome Port
ring_port_create s dev = if s.opens dev then done (new_port dev) else died

-- `strcmp(port_name, rpl_port_name) == 0`; the name is there if the node has a role.
abbrev pub is_named : Option (List ℕ) → List ℕ → Bool
is_named none port_name = false
is_named (some name) port_name = same_name port_name name

abbrev pub has_role : Options → Bool
has_role o = o.is_rpl_owner || o.is_rpl_neighbour

-- The checks of the arguments.
unfoldable pub bad_arguments : Options → List ℕ → List ℕ → List ℕ → Bool
bad_arguments o port0_name port1_name node_id_str =
    not (length node_id_str == 17)
    || same_name port0_name port1_name
    || (o.is_rpl_owner && o.is_rpl_neighbour)
    || (has_role o
        && not (is_named o.rpl_port_name port0_name)
        && not (is_named o.rpl_port_name port1_name))

unfoldable pub find_rpl_port : Options → List ℕ → List ℕ → Outcome (Option PortRef)
find_rpl_port o port0_name port1_name =
    if not (has_role o)
    then done none
    else if is_named o.rpl_port_name port0_name
    then done (some ref0)
    else if is_named o.rpl_port_name port1_name
    then done (some ref1)
    else died

-- The timer of `send_raps_cb` starts with 1 s.
unfoldable pub start_io : System → Ring → Outcome Daemon
start_io s ring =
    if s.io_starts && s.selectable then done (record { ring = ring; repeat = 1000 }) else died

unfoldable pub start : System → Options → List ℕ → List ℕ → List ℕ → Outcome Daemon
unfolding ring_port_create find_rpl_port start_io
start s o port0_name port1_name node_id_str = ring_port_create s port0_name >>= (λ port0.
    ring_port_create s port1_name >>= (λ port1.
      find_rpl_port o port0_name port1_name >>= (λ rpl_port.
        ring_create s.now s.allocated s.garbage port0 port1 rpl_port o.is_rpl_owner
          o.is_rpl_neighbour (s.sscanf node_id_str)
        >>= start_io s)))

-- `none` is the call of `exit_usage`; the arguments are those behind the options.
unfoldable pub check_arguments : System → List (List ℕ) → Options → Option (Outcome Daemon)
unfolding bad_arguments start
check_arguments s (port0_name ∷ port1_name ∷ node_id_str ∷ []) o =
    if bad_arguments o port0_name port1_name node_id_str
    then none
    else some (start s o port0_name port1_name node_id_str)
check_arguments s _ o = none

unfoldable pub main : System → List Flag → List (List ℕ) → Option (Outcome Daemon)
unfolding parse_flags check_arguments
main s flags argv = elim (parse_flags flags no_options) [
  | none ↦ none
  | some o ↦ check_arguments s argv o
]
