-- ===== src/Sim/Started.antt =====
-- The daemon that `main` of extras/sim/ringd.c starts.
use erps.Common.{
  ℕ, true, false, Option, none, some, List, [], ◌∷◌, ◌≡◌, ◌≢◌, ◌⊎◌, inl, inr, refl, arith, length,
  Bool-cases, Option-cases,
}
use erps.Ring.{PortRef}
use erps.Sim.Outcome.{Outcome, done}
use erps.Sim.Daemon.{Daemon}
use erps.Sim.Arguments.{IsUnusable, HasRplPort, unusable_lem, rpl_lem, role_port, no_role_port}
use erps.Sim.Created.{IsUp, ring_create-IsUp}
use erps.Sim.Setup.{
  Flag, Options, System, no_options, parse_flags, ring_port_create, new_port, bad_arguments,
  start_io, start, check_arguments, main,
}

-- The system gives the daemon what it asks for.
pub record IsAvailable (s : System) : Type 0 where
  pub opens : (dev : List ℕ) → s.opens dev ≡ true
  pub allocated : s.allocated ≡ true
  pub garbage : length s.garbage ≡ 55
  pub io_starts : s.io_starts ≡ true
  pub selectable : s.selectable ≡ true

-- The daemon that `main` starts from its options and arguments.
pub record Starts (s : System) (o : Options) (p0 p1 node : List ℕ)
    (result : Option (Outcome Daemon)) : Type 0 where
  pub daemon : Daemon
  pub rpl_port : Option PortRef
  pub run : result ≡ some (done daemon)
  pub rpl : HasRplPort o p0 p1 rpl_port
  pub up :
      IsUp
        (new_port p0)
        (new_port p1)
        rpl_port
        o.is_rpl_owner
        o.is_rpl_neighbour
        (s.sscanf node)
        daemon.ring
  pub first : daemon.repeat ≡ 1000

started :
    (s : System) (o : Options) (p0 p1 node : List ℕ)
    → IsAvailable s
    → bad_arguments o p0 p1 node ≡ false
    → Starts s o p0 p1 node (some (start s o p0 p1 node))
unfolding start ring_port_create start_io
started s o p0 p1 node h good =
    let (q, found, rpl) = rpl_lem o p0 p1 node good in
    let (r, run, up) =
      ring_create-IsUp s.now s.garbage (new_port p0) (new_port p1) (s.sscanf node) q o.is_rpl_owner
        o.is_rpl_neighbour h.garbage (role_port o p0 p1 q rpl) (no_role_port o p0 p1 q rpl) in
    record {
      daemon = record { ring = r; repeat = 1000 };
      rpl_port = q;
      run = rw (h.opens p0, h.opens p1, found, h.allocated, run, h.io_starts, h.selectable) refl;
      rpl = rpl;
      up = up;
      first = refl;
    }

-- `argv` are the two ports and the node id.
abbrev pub AreArguments : List (List ℕ) → List ℕ → List ℕ → List ℕ → Type 0
AreArguments argv p0 p1 node = argv ≡ p0 ∷ p1 ∷ node ∷ []

-- Why `main` ends in `exit_usage` behind the options.
abbrev pub IsRefused : Options → List (List ℕ) → Type 0
IsRefused o argv =
    (length argv ≢ 3)
    ⊎ (p0 : List ℕ) × (p1 : List ℕ) × (node : List ℕ) × AreArguments argv p0 p1 node
      × IsUnusable o p0 p1 node

check_arguments-Starts :
    (s : System) (argv : List (List ℕ)) (o : Options)
    → IsAvailable s
    → (check_arguments s argv o ≡ none) × IsRefused o argv
      ⊎ (p0 : List ℕ) × (p1 : List ℕ) × (node : List ℕ) × AreArguments argv p0 p1 node
        × Starts s o p0 p1 node (check_arguments s argv o)
unfolding check_arguments
check_arguments-Starts s [] o h = inl (refl, inl (λ n. ground (arith, n)))
check_arguments-Starts s (p0 ∷ []) o h = inl (refl, inl (λ n. ground (arith, n)))
check_arguments-Starts s (p0 ∷ p1 ∷ []) o h = inl (refl, inl (λ n. ground (arith, n)))
check_arguments-Starts s (p0 ∷ p1 ∷ node ∷ []) o h =
    elim (Bool-cases (bad_arguments o p0 p1 node)) [
      | inl e ↦ inl (rw e refl, inr (p0, p1, node, refl, unusable_lem o p0 p1 node e))
      | inr e ↦ inr (p0, p1, node, refl, rw e (started s o p0 p1 node h e))
    ]
check_arguments-Starts s (p0 ∷ p1 ∷ node ∷ more ∷ rest) o h =
    inl (refl, inl (λ n. omega (arith, n)))

pub main-Starts :
    (s : System) (flags : List Flag) (argv : List (List ℕ))
    → IsAvailable s
    → (main s flags argv ≡ none)
        × ((parse_flags flags no_options ≡ none)
            ⊎ (o : Options) × (parse_flags flags no_options ≡ some o) × IsRefused o argv)
      ⊎ (o : Options) × (p0 : List ℕ) × (p1 : List ℕ) × (node : List ℕ) × (parse_flags flags
            no_options
          ≡ some o)
        × AreArguments argv p0 p1 node
        × Starts s o p0 p1 node (main s flags argv)
unfolding main
main-Starts s flags argv h = elim (Option-cases (parse_flags flags no_options)) [
  | inl e ↦ inl (rw (e, main) refl, inl e)
  | inr (o, e) ↦ elim (check_arguments-Starts s argv o h) [
    | inl (f, refused) ↦ inl (rw (e, f, main) refl, inr (o, e, refused))
    | inr (p0, p1, node, given, starts) ↦ inr (o, p0, p1, node, e, given, rw (e, main) starts)
  ]
]
