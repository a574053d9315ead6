-- ===== src/Ctl/Effects.antt =====
-- What a run of erps-ctl does to the node.
use mathlib.Core.Path.{subst}
use erps.Common.{
  ℕ, Bool, true, false, Option, none, some, List, [], ◌∷◌, ◌≡◌, ◌⊎◌, inl, inr, refl, arith,
  Bool-cases, Option-cases, length, ltb,
}
use erps.Raps.{NodeId}
use erps.Ring.{Ring, pending}
use erps.Ring.Lifecycle.{Kernel, same_name, er_lookup_ring}
use erps.Ring.Total.{IsSound}
use erps.Control.{eriocinit, er_ioctl, ioctl_status}
use erps.Control.Init.{er_ioctl_init}
use erps.Ctl.{
  Result, exit, do_ioctl, print_status, show_ring_status, ring_command, Flag, Options, no_options,
  Parsed, read, exits, returns, rpl_field, request, send_init, init_parsed, command_with_port,
  issue, clear_word, is_status, init_word, parse_flags, init_ring, run_command, main,
}

-- A ring as `init` makes it: the defaults of `er_ioctl`, and no reversion.
pub record IsDefault (r : Ring) : Type 0 where
  pub sound : IsSound r
  pub in_pending : r.state ≡ pending
  pub active : r.active ≡ true
  pub stays : r.is_revertive ≡ false

-- A run leaves the node alone, or gives a node with no ring its ring.
abbrev pub IsEffect : Option Ring → Option Ring → Type 0
IsEffect g g' = (g' ≡ g) ⊎ ((g ≡ none) × ((r : Ring) × (g' ≡ some r) × IsDefault r))

send_init-IsEffect :
    (k : Kernel) (o : Options) (ports : List (List ℕ)) (g : Option Ring) {res : Result}
    → send_init k o ports g ≡ some res
    → (res.exit_code ≡ 0) × IsEffect g res.er_global
unfolding send_init do_ioctl request
send_init-IsEffect k o [] g h = ground (arith, h)
send_init-IsEffect k o (p ∷ []) g h = ground (arith, h)
send_init-IsEffect k o (p0 ∷ p1 ∷ []) g {res} h = elim (Option-cases (rpl_field o.rpl_port p0 p1)) [
  | inl e ↦ ground (arith, rw (e, send_init) at h)
  | inr (q, e) ↦ elim (Option-cases (er_ioctl k eriocinit (some (request o p0 p1 q)) g)) [
    | inl f ↦ absurd (ground (arith, rw (e, f, send_init) at h))
    | inr (a, f) ↦
        let same : exit 0 a.er_global ≡ res = ground (arith, rw (e, f, send_init) at h) in
        elim (er_ioctl_init k (request o p0 p1 q) g f) [
          | inl (kept, _) ↦ (cc, inl (cc))
          | inr (empty, _, _, (r, made, up)) ↦ (
            cc,
            inr (
              empty,
              (
                r,
                cc,
                record {
                  sound = up.sound;
                  in_pending = up.in_pending;
                  active = up.active;
                  stays = up.revertive;
                },
              ),
            ),
          )
        ]
  ]
]
send_init-IsEffect k o (p0 ∷ p1 ∷ p2 ∷ ps) g h = ground (arith, h)

init_parsed-IsEffect :
    (k : Kernel) (p : Parsed) (ports : List (List ℕ)) (g : Option Ring) {res : Result}
    → init_parsed k p ports g ≡ some res
    → IsEffect g res.er_global
unfolding init_parsed
init_parsed-IsEffect k (read o) ports g h = (send_init-IsEffect k o ports g h).1
init_parsed-IsEffect k exits ports g h = inl (ground (arith, h))
init_parsed-IsEffect k returns ports g h = inl (ground (arith, h))

-- The kernel module refuses every command.
pub ring_command_refused :
    (k : Kernel) (command : ℕ) (port : Option (List ℕ)) (g : Option Ring)
    → ring_command k command port g ≡ some (exit 1 g)
unfolding ring_command do_ioctl er_ioctl
ring_command_refused k command port g = refl

pub issue_refused :
    (k : Kernel) (command : Option ℕ) (args : List (List ℕ)) (g : Option Ring)
    → issue k command args g ≡ some (exit 1 g)
unfolding issue
issue_refused k command [] g = refl
issue_refused k none (port ∷ more) g = refl
issue_refused k (some command) (port ∷ more) g = ring_command_refused k command (some port) g

-- What `show_ring_status` ends with, at each node.
abbrev pub status_of : Option Ring → Result
status_of none = exit 1 none
status_of (some r) = record {
  exit_code = 0;
  er_global = some r;
  shown =
      (r.port0.name, r.port0.is_blocked, r.port0.is_failed)
      ∷ (r.port1.name, r.port1.is_blocked, r.port1.is_failed)
      ∷ [];
}

pub show_ring_status_lem :
    (k : Kernel) (g : Option Ring) → show_ring_status k g ≡ some (status_of g)
unfolding show_ring_status do_ioctl print_status er_ioctl ioctl_status er_lookup_ring
show_ring_status_lem k none = refl
show_ring_status_lem k (some r) = refl

status_kept : (g : Option Ring) → (status_of g).er_global ≡ g
status_kept none = refl
status_kept (some r) = refl

module _ (getopt : List (List ℕ) → Bool × List (List ℕ))
    (getopt_init : List (List ℕ) → List Flag × List (List ℕ)) (sscanf : List ℕ → NodeId) where
  run_command-IsEffect :
      (k : Kernel) (args : List (List ℕ)) (g : Option Ring) {res : Result}
      → run_command getopt getopt_init sscanf k args g ≡ some res
      → IsEffect g res.er_global
  unfolding run_command init_ring
  run_command-IsEffect k [] g h = ground (arith, h)
  run_command-IsEffect k (cmd ∷ args) g {res} h = elim (Bool-cases (same_name cmd clear_word)) [
    | inl e ↦ inl (ground (arith, rw (e, ring_command_refused k 1 none g, run_command) at h))
    | inr e ↦ elim (Bool-cases (is_status cmd)) [
      | inl f ↦
          let same : status_of g ≡ res =
            ground (arith, rw (e, f, show_ring_status_lem k g, run_command) at h) in
          inl (subst (λ x. x.er_global ≡ g) same (status_kept g))
      | inr f ↦ elim (Bool-cases (same_name cmd init_word)) [
        | inl i ↦ elim (Bool-cases (ltb (length args) 2)) [
          | inl l ↦ inl (ground (arith, rw (e, f, i, l, run_command) at h))
          | inr l ↦
              init_parsed-IsEffect k (parse_flags sscanf (getopt_init (cmd ∷ args)).0 no_options)
                (getopt_init (cmd ∷ args)).1 g (rw (e, f, i, l, run_command) at h)
        ]
        | inr i ↦ inl (
            ground (
              arith,
              rw (e, f, i, issue_refused k (command_with_port cmd) args g, run_command) at h,
            ))
      ]
    ]
  ]

  -- Every run of erps-ctl that ends with no fault leaves the ring of the node alone, or gives a node with no ring one
  -- that is sound, active and in PENDING, and not revertive, whatever the arguments.
  pub main-IsEffect :
      (k : Kernel) (opened : Bool) (args : List (List ℕ)) (g : Option Ring) {res : Result}
      → main getopt getopt_init sscanf k opened args g ≡ some res
      → IsEffect g res.er_global
  unfolding main
  main-IsEffect k opened [] g h = inl (ground (arith, h))
  main-IsEffect k false (a ∷ args) g h = inl (ground (arith, h))
  main-IsEffect k true (a ∷ args) g h = elim (Bool-cases (getopt (a ∷ args)).0) [
    | inl e ↦ inl (ground (arith, rw (e, main) at h))
    | inr e ↦ run_command-IsEffect k (getopt (a ∷ args)).1 g (rw (e, main) at h)
  ]

  -- Behind options of no kind, every word but `info`, `status` and `init` ends with the exit code 1 and leaves the
  -- node alone: the commands clear, ms, fs, fail and recover have no effect.
  pub main_refused :
      (k : Kernel) (opened : Bool) (arg cmd : List ℕ) (args rest : List (List ℕ)) (g : Option Ring)
      → getopt (arg ∷ args) ≡ (false, cmd ∷ rest)
      → is_status cmd ≡ false
      → same_name cmd init_word ≡ false
      → main getopt getopt_init sscanf k opened (arg ∷ args) g ≡ some (exit 1 g)
  unfolding main run_command
  main_refused k false arg cmd args rest g e f i = refl
  main_refused k true arg cmd args rest g e f i = elim (Bool-cases (same_name cmd clear_word)) [
    | inl c ↦ rw (e, c, ring_command_refused k 1 none g) refl
    | inr c ↦ rw (e, c, f, i, issue_refused k (command_with_port cmd) rest g) refl
  ]

  -- With the device open, `info` and `status` print the name of both ports of the ring, and whether they are blocked
  -- and have failed; with no ring they end with the exit code 1. They leave the node alone.
  pub main_status :
      (k : Kernel) (arg cmd : List ℕ) (args rest : List (List ℕ)) (g : Option Ring)
      → getopt (arg ∷ args) ≡ (false, cmd ∷ rest)
      → is_status cmd ≡ true
      → main getopt getopt_init sscanf k true (arg ∷ args) g ≡ some (status_of g)
  unfolding main run_command
  main_status k arg cmd args rest g e f =
      let other : same_name cmd clear_word ≡ false = ground (arith, f) in
      rw (e, other, f, show_ring_status_lem k g) refl
