-- ===== src/Ctl/Total.antt =====
-- Runs of erps-ctl and their end.
use erps.Common.{
  ℕ, Bool, true, false, Option, none, some, List, [], ◌∷◌, ◌≡◌, inl, inr, refl, Bool-cases,
  Option-cases, length, ltb,
}
use erps.Raps.{NodeId}
use erps.Ring.{Ring}
use erps.Ring.Lifecycle.{Kernel, same_name}
use erps.Control.{eriocinit}
use erps.Control.Init.{er_ioctl-total}
use erps.Ctl.{
  Result, do_ioctl, Flag, Options, no_options, Parsed, read, exits, returns, rpl_field, request,
  send_init, init_parsed, command_with_port, clear_word, is_status, init_word, parse_flags,
  init_ring, run_command, main,
}
use erps.Ctl.Effects.{ring_command_refused, issue_refused, show_ring_status_lem}

-- The computation ends with no fault.
abbrev pub Ends : Option Result → Type 0
Ends o = (res : Result) × (o ≡ some res)

send_init-Ends :
    (k : Kernel) (o : Options) (ports : List (List ℕ)) (g : Option Ring)
    → k.raps_allocated ≡ true
    → Ends (send_init k o ports g)
unfolding send_init do_ioctl
send_init-Ends k o [] g h = (_, refl)
send_init-Ends k o (p0 ∷ []) g h = (_, refl)
send_init-Ends k o (p0 ∷ p1 ∷ []) g h = elim (Option-cases (rpl_field o.rpl_port p0 p1)) [
  | inl e ↦ rw (e, send_init) (_, refl)
  | inr (q, e) ↦
      let (a, run) = er_ioctl-total k eriocinit (some (request o p0 p1 q)) g h in
      rw (e, run, send_init) (_, refl)
]
send_init-Ends k o (p0 ∷ p1 ∷ p2 ∷ ps) g h = (_, refl)

init_parsed-Ends :
    (k : Kernel) (p : Parsed) (ports : List (List ℕ)) (g : Option Ring)
    → k.raps_allocated ≡ true
    → Ends (init_parsed k p ports g)
unfolding init_parsed
init_parsed-Ends k (read o) ports g h = send_init-Ends k o ports g h
init_parsed-Ends k exits ports g h = (_, refl)
init_parsed-Ends k returns ports g h = (_, refl)

module _ (getopt : List (List ℕ) → Bool × List (List ℕ))
    (getopt_init : List (List ℕ) → List Flag × List (List ℕ)) (sscanf : List ℕ → NodeId) where
  run_command-Ends :
      (k : Kernel) (cmd : List ℕ) (args : List (List ℕ)) (g : Option Ring)
      → k.raps_allocated ≡ true
      → Ends (run_command getopt getopt_init sscanf k (cmd ∷ args) g)
  unfolding run_command init_ring
  run_command-Ends k cmd args g h = elim (Bool-cases (same_name cmd clear_word)) [
    | inl e ↦ rw (e, ring_command_refused k 1 none g, run_command) (_, refl)
    | inr e ↦ elim (Bool-cases (is_status cmd)) [
      | inl f ↦ rw (e, f, show_ring_status_lem k g, run_command) (_, refl)
      | inr f ↦ elim (Bool-cases (same_name cmd init_word)) [
        | inl i ↦ elim (Bool-cases (ltb (length args) 2)) [
          | inl l ↦ rw (e, f, i, l, run_command) (_, refl)
          | inr l ↦
              rw (e, f, i, l, run_command)
                (init_parsed-Ends k (parse_flags sscanf (getopt_init (cmd ∷ args)).0 no_options)
                  (getopt_init (cmd ∷ args)).1 g h)
        ]
        | inr i ↦
            rw (e, f, i, issue_refused k (command_with_port cmd) args g, run_command) (_, refl)
      ]
    ]
  ]

  -- Unless the kernel module has no memory for a message, erps-ctl ends with no fault, whatever the device and the
  -- ring, if its options leave it a command.
  pub main-Ends :
      (k : Kernel) (opened : Bool) (arg cmd : List ℕ) (args rest : List (List ℕ)) (options : Bool)
      (g : Option Ring)
      → k.raps_allocated ≡ true
      → getopt (arg ∷ args) ≡ (options, cmd ∷ rest)
      → Ends (main getopt getopt_init sscanf k opened (arg ∷ args) g)
  unfolding main
  main-Ends k false arg cmd args rest options g h e = (_, refl)
  main-Ends k true arg cmd args rest true g h e = rw (e, main) (_, refl)
  main-Ends k true arg cmd args rest false g h e = rw (e, main) (run_command-Ends k cmd rest g h)
