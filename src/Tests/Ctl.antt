-- ===== src/Tests/Ctl.antt =====
-- Runs of erps-ctl, and the theorems at these.
use erps.Common.{ℕ, Bool, true, false, none, some, List, [], ◌∷◌, ◌≡◌, refl}
use erps.Raps.{NodeId, er_raps_encode}
use erps.Ring.{Ring, start_tx}
use erps.Ring.Fsm.{ring_fsm, dupe, group}
use erps.Ring.Lifecycle.{
  er_ring_create, join_ports, er_port_create, finish_ring, new_ring, er_lookup_ring,
  er_activate_ring,
}
use erps.Control.{er_ioctl, install, configure, create_for, bad_rpl, ioctl_init}
use erps.Ctl.{
  Flag, owner_of, exit, clear_word, init_word, main, do_ioctl, send_init, init_parsed, parse_flags,
  init_ring, run_command, rpl_field,
}
use erps.Ctl.Effects.{IsEffect, status_of, main-IsEffect, main_refused, main_status}
use erps.Tests.{there}
use erps.Tests.Creation.{kernel, name0, name1, up}

-- No option in front of the command, and `-o` with the first port behind `init`.
abbrev getopt : List (List ℕ) → Bool × List (List ℕ)
getopt args = (false, args)

abbrev getopt_init : List (List ℕ) → List Flag × List (List ℕ)
getopt_init args = (owner_of name0 ∷ [], name0 ∷ name1 ∷ [])

abbrev sscanf : List ℕ → NodeId
sscanf text = there

abbrev made : Ring
made = record up { is_revertive = false }

init_run :
    main getopt getopt_init sscanf kernel true (init_word ∷ name0 ∷ name1 ∷ []) none
    ≡ some (exit 0 (some made))
unfolding main run_command init_ring parse_flags init_parsed send_init rpl_field do_ioctl er_ioctl
    ioctl_init er_lookup_ring install create_for configure er_activate_ring er_ring_create
    join_ports er_port_create finish_ring new_ring ring_fsm dupe group start_tx er_raps_encode
    bad_rpl
init_run = refl

main-IsEffect_example : IsEffect none (some made)
main-IsEffect_example =
    main-IsEffect getopt getopt_init sscanf kernel true (init_word ∷ name0 ∷ name1 ∷ []) none
      init_run

main_refused_example :
    main getopt getopt_init sscanf kernel true (clear_word ∷ []) (some made)
    ≡ some (exit 1 (some made))
main_refused_example =
    main_refused getopt getopt_init sscanf kernel true clear_word clear_word [] [] (some made) refl
      refl refl

abbrev info : List ℕ
info = 105 ∷ 110 ∷ 102 ∷ 111 ∷ []

main_status_example :
    main getopt getopt_init sscanf kernel true (info ∷ []) (some made)
    ≡ some (status_of (some made))
main_status_example =
    main_status getopt getopt_init sscanf kernel info info [] [] (some made) refl refl
