-- ===== src/Node/Idle.antt =====
-- How the ring of a node comes to IDLE.
use erps.Common.{
  ℕ, Bool, Option, none, some, List, ◌≡◌, ◌≢◌, inl, inr, refl, sym, arith, Option-cases, ◌∙◌, ap,
}
use erps.Ring.{
  State, init, idle, protection, manual_switch, forced_switch, pending, Request, raps_nr_rb, Ring,
}
use erps.Ring.Receive.{Clock}
use erps.Ring.Lifecycle.{Kernel, er_destroy_all_rings}
use erps.Ring.Transitions.{target}
use erps.Netmap.{er_netmap_on_recv}
use erps.Control.{Erreq, Command, eriocinit, Answer, er_ioctl}
use erps.Control.Init.{er_ioctl_init, er_ioctl_unchanged}
use erps.Control.Module.{mod_load, mod_unload, other, er_module_handler}
use erps.Node.{Event, frame, ioctl, module_event, step}
use erps.Node.Moves.{Holds, Moves}
use erps.Node.Refines.{IsRemote, remote_lem, received-Moves}

-- An ioctl leaves a ring that is there.
ioctl_keeps :
    (k : Kernel) (cmd : Command) (req : Option Erreq) (r : Ring) {a : Answer}
    → er_ioctl k cmd req (some r) ≡ some a
    → a.er_global ≡ some r
ioctl_keeps k eriocinit none r run = unfold er_ioctl in ground (arith, run)
ioctl_keeps k eriocinit (some req) r run = elim (er_ioctl_init k req (some r) run) [
  | inl (same, _) ↦ same
  | inr (empty, _, _, _) ↦ absurd (ground (arith, empty))
]
ioctl_keeps k cmd req r run = (er_ioctl_unchanged k cmd req (some r) (λ e. ground (arith, e)) run).0

-- The rows that lead to IDLE for a remote request.
target_idle :
    (s : State) (req : Request) (b : Bool)
    → IsRemote req
    → s ≢ idle
    → target s req b ≡ idle
    → req ≡ raps_nr_rb
target_idle init req b h n e = ground (arith, e)
target_idle idle req b h n e = absurd (n refl)
target_idle protection req b h n e = ground (arith, h, e)
target_idle manual_switch req b h n e = ground (arith, h, e)
target_idle forced_switch req b h n e = ground (arith, h, e)
target_idle pending req b h n e = ground (arith, h, e)

to_idle :
    (buf : List ℕ) (len : ℕ) (s s' : State)
    → s ≢ idle
    → s' ≡ idle
    → Moves buf len s s'
    → Holds buf len raps_nr_rb
to_idle buf len s s' n i (inl e) = absurd (n (sym e ∙ i))
to_idle buf len s s' n i (inr (req, b, (raps, parsed, q), e)) =
    let rb : req ≡ raps_nr_rb = target_idle s req b (remote_lem raps q) n (sym e ∙ i) in
    (raps, parsed, q ∙ ap some rb)

module _ (nm_bdg_noport : ℕ) (netmap_bdg_learning : List ℕ → ℕ → ℕ) where
  -- A ring that comes to IDLE from another state has received a frame with a message NR and RB: of all events nothing
  -- else leads there, not even on the owner of the RPL.
  pub step_to_idle :
      (e : Event) (r r' : Ring)
      → step nm_bdg_noport netmap_bdg_learning e (some r) ≡ some (some r')
      → r.state ≢ idle
      → r'.state ≡ idle
      → (clock : Clock) × (ring_nr : ℕ) × (buf : List ℕ) × (len : ℕ) × (bdg_port : ℕ) × (e
          ≡ frame clock ring_nr buf len bdg_port)
        × Holds buf len raps_nr_rb
  unfolding step er_module_handler er_destroy_all_rings
  step_to_idle (frame clock ring_nr buf len bdg_port) r r' h n i =
      elim (Option-cases (
        er_netmap_on_recv nm_bdg_noport netmap_bdg_learning clock ring_nr buf len bdg_port
          (some r))) [
            | inl e ↦ absurd (ground (arith, rw (e, step) at h))
            | inr ((port, g1), e) ↦
                let (r1, made, moved) =
                  received-Moves nm_bdg_noport netmap_bdg_learning clock ring_nr buf len bdg_port r
                    e in
                let same : r1 ≡ r' = ground (arith, made, rw (e, step) at h) in
                (
                  clock,
                  ring_nr,
                  buf,
                  len,
                  bdg_port,
                  refl,
                  to_idle buf len r.state r1.state n (cc) moved,
                )
          ]
  step_to_idle (ioctl k cmd req) r r' h n i = elim (Option-cases (er_ioctl k cmd req (some r))) [
    | inl e ↦ absurd (ground (arith, rw (e, step) at h))
    | inr (a, e) ↦ absurd (n (ground (arith, ioctl_keeps k cmd req r e, i, rw (e, step) at h)))
  ]
  step_to_idle (module_event err mod_load) r r' h n i = absurd (ground (arith, h))
  step_to_idle (module_event err mod_unload) r r' h n i = absurd (ground (arith, h))
  step_to_idle (module_event err other) r r' h n i = absurd (n (ground (arith, h, i)))
