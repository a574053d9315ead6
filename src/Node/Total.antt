-- ===== src/Node/Total.antt =====
-- A node over one event and over many.
use mathlib.Core.Path.{subst, sym}
use erps.Common.{ℕ, ◌≢◌, Option, none, some, List, ◌≡◌, inl, inr, refl, arith}
use erps.Ring.{Ring}
use erps.Ring.Lifecycle.{Kernel, er_destroy_all_rings}
use erps.Netmap.Total.{IsNode, er_netmap_on_recv-total}
use erps.Control.{Erreq, Command, eriocinit, Answer, er_ioctl}
use erps.Control.Init.{er_ioctl_init, er_ioctl_unchanged, er_ioctl-total}
use erps.Control.Module.{ModuleEvent, mod_load, mod_unload, other, er_module_handler}
use erps.Node.{Event, frame, ioctl, module_event, IsFit, step}

unchanged :
    (k : Kernel) (cmd : Command) (req : Option Erreq) (g : Option Ring) {a : Answer}
    → cmd ≢ eriocinit
    → IsNode g
    → er_ioctl k cmd req g ≡ some a
    → IsNode a.er_global
unchanged k cmd req g n h run = subst IsNode (sym (er_ioctl_unchanged k cmd req g n run).0) h

pub er_ioctl-IsNode :
    (k : Kernel) (cmd : Command) (req : Option Erreq) (g : Option Ring) {a : Answer}
    → IsNode g
    → er_ioctl k cmd req g ≡ some a
    → IsNode a.er_global
er_ioctl-IsNode k eriocinit none g {a} h run =
    let same : g ≡ a.er_global = unfold er_ioctl in ground (arith, run) in subst IsNode same h
er_ioctl-IsNode k eriocinit (some req) g h run = elim (er_ioctl_init k req g run) [
  | inl (same, _) ↦ subst IsNode (sym same) h
  | inr (_, _, _, (r, made, up)) ↦ subst IsNode (sym made) up.sound
]
er_ioctl-IsNode k cmd req g h run = unchanged k cmd req g (λ e. ground (arith, e)) h run

er_module_handler-IsNode :
    (err : ℕ) (e : ModuleEvent) (g : Option Ring)
    → IsNode g
    → IsNode (er_module_handler err e g).er_global
unfolding er_module_handler er_destroy_all_rings
er_module_handler-IsNode err mod_load g h = tt
er_module_handler-IsNode err mod_unload none h = tt
er_module_handler-IsNode err mod_unload (some r) h = tt
er_module_handler-IsNode err other g h = h

module _ (nm_bdg_noport : ℕ) (netmap_bdg_learning : List ℕ → ℕ → ℕ) where
  -- A node with no ring or a sound one takes every frame, ioctl and module event with no fault, and stays such a node,
  -- if a frame lies in its buffer and there is memory for its message, and for the message of a ring that an ioctl
  -- creates.
  pub step-total :
      (e : Event) (g : Option Ring)
      → IsFit e
      → IsNode g
      → (g' : Option Ring) × (step nm_bdg_noport netmap_bdg_learning e g ≡ some g') × IsNode g'
  unfolding step
  step-total (frame clock ring_nr buf len bdg_port) g (fits, memory) h =
      let (port, g', run, _, h', _) =
        er_netmap_on_recv-total nm_bdg_noport netmap_bdg_learning clock ring_nr buf len bdg_port g
          fits memory h in
      (g', rw run refl, h')
  step-total (ioctl k cmd req) g fits h =
      let (a, run) = er_ioctl-total k cmd req g fits in
      (a.er_global, rw run refl, er_ioctl-IsNode k cmd req g h run)
  step-total (module_event err e) g fits h = (_, refl, er_module_handler-IsNode err e g h)
