-- ===== src/Node/Refines.antt =====
-- The node as an abstract machine on the states of the protocol.
use mathlib.Core.Path.{subst}
use erps.Common.{
  ℕ, Bool, Option, none, some, List, ◌≡◌, ◌⊎◌, inl, inr, refl, arith, Bool-cases, Option-cases, ◌∙◌,
  ap,
}
use erps.Raps.{Raps}
use erps.Ring.{
  State, pending, Request, raps_nr, raps_nr_rb, req_raps_ms, req_raps_sf, req_raps_fs, Ring,
}
use erps.Ring.Receive.{Clock, request_of, er_forward_lookup}
use erps.Ring.Lifecycle.{Kernel, er_lookup_ring, er_destroy_all_rings}
use erps.Ring.Transitions.{target}
use erps.Netmap.{recv_port_of, er_netmap_on_recv}
use erps.Control.{Erreq, Command, eriocinit, Answer, er_ioctl}
use erps.Control.Init.{er_ioctl_init, er_ioctl_unchanged}
use erps.Control.Module.{ModuleEvent, mod_load, mod_unload, other, er_module_handler}
use erps.Node.{Event, frame, ioctl, module_event, step, Reaches, here, next}
use erps.Node.Moves.{Moves, er_forward_lookup-Moves}

-- What the abstract machine sees of a node: no ring, or the state of its ring.
abbrev pub phase : Option Ring → Option State
phase none = none
phase (some r) = some r.state

-- A request that a message of another node brings.
abbrev pub IsRemote : Request → Type 0
IsRemote req =
    (req ≡ raps_nr)
    ⊎ (req ≡ raps_nr_rb)
    ⊎ (req ≡ req_raps_ms)
    ⊎ (req ≡ req_raps_sf)
    ⊎ (req ≡ req_raps_fs)

-- One step of the abstract machine: nothing, a new ring in PENDING, the new state by the protocol for a remote
-- request, but for row 35, or the end of the ring.
pub data Allows (p q : Option State) : Type 0 where
  stays : q ≡ p → Allows p q
  created : p ≡ none → q ≡ some pending → Allows p q
  heard :
      (s : State) (req : Request) (blocked : Bool)
      → IsRemote req
      → p ≡ some s
      → q ≡ some (target s req blocked)
      → Allows p q
  removed : q ≡ none → Allows p q

pub data Follows (p : Option State) : Option State → Type 0 where
  start : Follows p p
  then : {q r : Option State} → Follows p q → Allows q r → Follows p r

pub remote_lem : (raps : Raps) {req : Request} → request_of raps ≡ some req → IsRemote req
unfolding request_of
remote_lem raps h = ground (arith, h)

Moves-Allows :
    (buf : List ℕ) (len : ℕ) (s s' : State) → Moves buf len s s' → Allows (some s) (some s')
Moves-Allows buf len s s' (inl e) = stays (ap some e)
Moves-Allows buf len s s' (inr (req, b, (raps, _, q), e)) =
    heard s req b (remote_lem raps q) refl (ap some e)

ioctl-Allows :
    (k : Kernel) (cmd : Command) (req : Option Erreq) (g : Option Ring) {a : Answer}
    → er_ioctl k cmd req g ≡ some a
    → Allows (phase g) (phase a.er_global)
ioctl-Allows k eriocinit none g {a} run =
    let same : a.er_global ≡ g = unfold er_ioctl in ground (arith, run) in stays (ap phase same)
ioctl-Allows k eriocinit (some req) g run = elim (er_ioctl_init k req g run) [
  | inl (same, _) ↦ stays (ap phase same)
  | inr (empty, _, _, (r, made, up)) ↦
      created (ap phase empty) (ap phase made ∙ ap some up.in_pending)
]
ioctl-Allows k cmd req g run =
    stays (ap phase (er_ioctl_unchanged k cmd req g (λ e. ground (arith, e)) run).0)

module-Allows :
    (err : ℕ) (e : ModuleEvent) (g : Option Ring)
    → Allows (phase g) (phase (er_module_handler err e g).er_global)
unfolding er_module_handler er_destroy_all_rings
module-Allows err mod_load g = removed refl
module-Allows err mod_unload none = removed refl
module-Allows err mod_unload (some r) = removed refl
module-Allows err other g = stays refl

module _ (nm_bdg_noport : ℕ) (netmap_bdg_learning : List ℕ → ℕ → ℕ) where
  pub received-Moves :
      (clock : Clock) (ring_nr : ℕ) (buf : List ℕ) (len bdg_port : ℕ) (r : Ring) {port : ℕ}
      {g' : Option Ring}
      → er_netmap_on_recv nm_bdg_noport netmap_bdg_learning clock ring_nr buf len bdg_port (some r)
        ≡ some (port, g')
      → (r' : Ring) × (g' ≡ some r') × Moves buf len r.state r'.state
  unfolding er_netmap_on_recv er_lookup_ring
  received-Moves clock ring_nr buf len bdg_port r {port} {g'} h = elim (Bool-cases r.active) [
    | inr e ↦ (r, ground (arith, rw (e, er_netmap_on_recv) at h), inl refl)
    | inl e ↦ elim (Option-cases (er_forward_lookup clock (recv_port_of r bdg_port) buf len r)) [
      | inl f ↦ absurd (ground (arith, rw (f, e, er_netmap_on_recv) at h))
      | inr ((pass, r'), f) ↦ (
        r',
        ground (arith, rw (f, e, er_netmap_on_recv) at h),
        er_forward_lookup-Moves clock buf len (recv_port_of r bdg_port) r f,
      )
    ]
  ]

  frame-Allows :
      (clock : Clock) (ring_nr : ℕ) (buf : List ℕ) (len bdg_port : ℕ) (g : Option Ring) {port : ℕ}
      {g' : Option Ring}
      → er_netmap_on_recv nm_bdg_noport netmap_bdg_learning clock ring_nr buf len bdg_port g
        ≡ some (port, g')
      → Allows (phase g) (phase g')
  frame-Allows clock ring_nr buf len bdg_port none {port} {g'} h =
      let same : g' ≡ none = unfold er_netmap_on_recv er_lookup_ring in ground (arith, h) in
      stays (ap phase same)
  frame-Allows clock ring_nr buf len bdg_port (some r) {port} {g'} h =
      let (r', made, moved) = received-Moves clock ring_nr buf len bdg_port r h in
      rw made (Moves-Allows buf len r.state r'.state moved)

  step-Allows :
      (e : Event) (g : Option Ring) {g' : Option Ring}
      → step nm_bdg_noport netmap_bdg_learning e g ≡ some g'
      → Allows (phase g) (phase g')
  unfolding step
  step-Allows (frame clock ring_nr buf len bdg_port) g {g'} h =
      elim (Option-cases
        (er_netmap_on_recv nm_bdg_noport netmap_bdg_learning clock ring_nr buf len bdg_port g)) [
          | inl e ↦ absurd (ground (arith, rw (e, step) at h))
          | inr ((port, g1), e) ↦
              let same : g1 ≡ g' = ground (arith, rw (e, step) at h) in
              subst (λ x. Allows (phase g) (phase x)) same
                (frame-Allows clock ring_nr buf len bdg_port g e)
        ]
  step-Allows (ioctl k cmd req) g {g'} h = elim (Option-cases (er_ioctl k cmd req g)) [
    | inl e ↦ absurd (ground (arith, rw (e, step) at h))
    | inr (a, e) ↦
        let same : a.er_global ≡ g' = ground (arith, rw (e, step) at h) in
        subst (λ x. Allows (phase g) (phase x)) same (ioctl-Allows k cmd req g e)
  ]
  step-Allows (module_event err e) g {g'} h =
      let same : (er_module_handler err e g).er_global ≡ g' = ground (arith, h) in
      subst (λ x. Allows (phase g) (phase x)) same (module-Allows err e g)

  -- Whatever the events: the states that the ring of a node goes through are a run of the abstract machine, in which a
  -- ring appears in PENDING and changes its state only as the protocol does for the five requests that messages bring,
  -- until it is gone; but on R-APS(SF) in MANUAL_SWITCH (row 35) it stays, where the protocol leads to PROTECTION.
  pub Reaches-Follows :
      {g g' : Option Ring}
      → Reaches nm_bdg_noport netmap_bdg_learning g g'
      → Follows (phase g) (phase g')
  Reaches-Follows here = start
  Reaches-Follows (next {g1} {g2} e r fit run) = then (Reaches-Follows r) (step-Allows e g1 run)
