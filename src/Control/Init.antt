-- ===== src/Control/Init.antt =====
-- What the ioctls do to the ring of the node.
use erps.Common.{
  ◌+◌, ◌≤◌, true, false, Option, none, some, List, ◌≡◌, ◌⊎◌, ◌≢◌, inl, inr, refl, arith, Bool-cases,
  Option-cases,
}
use erps.Ring.{Ring, pending}
use erps.Ring.Lifecycle.{Kernel, NetmapCall, er_lookup_ring, er_activate_ring}
use erps.Ring.Total.{IsSound}
use erps.Ring.Created.{er_ring_create-IsNew, er_ring_create-total}
use erps.Control.{
  Erreq, Command, eriocinit, success, einval, Answer, truth, bad_rpl, configure, create_for,
  install, refuse, ioctl_init, ioctl_status, er_ioctl, eriocstatus,
}

-- The configuration that a new ring has: every timer and the VLAN in their ranges.
pub record IsInRange (r : Ring) : Type 0 where
  pub vid_low : 1 ≤ r.raps_vid
  pub vid_high : r.raps_vid ≤ 4093
  pub guard_low : 10 ≤ r.guard_time
  pub guard_high : r.guard_time ≤ 2000
  pub wtr_low : 60000 ≤ r.wtr_time
  pub wtr_high : r.wtr_time ≤ 720000
  pub wtb : r.wtb_time ≡ r.guard_time + 5000

configured_range : (req : Erreq) (r : Ring) → IsInRange (er_activate_ring (configure req r)).1
unfolding configure er_activate_ring
configured_range req r = ground arith

-- The ring in `er_global` behind a successful creation.
pub record IsUp (req : Erreq) (r : Ring) : Type 0 where
  pub range : IsInRange r
  pub sound : IsSound r
  pub in_pending : r.state ≡ pending
  pub active : r.active ≡ true
  pub revertive : r.is_revertive ≡ truth req.er_revertive

configure-IsSound :
    (req : Erreq) (r : Ring) → IsSound r → IsSound (er_activate_ring (configure req r)).1
unfolding configure er_activate_ring
configure-IsSound req r h = record {
  has_rpl = h.has_rpl;
  frame = record {
    buffer = h.frame.buffer;
    buffer_len = h.frame.buffer_len;
    in_sync = h.frame.in_sync;
  };
}

install-IsUp :
    (k : Kernel) (req : Erreq) (c : Option Ring × List NetmapCall)
    → create_for k req ≡ some c
    → ((install req c).er_global ≡ none) × ((install req c).err ≡ einval)
      ⊎ ((install req c).err ≡ success)
        × ((r : Ring) × ((install req c).er_global ≡ some r) × IsUp req r)
unfolding install create_for
install-IsUp k req (none, calls) h = inl (refl, refl)
install-IsUp k req (some r, calls) h =
    let new = er_ring_create-IsNew k req.er_id req.er_port0 req.er_port1 _ _ req.er_node_id h in
    let up : IsUp req (er_activate_ring (configure req r)).1 = record {
      range = configured_range req r;
      sound = configure-IsSound req r new.sound;
      in_pending = unfold configure er_activate_ring in new.started.in_pending;
      active = unfold configure er_activate_ring in refl;
      revertive = unfold configure er_activate_ring in refl;
    } in
    inr (refl, (_, refl, up))

init_answer :
    (k : Kernel) (req : Erreq) (g : Option Ring) {a : Answer}
    → ioctl_init k req g ≡ some a
    → (a.er_global ≡ g) × (a.err ≡ einval)
      ⊎ (g ≡ none)
        × (bad_rpl req ≡ false)
        × (a.err ≡ success)
        × ((r : Ring) × (a.er_global ≡ some r) × IsUp req r)
unfolding ioctl_init refuse
init_answer k req (some r) h = inl (ground arith)
init_answer k req none {a} h = elim (Bool-cases (bad_rpl req)) [
  | inl e ↦ inl (ground arith)
  | inr e ↦ elim (Option-cases (create_for k req)) [
    | inl f ↦ absurd (ground arith)
    | inr (c, f) ↦
        let same : install req c ≡ a = ground arith in
        elim (install-IsUp k req c f) [
          | inl (unchanged, err) ↦ inl (cc, cc)
          | inr (err, (r, there, up)) ↦ inr (refl, e, cc, (r, cc, up))
        ]
  ]
]

-- ERIOCINIT either fails with EINVAL and leaves `er_global` alone, or there was no ring and the
-- RPL configuration is sound: then it succeeds, and the ring of the node is sound, active and in
-- PENDING, has the requested reversion, and its VLAN and timers lie in their ranges.
pub er_ioctl_init :
    (k : Kernel) (req : Erreq) (g : Option Ring) {a : Answer}
    → er_ioctl k eriocinit (some req) g ≡ some a
    → (a.er_global ≡ g) × (a.err ≡ einval)
      ⊎ (g ≡ none)
        × (bad_rpl req ≡ false)
        × (a.err ≡ success)
        × ((r : Ring) × (a.er_global ≡ some r) × IsUp req r)
unfolding er_ioctl er_lookup_ring
er_ioctl_init k req g h = init_answer k req g h

-- No command but ERIOCINIT changes the ring of the node, and with no request every such command fails with EINVAL.
pub er_ioctl_unchanged :
    (k : Kernel) (cmd : Command) (req : Option Erreq) (g : Option Ring) {a : Answer}
    → cmd ≢ eriocinit
    → er_ioctl k cmd req g ≡ some a
    → (a.er_global ≡ g) × (req ≡ none → a.err ≡ einval)
unfolding er_ioctl er_lookup_ring ioctl_status
er_ioctl_unchanged k cmd none g n h = ground arith
er_ioctl_unchanged k eriocinit (some q) g n h = absurd (n refl)
er_ioctl_unchanged k eriocstatus (some q) none n h = ground arith
er_ioctl_unchanged k eriocstatus (some q) (some r) n h = ground arith
er_ioctl_unchanged k _ (some q) g n h = ground arith

create_for_total :
    (k : Kernel) (req : Erreq)
    → k.raps_allocated ≡ true
    → (o : Option Ring) × (calls : List NetmapCall) × (create_for k req ≡ some (o, calls))
unfolding create_for
create_for_total k req raps =
    er_ring_create-total k req.er_id req.er_port0 req.er_port1 _ _ req.er_node_id raps

created_answer :
    (k : Kernel) (req : Erreq)
    → k.raps_allocated ≡ true
    → (a : Answer) × (ioctl_init k req none ≡ some a)
unfolding ioctl_init
created_answer k req raps = elim (Bool-cases (bad_rpl req)) [
  | inl e ↦ rw e (_, refl)
  | inr e ↦ let (o, calls, run) = create_for_total k req raps in rw (e, run) (_, refl)
]

-- Unless there is no memory for a message, every ioctl ends with no fault, whatever the request and the ring.
pub er_ioctl-total :
    (k : Kernel) (cmd : Command) (req : Option Erreq) (g : Option Ring)
    → k.raps_allocated ≡ true
    → (a : Answer) × (er_ioctl k cmd req g ≡ some a)
unfolding er_ioctl er_lookup_ring ioctl_init
er_ioctl-total k cmd none g raps = (_, refl)
er_ioctl-total k eriocinit (some q) none raps = created_answer k q raps
er_ioctl-total k eriocinit (some q) (some r) raps = (_, refl)
er_ioctl-total k _ (some q) g raps = (_, refl)
