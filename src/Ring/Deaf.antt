-- ===== src/Ring/Deaf.antt =====
-- Rings that `er_ring_create` makes, and the frames of one another.
use erps.Common.{ℕ, List, false, some, ◌≡◌, refl, inl, inr, arith}
use erps.Raps.{NodeId, zero_id, er_is_raps_frame, er_is_local_raps_frame}
use erps.Raps.Frame.{frame_of}
use erps.Ring.{PortRef, Ring}
use erps.Ring.Receive.{Clock, er_forward_lookup}
use erps.Ring.Lifecycle.{Kernel, NetmapCall, er_ring_create}
use erps.Ring.Created.{IsNew, er_ring_create-IsNew}

sent_frame : {o n : ℕ} {r : Ring} → IsNew o n r → r.raps_frame ≡ frame_of r.raps
sent_frame {r} h = elim h.sound.frame.in_sync [
  | inl fresh ↦ absurd (omega (arith, fresh, h.started.flags))
  | inr e ↦ e
]

drops :
    (clock : Clock) (p : PortRef) (r1 r2 : Ring)
    → r1.raps_frame ≡ frame_of r1.raps
    → r1.raps.node_id ≡ zero_id
    → r2.node_id ≡ zero_id
    → er_forward_lookup clock (some p) r1.raps_frame 55 r2 ≡ some (false, r2)
unfolding er_forward_lookup er_is_raps_frame er_is_local_raps_frame
drops clock p r1 r2 frame source mine = rw frame (rw (source, mine) refl)

-- Rings that are created for any node ids are deaf to one another: the one drops the frame that the
-- other one sends, on either port, and is not changed by it.
pub created_rings_deaf :
    (k1 k2 : Kernel) (id1 id2 : ℕ) (a1 b1 a2 b2 : List ℕ) (owner1 neighbour1 owner2 neighbour2 : ℕ)
    (node_id1 node_id2 : NodeId) (clock : Clock) (p : PortRef) {r1 r2 : Ring}
    {calls1 calls2 : List NetmapCall}
    → er_ring_create k1 id1 a1 b1 owner1 neighbour1 node_id1 ≡ some (some r1, calls1)
    → er_ring_create k2 id2 a2 b2 owner2 neighbour2 node_id2 ≡ some (some r2, calls2)
    → er_forward_lookup clock (some p) r1.raps_frame 55 r2 ≡ some (false, r2)
created_rings_deaf k1 k2 id1 id2 a1 b1 a2 b2 o1 n1 o2 n2 node_id1 node_id2 clock p {r1} {r2} h1 h2 =
    let new1 = er_ring_create-IsNew k1 id1 a1 b1 o1 n1 node_id1 h1 in
    let new2 = er_ring_create-IsNew k2 id2 a2 b2 o2 n2 node_id2 h2 in
    drops clock p r1 r2 (sent_frame new1) new1.source_zero new2.id_zero
