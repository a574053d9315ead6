-- ===== src/Ring/Resources.antt =====
-- The ports that rings of src/sys/dev/erps/er_ring.c hold of netmap: which calls of `er_netmap_attach` are
-- followed by one of `er_netmap_detach`.
use mathlib.Core.Path.{subst}
use erps.Common.{
  ℕ, ◌+◌, Option, none, some, List, [], ◌∷◌, ◌++◌, ◌≡◌, inl, inr, arith, ap, Bool-cases,
}
use erps.Raps.{NodeId}
use erps.Port.{Port}
use erps.Ring.{invalid, Ring}
use erps.Ring.Total.{ring_fsm-total}
use erps.Ring.Lifecycle.{
  Kernel, NetmapCall, regops, er_port_create, er_port_destroy, new_ring, finish_ring, join_ports,
  er_ring_create, er_ring_destroy, same_name, er_deactivate_ring,
}
use erps.Ring.Created.{new_ring-IsSound, finish_ring_lem}
use erps.Ring.Attached.{
  one_if, attaches, detaches, attaches-append, detaches-append, held, er_port_create-held, Holds,
  Holds-append, regops_lem,
}

-- What a ring holds: both ports.
abbrev pub both : Port → Option Port → List ℕ → ℕ
both p0 second name = held name (some p0) + held name second

released :
    (r : Ring) (name : List ℕ)
    → (attaches name (er_ring_destroy r) ≡ 0)
      × (detaches name (er_ring_destroy r) ≡ both r.port0 (some r.port1) name)
unfolding er_ring_destroy er_deactivate_ring er_port_destroy
released r name = elim (Bool-cases r.active) [
  | inl e ↦ rw e (omega arith, omega arith)
  | inr e ↦ rw e (omega arith, omega arith)
]

-- The ports of the finished ring have the names of the ports that it was given.
finished_names :
    (k : Kernel) (id : ℕ) (p0 p1 : Port) (owner neighbour : ℕ) {r : Ring}
    → finish_ring k (new_ring id p0 p1 owner neighbour) ≡ some (some r)
    → (r.port0.name ≡ p0.name) × (r.port1.name ≡ p1.name)
unfolding new_ring
finished_names k id p0 p1 owner neighbour {r} h =
    let run = finish_ring_lem k (new_ring id p0 p1 owner neighbour) h in
    let (r', e, _, kept) =
      ring_fsm-total k.ticks invalid none none (new_ring id p0 p1 owner neighbour)
        (new_ring-IsSound id p0 p1 owner neighbour) tt in
    let same : r' ≡ r = cc in
    subst (λ x. (x.port0.name ≡ p0.name) × (x.port1.name ≡ p1.name)) same (kept.name0, kept.name1)

join_ports_destroyed :
    (k : Kernel) (id : ℕ) (first second : Option Port × List NetmapCall) (owner neighbour : ℕ)
    {r : Ring} {calls : List NetmapCall}
    → Holds first.1 (λ name. held name first.0)
    → Holds second.1 (λ name. held name second.0)
    → join_ports k id first second owner neighbour ≡ some (some r, calls)
    → Holds (calls ++ er_ring_destroy r) (λ name. 0)
unfolding join_ports
join_ports_destroyed k id (none, c) second owner neighbour h g e = cc
join_ports_destroyed k id (some p0, c) (none, d) owner neighbour h g e = cc
join_ports_destroyed k id (some p0, c) (some p1, d) owner neighbour {r} {calls} h g e =
    let run : finish_ring k (new_ring id p0 p1 owner neighbour) ≡ some (some r) = ground arith in
    let (n0, n1) = finished_names k id p0 p1 owner neighbour run in
    let same : c ++ (d ++ (regops id ∷ [])) ≡ calls = ground arith in
    let before =
      subst (λ x. Holds x (both p0 (some p1))) same
        (Holds-append c (d ++ (regops id ∷ [])) _ _ h (regops_lem d id _ g)) in
    λ name.
      let (a, b) = released r name in
      let e0 : held name (some r.port0) ≡ held name (some p0) =
        ap (λ n. one_if (same_name n name)) n0 in
      let e1 : held name (some r.port1) ≡ held name (some p1) =
        ap (λ n. one_if (same_name n name)) n1 in
      omega (
        arith,
        attaches-append name calls (er_ring_destroy r),
        detaches-append name calls (er_ring_destroy r),
        before name,
        a,
        b,
        e0,
        e1,
      )

destroyed-Holds :
    (k : Kernel) (id : ℕ) (name0 name1 : List ℕ) (owner neighbour : ℕ) (node_id : NodeId) {r : Ring}
    {calls : List NetmapCall}
    → er_ring_create k id name0 name1 owner neighbour node_id ≡ some (some r, calls)
    → Holds (calls ++ er_ring_destroy r) (λ name. 0)
unfolding er_ring_create
destroyed-Holds k id name0 name1 owner neighbour node_id {r} {calls} h =
    elim (Bool-cases k.ring_allocated) [
      | inr e ↦ absurd (ground (arith, e, h))
      | inl e ↦
          join_ports_destroyed k id (er_port_create k [] id name0)
            (er_port_create k (er_port_create k [] id name0).1 id name1) owner neighbour {r = r}
            {calls = calls} (er_port_create-held k [] id name0)
            (er_port_create-held k (er_port_create k [] id name0).1 id name1) (ground (arith, e, h))
    ]

module _ (k : Kernel) (id : ℕ) (name0 name1 : List ℕ) (owner neighbour : ℕ) (node_id : NodeId)
    (name : List ℕ) where
  -- A ring that was created and then destroyed has detached every name from netmap as often as it has attached it.
  pub created_and_destroyed :
      {r : Ring} {calls : List NetmapCall}
      → er_ring_create k id name0 name1 owner neighbour node_id ≡ some (some r, calls)
      → attaches name (calls ++ er_ring_destroy r) ≡ detaches name (calls ++ er_ring_destroy r)
  created_and_destroyed {r} {calls} h =
      let e =
        destroyed-Holds k id name0 name1 owner neighbour node_id {r = r} {calls = calls} h name in
      omega arith
