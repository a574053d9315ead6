-- ===== src/Netmap/Named.antt =====
-- The names under which netmap knows the ports of a ring.
use mathlib.Core.Path.{subst}
use erps.Common.{
  ℕ, zero, suc, ◌+◌, ◌/◌, ◌%◌, ltb, take_all, append_assoc, length-append, ◌≤◌, Bool, true, false,
  ◌==◌, Option, none, some, List, [], ◌∷◌, ◌++◌, ◌≡◌, ◌⊎◌, inl, inr, refl, sym, ap, arith, take,
  length, Bool-cases, Option-cases, if◌then◌else◌, ◌≢◌,
}
use erps.Port.{Port}
use erps.Ring.Lifecycle.{Kernel, NetmapCall, er_port_create}
use erps.Netmap.Calls.{
  BdgAnswer, bdg_attach, bdg_list, Nmreq, Netmap, digits, vale_name, er_netmap_attach,
  er_netmap_get_indices, er_netmap_get_adapter, adapted, port_index, kernel_of,
}

-- The request that attaches the port, and the one that asks for its index.
abbrev pub attaching : ℕ → List ℕ → Nmreq
attaching ring_id name = record {
  nr_cmd = bdg_attach;
  all_nic = true;
  nr_name = take 14 (vale_name ring_id ++ name);
}

abbrev pub listing : ℕ → List ℕ → Nmreq
listing ring_id name = record {
  nr_cmd = bdg_list;
  all_nic = false;
  nr_name = take 14 (vale_name ring_id ++ name);
}

length-digits : (k n : ℕ) → length (digits k n) ≤ k
length-digits zero n = omega arith
length-digits (suc k) n = elim (Bool-cases (ltb n 10)) [
  | inl e ↦ rw e (omega arith)
  | inr e ↦ rw e (
      omega
        (arith, length-append (digits k (n / 10)) ((48 + n % 10) ∷ []), length-digits k (n / 10)))
]

vale_name_lem :
    (ring_id : ℕ)
    → vale_name ring_id ≡ (118 ∷ 97 ∷ 108 ∷ 101 ∷ 82 ∷ []) ++ (digits 5 ring_id ++ 58 ∷ [])
unfolding vale_name
vale_name_lem ring_id =
    take_all 14 _
      (omega (arith, length-append (digits 5 ring_id) (58 ∷ []), length-digits 5 ring_id))

-- The name that is listed is that of the bridge and the port.
same_names :
    (ring_id : ℕ) (name : List ℕ)
    → (118 ∷ 97 ∷ 108 ∷ 101 ∷ 82 ∷ []) ++ (digits 5 ring_id ++ 58 ∷ name)
      ≡ vale_name ring_id ++ name
same_names ring_id name =
    rw (vale_name_lem ring_id) (
      ap (λ t. 118 ∷ 97 ∷ 108 ∷ 101 ∷ 82 ∷ t)
        (sym (append_assoc (digits 5 ring_id) (58 ∷ []) name)))

-- A port that is created, whatever the calls of netmap are.
created_lem :
    (k : Kernel) (before : List NetmapCall) (id : ℕ) (name : List ℕ) {p : Port}
    {calls : List NetmapCall}
    → er_port_create k before id name ≡ (some p, calls)
    → (p.name ≡ take 15 name)
      × (k.attaches before (take 15 name) ≡ true)
      × (k.has_adapter before (take 15 name) ≡ true)
      × ((k.port_index before id (take 15 name) ≡ some p.idx)
          ⊎ (k.port_index before id (take 15 name) ≡ none) × (p.idx ≡ k.nm_bdg_noport))
unfolding er_port_create
created_lem k before id name {p} {calls} h =
    elim (Option-cases (k.port_index before id (take 15 name))) [
      | inl e ↦ ground (arith, h, e)
      | inr (i, e) ↦ ground (arith, h, e)
    ]

found_adapter : (x : ℕ × Bool) → ((adapted x).0 == 0) ≡ true → x ≡ (0, true)
found_adapter (zero, true) h = refl
found_adapter (zero, false) h = ground (arith, h)
found_adapter (suc err, b) h = ground (arith, h)

adapter_lem :
    (nm : Netmap) (name : List ℕ)
    → ((er_netmap_get_adapter nm name).0 == 0) ≡ true
    → nm.netmap_get_na (take 14 name) ≡ (0, true)
unfolding er_netmap_get_adapter
adapter_lem nm name h = found_adapter (nm.netmap_get_na (take 14 name)) h

-- The index of an answer.
abbrev indexed : BdgAnswer → Option ℕ
indexed a = if a.err == 0 then some a.nr_arg2 else none

answered :
    (a : BdgAnswer)
    → port_index (if a.err == 0 then (0, some (a.nr_arg1, a.nr_arg2)) else (a.err, none))
      ≡ indexed a
answered a = elim (Bool-cases (a.err == 0)) [ inl e ↦ rw e refl | inr e ↦ rw e refl ]

-- The index that netmap gives for the name of bridge and port.
indices_lem :
    (nm : Netmap) (ring_id : ℕ) (name : List ℕ)
    → port_index (er_netmap_get_indices nm ring_id name)
      ≡ indexed (nm.netmap_bdg_ctl (listing ring_id name))
unfolding er_netmap_get_indices
indices_lem nm ring_id name =
    subst
      (λ t.
        port_index (er_netmap_get_indices nm ring_id name)
        ≡ indexed (
            nm.netmap_bdg_ctl (record { nr_cmd = bdg_list; all_nic = false; nr_name = take 14 t })))
      (same_names ring_id name)
      (answered (
        nm.netmap_bdg_ctl (record {
          nr_cmd = bdg_list;
          all_nic = false;
          nr_name = take 14 ((118 ∷ 97 ∷ 108 ∷ 101 ∷ 82 ∷ []) ++ (digits 5 ring_id ++ 58 ∷ name));
        })))

index_cases :
    (a : BdgAnswer) (idx noport : ℕ)
    → (indexed a ≡ some idx) ⊎ (indexed a ≡ none) × (idx ≡ noport)
    → (a.err ≡ 0) × (idx ≡ a.nr_arg2) ⊎ (a.err ≢ 0) × (idx ≡ noport)
index_cases a idx noport h = elim (Bool-cases (a.err == 0)) [
  | inl e ↦ elim h [
    | inl f ↦ inl (ground (arith, e), ground (arith, e, f))
    | inr (f, _) ↦ absurd (ground (arith, e, f))
  ]
  | inr e ↦ elim h [
    | inl f ↦ absurd (ground (arith, e, f))
    | inr (_, q) ↦ inr (λ f. ground (arith, e, f), q)
  ]
]

-- A port that is created has the first 15 characters of its name; netmap has taken it into the bridge under the first
-- 14 characters of the names of bridge and port, has an adapter for it, and has given its index for that same name; if
-- netmap gives no index, the port has the number for no port.
pub er_port_create_named :
    (nm : Netmap) (ticks : ℕ) (before : List NetmapCall) (ring_id : ℕ) (name : List ℕ) {p : Port}
    {calls : List NetmapCall}
    → er_port_create (kernel_of nm ticks ring_id) before ring_id name ≡ (some p, calls)
    → (p.name ≡ take 15 name)
      × ((nm.netmap_bdg_ctl (attaching ring_id p.name)).err ≡ 0)
      × (nm.netmap_get_na (take 14 p.name) ≡ (0, true))
      × (((nm.netmap_bdg_ctl (listing ring_id p.name)).err ≡ 0)
            × (p.idx ≡ (nm.netmap_bdg_ctl (listing ring_id p.name)).nr_arg2)
          ⊎ ((nm.netmap_bdg_ctl (listing ring_id p.name)).err ≢ 0) × (p.idx ≡ nm.nm_bdg_noport))
er_port_create_named nm ticks before ring_id name {p} {calls} h =
    let (named, attached, adapter, index) =
      created_lem (kernel_of nm ticks ring_id) before ring_id name h in
    (
      named,
      unfold er_netmap_attach in rw named (ground (arith, attached)),
      rw named (adapter_lem nm (take 15 name) adapter),
      rw named (
          index_cases (nm.netmap_bdg_ctl (listing ring_id (take 15 name))) p.idx nm.nm_bdg_noport
            (rw (indices_lem nm ring_id (take 15 name)) at index)),
    )
