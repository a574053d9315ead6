-- ===== src/Ring/Attached.antt =====
-- Counting the calls of `er_netmap_attach` and `er_netmap_detach` that ports make (src/sys/dev/erps/er_port.c).
use erps.Common.{
  ℕ, ◌+◌, Bool, Option, none, some, List, [], ◌∷◌, ◌++◌, if◌then◌else◌, ◌≡◌, inl, inr, refl, arith,
  Bool-cases,
}
use erps.Port.{Port}
use erps.Ring.Lifecycle.{
  Kernel, NetmapCall, attach, detach, regops, port_name, er_port_create, er_port_destroy, same_name,
}

abbrev pub one_if : Bool → ℕ
one_if b = if b then 1 else 0

abbrev attaching : List ℕ → NetmapCall → ℕ
attaching name (attach n) = one_if (same_name n name)
attaching name _ = 0

abbrev detaching : List ℕ → NetmapCall → ℕ
detaching name (detach n) = one_if (same_name n name)
detaching name _ = 0

-- How often the name is attached and detached.
abbrev pub attaches : List ℕ → List NetmapCall → ℕ
attaches name [] = 0
attaches name (c ∷ calls) = attaching name c + attaches name calls

abbrev pub detaches : List ℕ → List NetmapCall → ℕ
detaches name [] = 0
detaches name (c ∷ calls) = detaching name c + detaches name calls

pub attaches-append :
    (name : List ℕ) (calls more : List NetmapCall)
    → attaches name (calls ++ more) ≡ attaches name calls + attaches name more
attaches-append name [] more = omega arith
attaches-append name (c ∷ calls) more = omega (arith, attaches-append name calls more)

pub detaches-append :
    (name : List ℕ) (calls more : List NetmapCall)
    → detaches name (calls ++ more) ≡ detaches name calls + detaches name more
detaches-append name [] more = omega arith
detaches-append name (c ∷ calls) more = omega (arith, detaches-append name calls more)

-- A port that exists is attached once under its name.
abbrev pub held : List ℕ → Option Port → ℕ
held name none = 0
held name (some p) = one_if (same_name p.name name)

pub er_port_create-held :
    (k : Kernel) (before : List NetmapCall) (id : ℕ) (port name : List ℕ)
    → attaches name (er_port_create k before id port).1
      ≡ detaches name (er_port_create k before id port).1
        + held name (er_port_create k before id port).0
unfolding er_port_create
er_port_create-held k before id port name = elim (Bool-cases (k.port_allocated before port)) [
  | inr e ↦ rw e refl
  | inl e ↦ elim (Bool-cases (k.attaches before (port_name port))) [
    | inr f ↦ rw (e, f) (omega arith)
    | inl f ↦ elim (Bool-cases (k.has_adapter before (port_name port))) [
      | inr g ↦ rw (e, f, g) (omega arith)
      | inl g ↦ rw (e, f, g) (omega arith)
    ]
  ]
]

pub er_port_destroy-detaches :
    (p : Port) (name : List ℕ)
    → (attaches name (er_port_destroy p) ≡ 0)
      × (detaches name (er_port_destroy p) ≡ held name (some p))
unfolding er_port_destroy
er_port_destroy-detaches p name = (refl, omega arith)

-- The calls so far leave as many ports attached as `rest` says.
abbrev pub Holds : List NetmapCall → (List ℕ → ℕ) → Type 0
Holds calls rest = (name : List ℕ) → attaches name calls ≡ detaches name calls + rest name

pub Holds-append :
    (calls more : List NetmapCall) (f g : List ℕ → ℕ)
    → Holds calls f
    → Holds more g
    → Holds (calls ++ more) (λ name. f name + g name)
Holds-append calls more f g h k name =
    omega (arith, attaches-append name calls more, detaches-append name calls more, h name, k name)

pub regops_lem :
    (calls : List NetmapCall) (id : ℕ) (f : List ℕ → ℕ)
    → Holds calls f
    → Holds (calls ++ (regops id ∷ [])) f
regops_lem calls id f h name = omega (
  arith,
  attaches-append name calls (regops id ∷ []),
  detaches-append name calls (regops id ∷ []),
  h name,
)
