-- ===== src/Sim/Arguments.antt =====
-- The arguments that `main` of extras/sim/ringd.c takes and refuses, and the RPL port that they name.
use mathlib.Core.Path.{subst}
use erps.Common.{
  ℕ, true, false, not, ◌&&◌, ◌==◌, Option, none, some, List, [], ◌∷◌, ◌≡◌, ◌≢◌, ◌⊎◌, inl, inr, refl,
  arith, length, Bool-cases, Option-cases, is_eq, memcmp, memcmp_refl, ap, sym, ◌∙◌,
}
use erps.Ring.{PortRef, ref0, ref1}
use erps.Ring.Lifecycle.{same_name}
use erps.Sim.Outcome.{done}
use erps.Sim.Setup.{Options, is_named, has_role, bad_arguments, find_rpl_port}

same_length : (a b : List ℕ) → length a ≡ length b → is_eq (memcmp a b) ≡ true → a ≡ b
same_length [] [] n e = refl
same_length [] (y ∷ b) n e = absurd (ground (arith, n))
same_length (x ∷ a) [] n e = absurd (ground (arith, n))
same_length (x ∷ a) (y ∷ b) n e =
    let tails : a ≡ b = same_length a b (omega arith) (ground (arith, e)) in
    let heads : x ≡ y = ground (arith, e) in λ i. heads i ∷ tails i

same_name-equal : (a b : List ℕ) → same_name a b ≡ true → a ≡ b
same_name-equal a b e = same_length a b (ground (arith, e)) (ground (arith, e))

same_name_refl : (a : List ℕ) → same_name a a ≡ true
same_name_refl a = ground (arith, memcmp_refl a)

different : (a b : List ℕ) → same_name a b ≡ false → a ≢ b
different a b e s =
    let t : same_name a b ≡ true = subst (λ x. same_name a x ≡ true) s (same_name_refl a) in
    ground (arith, e, t)

abbrev pub HasRole : Options → Type 0
HasRole o = (o.is_rpl_owner ≡ true) ⊎ (o.is_rpl_neighbour ≡ true)

-- What `main` refuses: a node id of another length than 17, one port twice, both roles, or a role with an RPL port that
-- is none of the two.
abbrev pub IsUnusable : Options → List ℕ → List ℕ → List ℕ → Type 0
IsUnusable o p0 p1 node =
    (length node ≢ 17)
    ⊎ (p0 ≡ p1)
    ⊎ (o.is_rpl_owner ≡ true) × (o.is_rpl_neighbour ≡ true)
    ⊎ HasRole o × (o.rpl_port_name ≢ some p0) × (o.rpl_port_name ≢ some p1)

-- No RPL port without a role; with one it is the port of that name.
abbrev pub HasRplPort : Options → List ℕ → List ℕ → Option PortRef → Type 0
HasRplPort o p0 p1 q =
    (o.is_rpl_owner ≡ false) × (o.is_rpl_neighbour ≡ false) × (q ≡ none)
    ⊎ HasRole o
      × ((q ≡ some ref0) × (o.rpl_port_name ≡ some p0)
          ⊎ (q ≡ some ref1) × (o.rpl_port_name ≡ some p1))

named : (o : Options) (p : List ℕ) → is_named o.rpl_port_name p ≡ true → o.rpl_port_name ≡ some p
named o p e = elim (Option-cases o.rpl_port_name) [
  | inl f ↦ absurd (ground (arith, rw f at e))
  | inr (name, f) ↦ f ∙ ap some (sym (same_name-equal p name (rw f at e)))
]

not_named :
    (o : Options) (p : List ℕ) → is_named o.rpl_port_name p ≡ false → o.rpl_port_name ≢ some p
not_named o p e f =
    let t : is_named o.rpl_port_name p ≡ true = rw f (same_name_refl p) in ground (arith, e, t)

role_lem : (o : Options) → has_role o ≡ true → HasRole o
role_lem o e = elim (Bool-cases o.is_rpl_owner) [
  | inl f ↦ inl f
  | inr f ↦ inr (ground (arith, e, f))
]

pub unusable_lem :
    (o : Options) (p0 p1 node : List ℕ)
    → bad_arguments o p0 p1 node ≡ true
    → IsUnusable o p0 p1 node
unfolding bad_arguments
unusable_lem o p0 p1 node bad = elim (Bool-cases (length node == 17)) [
  | inr e ↦ inl (λ n. ground (arith, e, n))
  | inl e ↦ elim (Bool-cases (same_name p0 p1)) [
    | inl f ↦ inr (inl (same_name-equal p0 p1 f))
    | inr f ↦ elim (Bool-cases (o.is_rpl_owner && o.is_rpl_neighbour)) [
      | inl g ↦ inr (inr (inl (ground (arith, g), ground (arith, g))))
      | inr g ↦
          let rest : (has_role o
                && not (is_named o.rpl_port_name p0)
                && not (is_named o.rpl_port_name p1))
              ≡ true =
            rw (e, f, g) at bad in
          inr (
            inr (
              inr (
                role_lem o (ground (arith, rest)),
                not_named o p0 (ground (arith, rest)),
                not_named o p1 (ground (arith, rest)),
              )))
    ]
  ]
]

-- The RPL port of good arguments.
pub rpl_lem :
    (o : Options) (p0 p1 node : List ℕ)
    → bad_arguments o p0 p1 node ≡ false
    → (q : Option PortRef) × (find_rpl_port o p0 p1 ≡ done q) × HasRplPort o p0 p1 q
unfolding bad_arguments find_rpl_port
rpl_lem o p0 p1 node good = elim (Bool-cases (has_role o)) [
  | inr e ↦ (none, rw e refl, inl (ground (arith, e), ground (arith, e), refl))
  | inl e ↦ elim (Bool-cases (is_named o.rpl_port_name p0)) [
    | inl f ↦ (some ref0, rw (e, f) refl, inr (role_lem o e, inl (refl, named o p0 f)))
    | inr f ↦ elim (Bool-cases (is_named o.rpl_port_name p1)) [
      | inl g ↦ (some ref1, rw (e, f, g) refl, inr (role_lem o e, inr (refl, named o p1 g)))
      | inr g ↦ absurd (ground (arith, good, e, f, g))
    ]
  ]
]

pub role_port :
    (o : Options) (p0 p1 : List ℕ) (q : Option PortRef)
    → HasRplPort o p0 p1 q
    → HasRole o
    → (p : PortRef) × (q ≡ some p)
role_port o p0 p1 q (inl (a, b, _)) role = absurd (ground (arith, a, b, role))
role_port o p0 p1 q (inr (_, inl (e, _))) role = (ref0, e)
role_port o p0 p1 q (inr (_, inr (e, _))) role = (ref1, e)

pub no_role_port :
    (o : Options) (p0 p1 : List ℕ) (q : Option PortRef)
    → HasRplPort o p0 p1 q
    → (o.is_rpl_owner ≡ false) × (o.is_rpl_neighbour ≡ false)
    → q ≡ none
no_role_port o p0 p1 q (inl (_, _, e)) free = e
no_role_port o p0 p1 q (inr (role, _)) free = absurd (ground (arith, role, free))
