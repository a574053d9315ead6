-- ===== src/Ring/Logic.antt =====
-- Total correctness of actions: rules that go through the program text.
use mathlib.Core.Path.{subst}
use erps.Common.{Bool, false, Option, some, ◌≡◌, refl, sym, Bool-cases, inl, inr}
use erps.Ring.{
  PortRef, Ring, Act, ◌>>◌, only_if, if_else, with_rpl, if_blocked, is_port_blocked, stay, port_of,
}

-- From a ring with `P`, the action ends, with no fault, in a ring with `P`.
pub record Keeps (P : Ring → Type 0) (a : Act) : Type 0 where
  pub run : (r : Ring) → P r → (r' : Ring) × (a r ≡ some r') × P r'

module _ {P : Ring → Type 0} where
  pub Keeps->> : (a b : Act) → Keeps P a → Keeps P b → Keeps P (a >> b)
  unfolding ◌>>◌
  Keeps->> a b ka kb = record {
    run = λ r h.
        let (r1, e1, h1) = ka.run r h in
        let (r2, e2, h2) = kb.run r1 h1 in (r2, rw (e1, ◌>>◌) e2, h2);
  }

  pub Keeps-only_if : (test : Ring → Bool) (a : Act) → Keeps P a → Keeps P (only_if test a)
  unfolding only_if
  Keeps-only_if test a ka = record {
    run =
        λ r h. elim (Bool-cases (test r)) [ inl e ↦ rw e (ka.run r h) | inr e ↦ rw e (r, refl, h) ];
  }

  pub Keeps-if_else :
      (test : Ring → Bool) (a b : Act) → Keeps P a → Keeps P b → Keeps P (if_else test a b)
  unfolding if_else
  Keeps-if_else test a b ka kb = record {
    run =
        λ r h. elim (Bool-cases (test r)) [ inl e ↦ rw e (ka.run r h) | inr e ↦ rw e (kb.run r h) ];
  }

  pub Keeps-if_blocked :
      (p : PortRef) (a b : Act) → Keeps P a → Keeps P b → Keeps P (if_blocked (some p) a b)
  unfolding if_blocked is_port_blocked
  Keeps-if_blocked p a b ka kb = record {
    run = λ r h. elim (Bool-cases (port_of r p).is_blocked) [
      | inl e ↦ rw (e, is_port_blocked) (ka.run r h)
      | inr e ↦ rw (e, is_port_blocked) (kb.run r h)
    ];
  }

  pub Keeps-stay : Keeps P stay
  unfolding stay
  Keeps-stay = record { run = λ r h. (r, refl, h) }

  -- An action on the RPL port, where `P` fixes that port.
  pub Keeps-with_rpl :
      (f : Option PortRef → Act) (q : Option PortRef)
      → ((r : Ring) → P r → r.rpl_port ≡ q)
      → Keeps P (f q)
      → Keeps P (with_rpl f)
  unfolding with_rpl
  Keeps-with_rpl f q fixed kf = record {
    run = λ r h. subst (λ p. (r' : Ring) × (f p r ≡ some r') × P r') (sym (fixed r h)) (kf.run r h);
  }

  -- A branch that is never taken.
  pub Keeps-only_if_never :
      (test : Ring → Bool) (a : Act)
      → ((r : Ring) → P r → test r ≡ false)
      → Keeps P (only_if test a)
  unfolding only_if
  Keeps-only_if_never test a never = record { run = λ r h. rw (never r h) (r, refl, h) }

  pub Keeps-if_else_never :
      (test : Ring → Bool) (a b : Act)
      → ((r : Ring) → P r → test r ≡ false)
      → Keeps P b
      → Keeps P (if_else test a b)
  unfolding if_else
  Keeps-if_else_never test a b never kb = record { run = λ r h. rw (never r h) (kb.run r h) }
