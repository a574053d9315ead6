-- ===== src/Sim/Outcome.antt =====
-- How a call in the simulator ends.
use erps.Common.{Option, none, some}

-- `died` is a call of `die` or `exit`, `crashed` is a null pointer that is followed or a read outside a buffer.
pub data Outcome {ℓ} (A : Type ℓ) : Type ℓ where
  done : A → Outcome A
  died crashed : Outcome A

infixl 1 ◌>>=◌
abbrev pub ◌>>=◌ {ℓ κ} : {A : Type ℓ} {B : Type κ} → Outcome A → (A → Outcome B) → Outcome B
done a >>= f = f a
died >>= f = died
crashed >>= f = crashed

-- An operation of the kernel module, in which `none` is a fault.
abbrev pub lift {ℓ} : {A : Type ℓ} → Option A → Outcome A
lift none = crashed
lift (some a) = done a
