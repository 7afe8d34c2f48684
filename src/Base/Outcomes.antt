-- ===== src/Base/Outcomes.antt =====
-- Python's exceptions as values: a call returns a value or raises.
use mathlib.Core.Bool.{Bool, false}
use mathlib.Core.Option.{Option, none, some}
use text.Mathlib.Text.{◌==◌}
use Prim.Native.String.{String}
use mathlib.Core.Bool.{not}

pub data Exception : Type 0 where
  value_error key_error assertion_error type_error attribute_error recursion_error : Exception

pub data Outcome {ℓ} (A : Type ℓ) : Type ℓ where
  ok : A → Outcome A
  raised : Exception → Outcome A

infixl 5 ◌>>=◌
abbrev pub ◌>>=◌ {ℓ κ} : {A : Type ℓ} {B : Type κ} → Outcome A → (A → Outcome B) → Outcome B
ok a >>= f = f a
raised x >>= f = raised x

-- The truth value of a `str | None`: `None` and `""` are false.
abbrev pub truthy : Option String → Bool
truthy none = false
truthy (some s) = not (s == "")
