-- ===== src/Prelude/Outcome.antt =====
-- What a Go call ends in: a value, a panic, or a wait that nothing in the model ends.
use mathlib.Core.Path.{◌≡◌, refl, ap}
use mathlib.Core.Option.{Option, none, some}

pub data Outcome {ℓ} (A : Type ℓ) : Type ℓ where
  ok : A → Outcome A
  panic : Outcome A
  blocked : Outcome A

infixl 5 ◌>>=◌
abbrev pub ◌>>=◌ {ℓ κ} : {A : Type ℓ} {B : Type κ} → Outcome A → (A → Outcome B) → Outcome B
ok a >>= f = f a
panic >>= f = panic
blocked >>= f = blocked

-- A value that Go would reach through a nil pointer.
abbrev pub deref {ℓ} : {A : Type ℓ} → Option A → Outcome A
deref none = panic
deref (some a) = ok a

pub >>=-eq-ok {ℓ κ} :
    {A : Type ℓ} {B : Type κ} (call : Outcome A) (next : A → Outcome B) {result : B}
    → (call >>= next) ≡ ok result
    → (value : A) × (call ≡ ok value) × (next value ≡ ok result)
>>=-eq-ok panic next e = cc
>>=-eq-ok blocked next e = cc
>>=-eq-ok (ok value) next e = (value, refl, e)

module _ {ℓ} {A : Type ℓ} where
  value_or : A → Outcome A → A
  value_or d (ok a) = a
  value_or d panic = d
  value_or d blocked = d

  pub ok-injective : {a b : A} → ok a ≡ ok b → a ≡ b
  unfolding value_or
  ok-injective {a} h = ap (value_or a) h
