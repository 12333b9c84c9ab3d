-- ===== src/Prelude/Ensures.antt =====
-- A postcondition of a call: it holds of the value if the call returns one.
use mathlib.Core.Path.{◌≡◌, refl, subst}
use frustum.Prelude.Outcome.{Outcome, ok, panic, blocked, ◌>>=◌, ok-injective}

pub data Ensures {ℓ} {A : Type ℓ} (P : A → Type 0) : Outcome A → Type ℓ where
  returns : {a : A} → P a → Ensures P (ok a)
  panics : Ensures P panic
  waits : Ensures P blocked

module _ {ℓ} {A : Type ℓ} where
  pub Ensures-bind {κ} :
      {B : Type κ} {P : B → Type 0} (m : Outcome A) {f : A → Outcome B}
      → ((a : A) → Ensures P (f a))
      → Ensures P (m >>= f)
  Ensures-bind (ok a) h = h a
  Ensures-bind panic h = panics
  Ensures-bind blocked h = waits

  -- The same with a postcondition of the first call.
  pub Ensures-bind_with {κ} :
      {B : Type κ} {P : B → Type 0} {Q : A → Type 0} (m : Outcome A) {f : A → Outcome B}
      → Ensures Q m
      → ((a : A) → Q a → Ensures P (f a))
      → Ensures P (m >>= f)
  Ensures-bind_with _ (returns {a} q) h = h a q
  Ensures-bind_with _ panics h = panics
  Ensures-bind_with _ waits h = waits

  pub Ensures-ok : {P : A → Type 0} {a : A} {r : Outcome A} → Ensures P r → r ≡ ok a → P a
  Ensures-ok {P} (returns {a = b} p) e = subst P (ok-injective e) p
  Ensures-ok panics e = cc
  Ensures-ok waits e = cc

-- The value is the one that the call returns.
pub Ensures-self : {A : Type 0} (m : Outcome A) → Ensures (λ a. m ≡ ok a) m
Ensures-self (ok a) = returns refl
Ensures-self panic = panics
Ensures-self blocked = waits

-- A weaker postcondition.
pub Ensures-mono :
    {A : Type 0} {P Q : A → Type 0} (m : Outcome A)
    → Ensures P m
    → ((a : A) → P a → Q a)
    → Ensures Q m
Ensures-mono _ (returns {a} p) h = returns (h a p)
Ensures-mono _ panics h = panics
Ensures-mono _ waits h = waits

-- Two postconditions.
pub Ensures-both :
    {A : Type 0} {P Q R : A → Type 0} (m : Outcome A)
    → Ensures P m
    → Ensures Q m
    → ((a : A) → P a → Q a → R a)
    → Ensures R m
Ensures-both (ok a) (returns p) (returns q) h = returns (h a p q)
Ensures-both panic p q h = panics
Ensures-both blocked p q h = waits
