-- ===== src/Prelude/Slices.antt =====
-- Slices: an element by its index, the change of one element, and sums over the elements.
use Prim.Native.Nat.{ℕ, zero, suc, ◌+◌, ◌*◌, ◌≤◌, ◌<◌}
use mathlib.Core.Path.{◌≡◌, ◌∙◌, refl, ap, sym}
use mathlib.Core.Logic.{◌≢◌, ◌⊎◌, inl, inr}
use mathlib.Core.List.{List, [], ◌∷◌, map}
use native.Mathlib.Omega.{arith}
use frustum.Prelude.Lists.{length, take, drop}
use frustum.Prelude.Outcome.{Outcome, ok, panic, ok-injective}

module _ {ℓ} {A : Type ℓ} where
  -- xs[i], a panic out of range.
  abbrev pub get_elem : ℕ → List A → Outcome A
  get_elem i [] = panic
  get_elem zero (x ∷ xs) = ok x
  get_elem (suc i) (x ∷ xs) = get_elem i xs

  -- The element at an index replaced; nothing happens out of range.
  abbrev pub set_elem : ℕ → A → List A → List A
  set_elem i a [] = []
  set_elem zero a (x ∷ xs) = a ∷ xs
  set_elem (suc i) a (x ∷ xs) = x ∷ set_elem i a xs

  abbrev pub sum : (A → ℕ) → List A → ℕ
  sum w [] = 0
  sum w (x ∷ xs) = w x + sum w xs

  pub get_elem_total : (i : ℕ) (xs : List A) → i < length xs → (a : A) × (get_elem i xs ≡ ok a)
  get_elem_total i [] h = absurd (omega arith)
  get_elem_total zero (x ∷ xs) h = (x, refl)
  get_elem_total (suc i) (x ∷ xs) h = get_elem_total i xs (omega arith)

  pub get_elem-lt : (i : ℕ) (xs : List A) {a : A} → get_elem i xs ≡ ok a → i < length xs
  get_elem-lt i [] h = cc
  get_elem-lt zero (x ∷ xs) h = omega arith
  get_elem-lt (suc i) (x ∷ xs) h = omega (arith, get_elem-lt i xs h)

  pub length-set_elem : (i : ℕ) (a : A) (xs : List A) → length (set_elem i a xs) ≡ length xs
  length-set_elem i a [] = refl
  length-set_elem zero a (x ∷ xs) = refl
  length-set_elem (suc i) a (x ∷ xs) = ap suc (length-set_elem i a xs)

  pub get_elem-set_elem :
      (i : ℕ) (a : A) (xs : List A) → i < length xs → get_elem i (set_elem i a xs) ≡ ok a
  get_elem-set_elem i a [] h = absurd (omega arith)
  get_elem-set_elem zero a (x ∷ xs) h = refl
  get_elem-set_elem (suc i) a (x ∷ xs) h = get_elem-set_elem i a xs (omega arith)

  pub get_elem-set_elem_other :
      (i j : ℕ) (a : A) (xs : List A) → i ≢ j → get_elem j (set_elem i a xs) ≡ get_elem j xs
  get_elem-set_elem_other i j a [] h = refl
  get_elem-set_elem_other zero zero a (x ∷ xs) h = absurd (h refl)
  get_elem-set_elem_other zero (suc j) a (x ∷ xs) h = refl
  get_elem-set_elem_other (suc i) zero a (x ∷ xs) h = refl
  get_elem-set_elem_other (suc i) (suc j) a (x ∷ xs) h =
      get_elem-set_elem_other i j a xs (λ e. h (ap suc e))

  pub set_elem_same : (i : ℕ) (a : A) (xs : List A) → get_elem i xs ≡ ok a → set_elem i a xs ≡ xs
  set_elem_same i a [] h = refl
  set_elem_same zero a (x ∷ xs) h = ap (λ b. b ∷ xs) (sym (ok-injective h))
  set_elem_same (suc i) a (x ∷ xs) h = ap (◌∷◌ x) (set_elem_same i a xs h)

  pub sum-set_elem :
      (w : A → ℕ) (i : ℕ) (a b : A) (xs : List A)
      → get_elem i xs ≡ ok b
      → sum w (set_elem i a xs) + w b ≡ sum w xs + w a
  sum-set_elem w i a b [] h = cc
  sum-set_elem w zero a b (x ∷ xs) h = omega (arith, ap w (ok-injective h))
  sum-set_elem w (suc i) a b (x ∷ xs) h = omega (arith, sum-set_elem w i a b xs h)

  pub sum_mono :
      (v w : A → ℕ) (xs : List A)
      → ((i : ℕ) (a : A) → get_elem i xs ≡ ok a → v a ≤ w a)
      → sum v xs ≤ sum w xs
  sum_mono v w [] h = omega arith
  sum_mono v w (x ∷ xs) h = omega (arith, h 0 x refl, sum_mono v w xs (λ i a e. h (suc i) a e))

  -- An element after a change is the new one or an old one.
  pub set_elem-cases :
      (i k : ℕ) (a : A) (xs : List A) {b : A}
      → get_elem k (set_elem i a xs) ≡ ok b
      → ((k ≡ i) × (b ≡ a)) ⊎ ((k ≢ i) × (get_elem k xs ≡ ok b))
  set_elem-cases i k a [] h = inr (cc)
  set_elem-cases zero zero a (x ∷ xs) h = inl (refl, sym (ok-injective h))
  set_elem-cases zero (suc k) a (x ∷ xs) h = inr (λ e. absurd (omega arith), h)
  set_elem-cases (suc i) zero a (x ∷ xs) h = inr (λ e. absurd (omega arith), h)
  set_elem-cases (suc i) (suc k) a (x ∷ xs) h = elim (set_elem-cases i k a xs h) [
    | inl same ↦ inl (ap suc same.0, same.1)
    | inr other ↦ inr (λ e. other.0 (omega arith), other.1)
  ]

  pub sum-le-length : (w : A → ℕ) (xs : List A) → ((a : A) → w a ≤ 1) → sum w xs ≤ length xs
  sum-le-length w [] h = omega arith
  sum-le-length w (x ∷ xs) h = omega (arith, h x, sum-le-length w xs h)

  pub sum-le_mul :
      (w : A → ℕ) (b : ℕ) (xs : List A) → ((a : A) → w a ≤ b) → sum w xs ≤ length xs * b
  sum-le_mul w b [] h = omega arith
  sum-le_mul w b (x ∷ xs) h = grind (arith, h x, sum-le_mul w b xs h)

  pub get_elem-take :
      (n k : ℕ) (xs : List A) {a : A}
      → get_elem k (take n xs) ≡ ok a
      → (k < n) × (get_elem k xs ≡ ok a)
  get_elem-take zero k xs h = cc
  get_elem-take (suc n) k [] h = cc
  get_elem-take (suc n) zero (x ∷ xs) h = (omega arith, h)
  get_elem-take (suc n) (suc k) (x ∷ xs) h =
      let (lt, at) = get_elem-take n k xs h in (omega arith, at)

  pub drop-get_elem :
      (i : ℕ) (xs : List A) {a : A} → get_elem i xs ≡ ok a → drop i xs ≡ a ∷ drop (suc i) xs
  drop-get_elem i [] h = cc
  drop-get_elem zero (x ∷ xs) h = ap (λ b. b ∷ xs) (ok-injective h)
  drop-get_elem (suc i) (x ∷ xs) h = drop-get_elem i xs h

  pub drop-set_elem :
      (i : ℕ) (a : A) (xs : List A) → drop (suc i) (set_elem i a xs) ≡ drop (suc i) xs
  drop-set_elem i a [] = refl
  drop-set_elem zero a (x ∷ xs) = refl
  drop-set_elem (suc i) a (x ∷ xs) = drop-set_elem i a xs

-- A change that leaves `f` of the element as it is.
pub map-set_elem {ℓ κ} :
    {A : Type ℓ} {B : Type κ} (f : A → B) (i : ℕ) (a a' : A) (xs : List A)
    → get_elem i xs ≡ ok a
    → f a' ≡ f a
    → map f (set_elem i a' xs) ≡ map f xs
map-set_elem f i a a' [] h e = refl
map-set_elem f zero a a' (x ∷ xs) h e = ap (λ b. b ∷ map f xs) (e ∙ ap f (sym (ok-injective h)))
map-set_elem f (suc i) a a' (x ∷ xs) h e = ap (◌∷◌ (f x)) (map-set_elem f i a a' xs h e)

pub get_elem-map {ℓ κ} :
    {A : Type ℓ} {B : Type κ} (f : A → B) (i : ℕ) (xs : List A) {a : A}
    → get_elem i xs ≡ ok a
    → get_elem i (map f xs) ≡ ok (f a)
get_elem-map f i [] h = cc
get_elem-map f zero (x ∷ xs) h = ap ok (ap f (ok-injective h))
get_elem-map f (suc i) (x ∷ xs) h = get_elem-map f i xs h

-- Weights of two lists, compared index by index.
pub sum_mono_two {ℓ κ} :
    {A : Type ℓ} {B : Type κ} (v : A → ℕ) (w : B → ℕ) (xs : List A) (ys : List B)
    → ((i : ℕ) (a : A) → get_elem i xs ≡ ok a → (b : B) × (get_elem i ys ≡ ok b) × (v a ≤ w b))
    → sum v xs ≤ sum w ys
sum_mono_two v w [] ys h = omega arith
sum_mono_two v w (x ∷ xs) [] h = let (b, e, le) = h 0 x refl in cc
sum_mono_two v w (x ∷ xs) (y ∷ ys) h =
    let (b, e, le) = h 0 x refl in
    omega (arith, le, ap w (ok-injective e), sum_mono_two v w xs ys (λ i a at. h (suc i) a at))
