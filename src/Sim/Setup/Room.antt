-- ===== src/Sim/Setup/Room.antt =====
-- How many nodes a committee of a simulation of myBlockChain has, and which.
use frustum.Prelude.{
  ℕ, zero, suc, ◌+◌, ◌*◌, ◌/◌, ◌%◌, ◌≤◌, ◌<◌, ◌≡◌, ◌⊎◌, inl, inr, refl, sym, ap, subst, ◌∙◌, List,
  [], ◌∷◌, Bool, true, false, ◌==◌, if◌then◌else◌, Bool-cases, ==_iff, arith, length, map, take,
  drop,
}
use native.Mathlib.Decide.{ℕ_discrete}
use native.Mathlib.Nat.{
  mul-add-mod_self_left, mod_self, div-lt_iff_lt-mul, suc-mul, mul_comm, mul-zero, mod-eq_of_lt,
}
use frustum.Prelude.Outcome.{ok, ok-injective}
use frustum.Prelude.Slices.{get_elem, sum}
use frustum.Sim.{Flags, Node}
use frustum.Sim.Round.Finish.{honest_num}
use frustum.Sim.Setup.Seats.{seats, honesty}

-- The next number that is `c` modulo `m`, after `len` of them.
abbrev next_seat : ℕ → ℕ → ℕ → ℕ
next_seat m c len = m * len + (if c == 0 then m else c)

next_seat-suc : (m c len : ℕ) → next_seat m c (suc len) ≡ next_seat m c len + m
next_seat-suc m c len = grind arith

next_seat-mod : (m c len : ℕ) → c < m → next_seat m c len % m ≡ c
next_seat-mod m c len lt = elim (Bool-cases (c == 0)) [
  | inl none ↦ rw none (mul-add-mod_self_left m len m ∙ mod_self m ∙ sym ((==_iff c 0).0 none))
  | inr some ↦ rw some (mul-add-mod_self_left m len c ∙ mod-eq_of_lt lt)
]

-- Each committee gets its share.
seats-room :
    (m c : ℕ)
    → 0 < m
    → c < m
    → (i : ℕ) (xs : List Node) (len : ℕ) → i < next_seat m c len
    → i + length xs < next_seat m c (len + length (seats m c (suc i) xs))
unfolding seats
seats-room m c pos lt i [] len h = ground arith
seats-room m c pos lt i (x ∷ xs) len h = elim (Bool-cases (suc i % m == c)) [
  | inl own ↦ rw own (
      omega (
        arith,
        subst (λ k. suc i + length xs < next_seat m c k)
            (more len (length (seats m c (suc (suc i)) xs)))
            (seats-room m c pos lt (suc i) xs (suc len) (omega (arith, h, next_seat-suc m c len))),
      ))
  | inr other ↦ rw other (omega (arith, seats-room m c pos lt (suc i) xs len (strict other)))
]
  where
    more : (a b : ℕ) → suc a + b ≡ a + suc b
    more a b = omega arith

    strict : (suc i % m == c) ≡ false → suc i < next_seat m c len
    strict other = elim (ℕ_discrete (suc i) (next_seat m c len)) [
      | yes e ↦ absurd (ground (arith, ap (λ k. k % m) e ∙ next_seat-mod m c len lt))
      | no e ↦ omega (arith, h, e)
    ]

pub seats-large :
    (m c n : ℕ) (xs : List Node) → c < m → length xs ≡ n → n / m ≤ length (seats m c 1 xs)
seats-large m c n xs lt len = omega (
  arith,
  (div-lt_iff_lt-mul {k = m} {x = n} {y = suc (length (seats m c 1 xs))} (omega arith)).1 below,
)
  where
    bound : (k : ℕ) → next_seat m c k ≤ suc k * m
    bound k = grind (arith, suc-mul k m, mul_comm k m)

    below : n < suc (length (seats m c 1 xs)) * m
    below = omega (
      arith,
      seats-room m c (omega arith) lt 0 xs 0 (ground (arith, mul-zero m)),
      bound (length (seats m c 1 xs)),
    )

get_elem-if :
    (b : Bool) (k : ℕ) (y : Node) (rest : List Node) {x : Node}
    → get_elem k (if b then y ∷ rest else rest) ≡ ok x
    → (x ≡ y) ⊎ ((j : ℕ) × (get_elem j rest ≡ ok x))
get_elem-if false k y rest h = inr (k, h)
get_elem-if true zero y rest h = inl (sym (ok-injective h))
get_elem-if true (suc k) y rest h = inr (k, h)

-- Every member of a committee is a node of the list.
pub seats-get_elem :
    (m c i : ℕ) (xs : List Node) (k : ℕ) {x : Node}
    → get_elem k (seats m c i xs) ≡ ok x
    → (j : ℕ) × (get_elem j xs ≡ ok x)
unfolding seats
seats-get_elem m c i [] k h = cc
seats-get_elem m c i (y ∷ xs) k {x} h =
    elim (get_elem-if (i % m == c) k y (seats m c (suc i) xs) h) [
      | inl same ↦ (0, ap ok (sym same))
      | inr (j, at) ↦ let (j', at') = seats-get_elem m c (suc i) xs j at in (suc j', at')
    ]

-- The honest ones among the members who run receivePre, from the honesty of all the nodes.
abbrev bit : Bool → ℕ
bit b = if b then 1 else 0

abbrev pub honest_seats : Flags → ℕ → List Bool → ℕ
honest_seats flags c hs =
    sum bit (take flags.n_per_commitee (seats flags.commit_num c 1 (take flags.n (drop 1 hs))))

module _ {A B : Type 0} (f : A → B) where
  map-take : (n : ℕ) (xs : List A) → map f (take n xs) ≡ take n (map f xs)
  map-take zero xs = refl
  map-take (suc n) [] = refl
  map-take (suc n) (x ∷ xs) = ap (◌∷◌ (f x)) (map-take n xs)

  map-drop : (n : ℕ) (xs : List A) → map f (drop n xs) ≡ drop n (map f xs)
  map-drop zero xs = refl
  map-drop (suc n) [] = refl
  map-drop (suc n) (x ∷ xs) = map-drop n xs

  map-seats : (m c i : ℕ) (xs : List A) → map f (seats m c i xs) ≡ seats m c i (map f xs)
  unfolding seats
  map-seats m c i [] = refl
  map-seats m c i (x ∷ xs) = elim (Bool-cases (i % m == c)) [
    | inl own ↦ rw own (ap (◌∷◌ (f x)) (map-seats m c (suc i) xs))
    | inr other ↦ rw other (map-seats m c (suc i) xs)
  ]

  sum-map : (w : B → ℕ) (xs : List A) → sum w (map f xs) ≡ sum (λ x. w (f x)) xs
  sum-map w [] = refl
  sum-map w (x ∷ xs) = ap (◌+◌ (w (f x))) (sum-map w xs)

pub honest_num-seats :
    (flags : Flags) (c : ℕ) (nodes : List Node)
    → honest_num flags (seats flags.commit_num c 1 (take flags.n (drop 1 nodes)))
      ≡ honest_seats flags c (honesty nodes)
honest_num-seats flags c nodes =
    sym (sum-map is bit (take flags.n_per_commitee committee))
    ∙ ap (sum bit) (
        map-take is flags.n_per_commitee committee
        ∙ ap (take flags.n_per_commitee) (
            map-seats is flags.commit_num c 1 (take flags.n (drop 1 nodes))
            ∙ ap (seats flags.commit_num c 1)
                (map-take is flags.n (drop 1 nodes) ∙ ap (take flags.n) (map-drop is 1 nodes))))
  where
    is : Node → Bool
    is m = m.is_honest

    committee : List Node
    committee = seats flags.commit_num c 1 (take flags.n (drop 1 nodes))
