-- ===== src/Sim/Setup/Seats.antt =====
-- Which nodes are in which committee of a simulation of myBlockChain.
use frustum.Prelude.{
  ℕ, zero, suc, ◌+◌, ◌%◌, ◌≤◌, ◌<◌, ◌≡◌, ◌≢◌, refl, sym, ap, ◌∙◌, List, [], ◌∷◌, ◌++◌, Bool, true,
  false, ◌==◌, if◌then◌else◌, arith, length, take, drop, map, append-nil, append_assoc,
}
use native.Mathlib.Decide.{ℕ_discrete}
use native.Mathlib.Nat.{mod-lt}
use frustum.Prelude.Outcome.{Outcome, ok, ok-injective}
use frustum.Prelude.Slices.{
  get_elem, set_elem, get_elem_total, get_elem-lt, length-set_elem, get_elem-set_elem,
  get_elem-set_elem_other, drop-get_elem, drop-set_elem, map-set_elem,
}
use frustum.Sim.{Flags, Node}
use frustum.Sim.Round.{change}
use frustum.Sim.Setup.{in_committee, no_committees, assign, form_committees}

-- The nodes of a list that starts at the node `i` whose number is `c` modulo `m`.
unfoldable pub seats : {A : Type 0} → ℕ → ℕ → ℕ → List A → List A
seats m c i [] = []
seats m c i (x ∷ xs) = let rest = seats m c (suc i) xs in if i % m == c then x ∷ rest else rest

-- Which nodes of a list are honest.
abbrev pub honesty : List Node → List Bool
honesty nodes = map (λ (m : Node). m.is_honest) nodes

module _ (flags : Flags) (positive : 0 < flags.commit_num) where
  record Assigned (count i : ℕ) (nodes : List Node) (committees : List (List Node))
      (result : Outcome (List Node × List (List Node))) : Type 0 where
    after : List Node
    formed : List (List Node)
    returned : result ≡ ok (after, formed)
    size : length after ≡ length nodes
    honest : honesty after ≡ honesty nodes
    seated :
        (c : ℕ) (front : List Node)
        → get_elem c committees ≡ ok front
        → get_elem c formed ≡ ok (front ++ seats flags.commit_num c i (take count (drop i nodes)))

  -- The nodes from `i` on, the first of them seen.
  seats-next :
      (c i count : ℕ) (nodes : List Node) (m m' : Node)
      → get_elem i nodes ≡ ok m
      → seats flags.commit_num c i (take (suc count) (drop i nodes)) ≡ (
          let rest =
            seats flags.commit_num c (suc i) (take count (drop (suc i) (set_elem i m' nodes))) in
          if i % flags.commit_num == c then m ∷ rest else rest)
  unfolding seats
  seats-next c i count nodes m m' at = rw (drop-get_elem i nodes at, drop-set_elem i m' nodes) refl

  module _ (count i : ℕ) (nodes : List Node) (committees : List (List Node)) (m : Node)
      (members : List Node) (at : get_elem i nodes ≡ ok m)
      (mine : get_elem (i % flags.commit_num) committees ≡ ok members) where
    seated_nodes : List Node
    seated_nodes = set_elem i (in_committee (i % flags.commit_num) m) nodes

    longer : List (List Node)
    longer = set_elem (i % flags.commit_num) (members ++ m ∷ []) committees

    Assigned-next :
        Assigned count (suc i) seated_nodes longer (assign flags count (suc i) seated_nodes longer)
        → Assigned (suc count) i nodes committees (assign flags (suc count) i nodes committees)
    unfolding assign change seated_nodes longer
    Assigned-next rest = record {
      after = rest.after;
      formed = rest.formed;
      returned = rw (at, mine) rest.returned;
      size = rest.size ∙ length-set_elem i (in_committee (i % flags.commit_num) m) nodes;
      honest =
          rest.honest
          ∙ map-set_elem (λ (n : Node). n.is_honest) i m (in_committee (i % flags.commit_num) m)
              nodes at refl;
      seated = λ c front h. elim (ℕ_discrete (i % flags.commit_num) c) [
        | yes own ↦
            rw (next c, is_own c own)
              (rest.seated c (members ++ m ∷ []) (
                  ap (λ k. get_elem k longer) (sym own)
                  ∙ get_elem-set_elem (i % flags.commit_num) (members ++ m ∷ []) committees
                      (get_elem-lt (i % flags.commit_num) committees mine))
                ∙ ap ok (
                    append_assoc members (m ∷ []) _
                    ∙ ap
                        (λ f.
                          f
                          ++ m
                            ∷ seats flags.commit_num c (suc i)
                                (take count (drop (suc i) seated_nodes)))
                        (ok-injective (sym mine ∙ ap (λ k. get_elem k committees) own ∙ h))))
        | no other ↦
            rw (next c, not_own c other)
              (rest.seated c front (
                get_elem-set_elem_other (i % flags.commit_num) c (members ++ m ∷ []) committees
                  other
                ∙ h))
      ];
    }
      where
        next :
            (c : ℕ)
            → seats flags.commit_num c i (take (suc count) (drop i nodes)) ≡ (
                let rest =
                  seats flags.commit_num c (suc i) (take count (drop (suc i) seated_nodes)) in
                if i % flags.commit_num == c then m ∷ rest else rest)
        next c = seats-next c i count nodes m (in_committee (i % flags.commit_num) m) at

        is_own : (c : ℕ) → i % flags.commit_num ≡ c → (i % flags.commit_num == c) ≡ true
        is_own c e = ground arith

        not_own : (c : ℕ) → i % flags.commit_num ≢ c → (i % flags.commit_num == c) ≡ false
        not_own c other = ground arith

  assign-Assigned :
      (count i : ℕ) (nodes : List Node) (committees : List (List Node))
      → i + count ≤ length nodes
      → length committees ≡ flags.commit_num
      → Assigned count i nodes committees (assign flags count i nodes committees)
  unfolding assign seats seated_nodes longer
  assign-Assigned zero i nodes committees enough seat_num = record {
    after = nodes;
    formed = committees;
    returned = refl;
    size = refl;
    honest = refl;
    seated = λ c front h. rw (append-nil front) h;
  }
  assign-Assigned (suc count) i nodes committees enough seat_num =
      let (m, at) = get_elem_total i nodes (omega arith) in
      let (members, mine) =
        get_elem_total (i % flags.commit_num) committees
          (omega (arith, seat_num, mod-lt i positive)) in
      Assigned-next count i nodes committees m members at mine (
        assign-Assigned count (suc i) (seated_nodes count i nodes committees m members at mine)
          (longer count i nodes committees m members at mine)
          (omega (arith, length-set_elem i (in_committee (i % flags.commit_num) m) nodes))
          (length-set_elem (i % flags.commit_num) (members ++ m ∷ []) committees ∙ seat_num))

  get_elem-no_committees : (n c : ℕ) → c < n → get_elem c (no_committees n) ≡ ok []
  get_elem-no_committees zero c lt = absurd (omega arith)
  get_elem-no_committees (suc n) zero lt = refl
  get_elem-no_committees (suc n) (suc c) lt = get_elem-no_committees n c (omega arith)

  length-no_committees : (n : ℕ) → length (no_committees n) ≡ n
  length-no_committees zero = refl
  length-no_committees (suc n) = ap suc (length-no_committees n)

  -- With at least one committee and more than n nodes (node 0 is no user), the division into
  -- committees returns, and committee c has the nodes i from 1 to n with i % commitNum = c, in order.
  pub form_committees-seats :
      (nodes : List Node)
      → flags.n < length nodes
      → (after : List Node) × (formed : List (List Node)) × (form_committees flags nodes
          ≡ ok (after, formed))
        × (length after ≡ length nodes)
        × (honesty after ≡ honesty nodes)
        × ((c : ℕ)
            → c < flags.commit_num
            → get_elem c formed ≡ ok (seats flags.commit_num c 1 (take flags.n (drop 1 nodes))))
  unfolding form_committees
  form_committees-seats nodes lt = (
    a.after,
    a.formed,
    a.returned,
    a.size,
    a.honest,
    λ c below. a.seated c [] (get_elem-no_committees flags.commit_num c below),
  )
    where
      a :
          Assigned flags.n 1 nodes
            (no_committees flags.commit_num)
            (assign flags flags.n 1 nodes (no_committees flags.commit_num))
      a =
          assign-Assigned flags.n 1 nodes (no_committees flags.commit_num) (omega arith)
            (length-no_committees flags.commit_num)
