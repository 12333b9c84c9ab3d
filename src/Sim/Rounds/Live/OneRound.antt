-- ===== src/Sim/Rounds/Live/OneRound.antt =====
-- That a round of elastico in myBlockChain returns.
use frustum.Prelude.{
  ℕ, zero, suc, ◌+◌, ◌*◌, ◌≤◌, ◌<◌, ◌≡◌, refl, sym, ap, subst, ◌∙◌, List, [], ◌∷◌, Bool, arith,
  length, take, drop, In, here, there,
}
use native.Mathlib.Nat.{suc-mul}
use frustum.Prelude.Outcome.{Outcome, ok, ◌>>=◌, ok-injective}
use frustum.Prelude.Slices.{get_elem, get_elem-take}
use frustum.Sim.{Flags, Node, Transaction}
use frustum.Sim.Round.Invariant.{AllFresh, IsFresh}
use frustum.Sim.Setup.{SimEnv, each_node, reset, form_committees}
use frustum.Sim.Setup.Seats.{seats, honesty, form_committees-seats}
use frustum.Sim.Setup.Room.{seats-large, seats-get_elem, honest_seats, honest_num-seats}
use frustum.Sim.Setup.EachNode.{Each, each_node-Each}
use frustum.Sim.Pbft.{Sim, elastico_pbft}
use frustum.Sim.Rounds.{Plan, each_committee, elastico}
use frustum.Sim.Rounds.Live.{Fits, Fair, Able, Ready, is_kind, elastico_pbft_returns}

length-drop : (k : ℕ) (xs : List Transaction) → k ≤ length xs → length (drop k xs) + k ≡ length xs
length-drop zero xs le = omega arith
length-drop (suc k) [] le = absurd (omega arith)
length-drop (suc k) (x ∷ xs) le = omega (arith, length-drop k xs (omega arith))

length-take-drop :
    {n : ℕ} (nodes : List Node) → n < length nodes → length (take n (drop 1 nodes)) ≡ n
length-take-drop [] h = absurd (omega arith)
length-take-drop {n} (x ∷ xs) h = length-take n xs (omega arith)
  where
    length-take : (k : ℕ) (ys : List Node) → k ≤ length ys → length (take k ys) ≡ k
    length-take zero ys le = refl
    length-take (suc k) [] le = absurd (omega arith)
    length-take (suc k) (y ∷ ys) le = ap suc (length-take k ys (omega arith))

get_elem-drop :
    (k : ℕ) (nodes : List Node) {m : Node}
    → get_elem k (drop 1 nodes) ≡ ok m
    → get_elem (suc k) nodes ≡ ok m
get_elem-drop k [] h = h
get_elem-drop k (x ∷ xs) h = h

-- The loop at the head of a round leaves fresh nodes.
reset-AllFresh :
    (n : ℕ) (nodes : List Node) {result : Outcome (List Node)}
    (each : Each is_kind reset n 1 nodes result)
    → AllFresh (take n (drop 1 each.after))
reset-AllFresh n nodes each k m h =
    let (lt, at) = get_elem-take n k (drop 1 each.after) h in
    let (old, _, new) = each.changed (suc k) (omega arith) (omega arith) in
    subst IsFresh (ok-injective (sym new ∙ get_elem-drop k each.after at)) (refl, refl, refl)

module _ (flags : Flags) (fits : Fits flags) (env : SimEnv) (hs : List Bool) where
  -- What a part of a round leaves, having taken the transactions of `count` blocks.
  abbrev pub After : ℕ → Sim → Outcome Sim → Type 0
  After count s call =
      (t : Sim) × (call ≡ ok t)
      × Ready flags hs t
      × (length t.tx_list + count * flags.tx_per_block ≡ length s.tx_list)

  each_committee_returns :
      (pbft : ℕ → Sim → Outcome Sim) (order : List ℕ)
      → ((i : ℕ) (s : Sim)
          → In i order
          → Ready flags hs s
          → flags.tx_per_block ≤ length s.tx_list
          → After 1 s (pbft i s))
      → (s : Sim) → Ready flags hs s
      → length order * flags.tx_per_block ≤ length s.tx_list
      → After (length order) s (each_committee pbft order s)
  unfolding each_committee
  each_committee_returns pbft [] each s ready le = (s, refl, ready, omega arith)
  each_committee_returns pbft (i ∷ order) each s ready le =
      let (t, e, next, taken) =
        each i s here ready (grind (arith, suc-mul (length order) flags.tx_per_block)) in
      let (u, rest, last, more) =
        each_committee_returns pbft order (λ j v h. each j v (there h)) t next
          (grind (arith, suc-mul (length order) flags.tx_per_block)) in
      (u, rw e rest, last, grind (arith, suc-mul (length order) flags.tx_per_block))

  -- The committees of a round are able to vote.
  members-Able :
      (nodes : List Node) (c : ℕ)
      → flags.n < length nodes
      → AllFresh (take flags.n (drop 1 nodes))
      → c < flags.commit_num
      → 2 * flags.total_f < honest_seats flags c (honesty nodes)
      → Able flags (seats flags.commit_num c 1 (take flags.n (drop 1 nodes)))
  members-Able nodes c users fresh lt lots = record {
    fresh = λ k m h.
        let (j, at) = seats-get_elem flags.commit_num c 1 (take flags.n (drop 1 nodes)) k h in
        fresh j m at;
    room = omega (
      arith,
      fits.share,
      seats-large flags.commit_num c flags.n (take flags.n (drop 1 nodes)) lt
          (length-take-drop nodes users),
    );
    enough = omega (arith, lots, honest_num-seats flags c nodes);
  }

  elastico_ok :
      (plan : Plan) (s : Sim) (fresh nodes : List Node) (formed : List (List Node)) {t : Sim}
      → each_node flags.n 1 reset s.nodes ≡ ok fresh
      → form_committees flags fresh ≡ ok (nodes, formed)
      → each_committee
          (λ i v. get_elem i formed >>= λ members. elastico_pbft flags env (plan.calls i) members v)
          plan.order
          (record s { nodes = nodes })
        ≡ ok t
      → elastico flags env plan s ≡ ok t
  unfolding elastico
  elastico_ok plan s fresh nodes formed e f g = rw (e, f) g

  pub elastico_returns :
      (plan : Plan) (s : Sim)
      → ((c : ℕ) → c < flags.commit_num → Fair flags (plan.calls c))
      → ((c : ℕ) → c < flags.commit_num → 2 * flags.total_f < honest_seats flags c hs)
      → ((c : ℕ) → In c plan.order → c < flags.commit_num)
      → Ready flags hs s
      → length plan.order * flags.tx_per_block ≤ length s.tx_list
      → After (length plan.order) s (elastico flags env plan s)
  unfolding elastico
  elastico_returns plan s fair lots below ready le =
      let each =
        each_node-Each is_kind reset (λ m. refl) flags.n 1 s.nodes (omega (arith, ready.users)) in
      let (nodes, formed, formed_ok, size, honest, seated) =
        form_committees-seats flags fits.some_committee each.after
          (omega (arith, ready.users, each.size)) in
      let users : flags.n < length each.after = omega (arith, ready.users, each.size) in
      let fresh = reset-AllFresh flags.n s.nodes each in
      let (t, e, next, taken) =
        each_committee_returns (pbft formed) plan.order
          (λ i v at ready_v le_v.
            one i v formed each.after (below i at) (seated i (below i at))
              (members-Able each.after i users fresh (below i at) (
                omega (
                  arith,
                  lots i (below i at),
                  ap (honest_seats flags i) (each.kept ∙ ready.honest),
                )))
              ready_v le_v)
          (record s { nodes = nodes })
          (record {
            users = omega (arith, ready.users, each.size, size);
            honest = honest ∙ each.kept ∙ ready.honest;
            last = ready.last;
            started = ready.started;
          })
          le in
      (t, elastico_ok plan s each.after nodes formed each.returned formed_ok e, next, taken)
    where
      pbft : List (List Node) → ℕ → Sim → Outcome Sim
      pbft formed i t =
          get_elem i formed >>= λ members. elastico_pbft flags env (plan.calls i) members t

      one :
          (i : ℕ) (v : Sim) (formed : List (List Node)) (nodes : List Node)
          → i < flags.commit_num
          → get_elem i formed ≡ ok (seats flags.commit_num i 1 (take flags.n (drop 1 nodes)))
          → Able flags (seats flags.commit_num i 1 (take flags.n (drop 1 nodes)))
          → Ready flags hs v
          → flags.tx_per_block ≤ length v.tx_list
          → After 1 v (pbft formed i v)
      one i v formed nodes lt at able ready_v le_v =
          let (t, e, next, taken) =
            elastico_pbft_returns flags fits env hs (plan.calls i)
              (seats flags.commit_num i 1 (take flags.n (drop 1 nodes))) v (fair i lt) able ready_v
              le_v in
          (
            t,
            rw at e,
            next,
            omega (arith, ap length taken, length-drop flags.tx_per_block v.tx_list le_v),
          )
