-- ===== src/Sim/Main/Start.antt =====
-- That main of elastico in myBlockChain gets to its loop, and out of it.
use frustum.Prelude.{
  ℕ, zero, suc, ◌+◌, ◌-◌, ◌/◌, ◌<◌, ◌≡◌, refl, ap, ◌∙◌, List, [], ◌∷◌, arith, length,
}
use frustum.Prelude.Outcome.{ok}
use frustum.Prelude.Slices.{set_elem, get_elem_total, length-set_elem}
use frustum.Sim.{Flags, Node, FinalBlock}
use frustum.Sim.Round.{change}
use frustum.Sim.Setup.{
  SimEnv, zero_node, new_nodes, dishonest, mark_faulty, init_nodes, tx_gen, genesis, with_block,
}
use frustum.Sim.Setup.Seats.{honesty}
use frustum.Sim.Setup.EachNode.{each_node-Each}
use frustum.Sim.Pbft.{Sim}
use frustum.Sim.Rounds.Live.{Ready, is_kind}
use frustum.Sim.Main.{Draws, elastico_start}

length-new_nodes : (n : ℕ) (chain : List FinalBlock) → length (new_nodes n chain) ≡ n
length-new_nodes zero chain = refl
length-new_nodes (suc n) chain = ap suc (length-new_nodes n chain)

length-tx_gen :
    (env : SimEnv) (count i : ℕ) (intn : ℕ → ℕ) → length (tx_gen env count i intn) ≡ count
unfolding tx_gen
length-tx_gen env zero i intn = refl
length-tx_gen env (suc count) i intn = ap suc (length-tx_gen env count (suc i) intn)

-- What the documentation of rand.Intn promises of each call with the argument `n - 1`.
abbrev pub AllIntn : ℕ → (ℕ → ℕ) → Type 0
AllIntn n intn = (i : ℕ) → intn i < n - 1

mark_faulty-returns :
    (n : ℕ) (intn : ℕ → ℕ)
    → AllIntn n intn
    → (count i : ℕ) (nodes : List Node) → n < length nodes
    → (after : List Node) × (mark_faulty count i intn nodes ≡ ok after)
      × (length after ≡ length nodes)
unfolding mark_faulty change
mark_faulty-returns n intn within zero i nodes users = (nodes, refl, refl)
mark_faulty-returns n intn within (suc count) i nodes users =
    let (m, at) = get_elem_total (intn i + 1) nodes (omega (arith, within i)) in
    let (after, e, size) =
      mark_faulty-returns n intn within count (suc i) (set_elem (intn i + 1) (dishonest m) nodes)
        (omega (arith, length-set_elem (intn i + 1) (dishonest m) nodes)) in
    (after, rw at e, size ∙ length-set_elem (intn i + 1) (dishonest m) nodes)

-- With random numbers in range, main of elastico gets to its loop, in a state in which a round can
-- run, with txNum transactions.
pub elastico_start_returns :
    (flags : Flags) (env : SimEnv) (draws : Draws)
    → AllIntn flags.n draws.faulty
    → (s : Sim) × (elastico_start flags env draws ≡ ok s)
      × Ready flags (honesty s.nodes) s
      × (length s.tx_list ≡ flags.tx_num)
unfolding elastico_start init_nodes
elastico_start_returns flags env draws within =
    let (made, e, size) =
      mark_faulty-returns flags.n draws.faulty within (flags.n / 3) 1
        (zero_node ∷ new_nodes flags.n (genesis env ∷ []))
        (omega (arith, length-new_nodes flags.n (genesis env ∷ []))) in
    let users : flags.n < length made =
      omega (arith, size, length-new_nodes flags.n (genesis env ∷ [])) in
    let each =
      each_node-Each is_kind (with_block (genesis env)) (λ m. refl) flags.n 1 made
        (omega (arith, users)) in
    (
      record {
        tx_list = tx_gen env flags.tx_num 0 draws.txs;
        chain = genesis env ∷ [];
        nodes = each.after;
        committees = [];
      },
      rw (e, each.returned) refl,
      record {
        users = omega (arith, users, each.size);
        honest = refl;
        last = genesis env;
        started = refl;
      },
      length-tx_gen env flags.tx_num 0 draws.txs,
    )
