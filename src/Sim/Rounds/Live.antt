-- ===== src/Sim/Rounds/Live.antt =====
-- That PBFT of elastico in myBlockChain returns.
pub mod OneRound
pub mod Loop
use frustum.Prelude.{
  ℕ, zero, suc, ◌+◌, ◌*◌, ◌/◌, ◌≤◌, ◌<◌, ◌≡◌, refl, sym, ap, subst, ◌∙◌, List, [], ◌∷◌, ◌++◌, Bool,
  true, false, arith, length, take, drop, ltb, lt→ltb, Bytes, In, here, there,
}
use native.Mathlib.Nat.{suc-mul}
use frustum.Prelude.Outcome.{Outcome, ok, ◌>>=◌, ok-injective}
use frustum.Prelude.Slices.{get_elem, get_elem_total, get_elem-lt, get_elem-take}
use frustum.Sim.{Flags, Node, Transaction, ProposedBlock, FinalBlock, Blockchain}
use frustum.Sim.Round.{Round, final_commit_cap, new_round, turns, start}
use frustum.Sim.Round.Invariant.{AllFresh, IsFresh}
use frustum.Sim.Round.Finish.{honest_num}
use frustum.Sim.Round.Sweeps.{sweeps, sweeps_finish, turns-Reach}
use frustum.Sim.Round.Safety.{verify_sig, told-verify_sig}
use frustum.Sim.Setup.{SimEnv, each_node, with_block, reset, form_committees}
use frustum.Sim.Setup.Seats.{seats, honesty, form_committees-seats}
use frustum.Sim.Setup.Room.{seats-large, seats-get_elem, honest_seats, honest_num-seats}
use frustum.Sim.Setup.EachNode.{Each, each_node-Each}
use frustum.Sim.Pbft.{
  Sim, Call, get_tx_list, last_block, propose, final_block, add_block, vote, add_node_blocks,
  final_commitee, elastico_pbft,
}
use frustum.Sim.Rounds.{
  Plan, each_committee, elastico, main_loop, unless_empty, Folder, elastico_folder, round_of,
  run_main,
}
use frustum.Sim.Rounds.Drain.{AllCommittees, Drained, run_main-Drained}
use frustum.Prelude.Ensures.{Ensures-ok}

-- The arguments fit: there are committees, as large as n_per_commitee, with room in finalCommit.
pub record Fits (flags : Flags) : Type 0 where
  pub some_committee : 0 < flags.commit_num
  pub share : flags.n_per_commitee ≤ flags.n / flags.commit_num
  pub small : flags.n_per_commitee ≤ final_commit_cap

-- Each member of a committee gets its turn often enough, and the leader is a member.
pub record Fair (flags : Flags) (call : Call) : Type 0 where
  pub rounds : ℕ
  pub often : flags.n_per_commitee * (2 * flags.n_per_commitee + 6) < rounds
  pub ids : call.ids ≡ sweeps rounds flags.n_per_commitee
  pub leader : call.leader < flags.n_per_commitee

-- A committee in which PBFT can succeed.
pub record Able (flags : Flags) (members : List Node) : Type 0 where
  pub fresh : AllFresh members
  pub room : flags.n_per_commitee ≤ length members
  pub enough : 2 * flags.total_f < honest_num flags members

-- A state in which main runs a round.
pub record Ready (flags : Flags) (hs : List Bool) (s : Sim) : Type 0 where
  pub users : flags.n < length s.nodes
  pub honest : honesty s.nodes ≡ hs
  pub last : FinalBlock
  pub started : last_block s.chain ≡ ok last

abbrev pub is_kind : Node → Bool
is_kind m = m.is_honest

last_block-append :
    (chain : Blockchain) (last b : FinalBlock)
    → last_block chain ≡ ok last
    → last_block (chain ++ b ∷ []) ≡ ok b
last_block-append [] last b h = cc
last_block-append (a ∷ []) last b h = refl
last_block-append (a ∷ c ∷ chain) last b h = last_block-append (c ∷ chain) last b h

module _ (flags : Flags) (fits : Fits flags) where
  vote_returns :
      (call : Call) (members : List Node)
      → Fair flags call
      → Able flags members
      → (voted : List Node) × (vote flags call members ≡ ok voted)
        × (final_commitee flags voted ≡ ok voted)
  unfolding vote final_commitee
  vote_returns call members fair able =
      let (r, e, _, told) =
        sweeps_finish flags call.draws members fair.rounds able.fresh able.room fits.small
          able.enough fair.often in
      let run : turns flags call.draws call.ids (new_round flags members) ≡ ok r =
        ap (λ ids. turns flags call.draws ids (new_round flags members)) fair.ids ∙ e in
      (
        r.nodes,
        rw (run, lt→ltb flags.total_f r.final_commit (omega (arith, told))) refl,
        rw
            (told-verify_sig flags call.draws members able.fresh
              (turns-Reach flags call.draws call.ids start run) able.room (omega (arith, told)))
            (ground arith),
      )

  get_tx_list_enough :
      (pool : List Transaction)
      → flags.tx_per_block ≤ length pool
      → get_tx_list flags pool ≡ record {
        txs = take flags.tx_per_block pool;
        pool = drop flags.tx_per_block pool;
        locked = false;
      }
  unfolding get_tx_list
  get_tx_list_enough pool le = ground arith

  module _ (env : SimEnv) (hs : List Bool) where
    pub elastico_pbft_returns :
        (call : Call) (members : List Node) (s : Sim)
        → Fair flags call
        → Able flags members
        → Ready flags hs s
        → flags.tx_per_block ≤ length s.tx_list
        → (t : Sim) × (elastico_pbft flags env call members s ≡ ok t)
          × Ready flags hs t
          × (t.tx_list ≡ drop flags.tx_per_block s.tx_list)
    unfolding elastico_pbft propose add_block add_node_blocks
    elastico_pbft_returns call members s fair able ready le =
        let (leader, at) =
          get_elem_total call.leader members (omega (arith, fair.leader, able.room)) in
        let (voted, vote_ok, checked) = vote_returns call members fair able in
        let block : ProposedBlock = record {
          previous_block_hash = ready.last.hash;
          iteration = length s.chain;
          leader_ip = leader.ip;
          transactions = take flags.tx_per_block s.tx_list;
        } in
        let each =
          each_node-Each is_kind (with_block (final_block env block)) (λ m. refl) flags.n 1 s.nodes
            (omega (arith, ready.users)) in
        (
          record s {
            tx_list = drop flags.tx_per_block s.tx_list;
            chain = s.chain ++ final_block env block ∷ [];
            nodes = each.after;
          },
          rw (at, get_tx_list_enough s.tx_list le, ready.started, vote_ok, checked, each.returned)
              refl,
          record {
            users = omega (arith, ready.users, each.size);
            honest = each.kept ∙ ready.honest;
            last = final_block env block;
            started = last_block-append s.chain ready.last (final_block env block) ready.started;
          },
          refl,
        )
