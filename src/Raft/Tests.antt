-- ===== src/Raft/Tests.antt =====
-- Elections and confirmations of BlockChain/Consensus/SS-Raft at concrete inputs.
use frustum.Prelude.{true, List, ℕ, ◌≡◌, refl, [], ◌∷◌, arith, pos, here}
use frustum.Id.{NodeId}
use frustum.Raft.{
  check_confirm_start_vote, intra_candidate, intra_leader, RaftMsg, RaftState, Confirmation,
  new_raft_state, respond_start_vote, ss_raft_check_commit,
}
use frustum.Prelude.{Bytes, none}
use frustum.Raft.Blocks.{
  ChainOps, MiningEnv, raft_start_mining, ss_raft_start_mining, raft_check_block, raft_check_blocks,
  raft_check_commit, waiting, raft_next,
}
use frustum.Raft.Blocks.Answers.{Receiver, answers, answers_unheard}
use frustum.Raft.SeedNode.{SeedNode, new_seed_node, ss_raft}
use frustum.Raft.SeedNode.Leaders.{global_mems, registrations, announced_once}
use frustum.Raft.Votes.{Run, stop, start_vote, vote_once}
use frustum.Raft.Election.{check_confirm_start_vote-leader}

abbrev node : ℕ → ℕ → NodeId
node shard n = record { shard_id = pos shard; in_shard_id = pos n }

abbrev said : NodeId → ℕ → ℕ → RaftMsg
said id term height = record { from = id; intra_term = term; block_height = height }

abbrev confirmed : Confirmation
confirmed = record { to = node 1 2; term = 1; height = 0 }

-- A chain as the hashes of its blocks, the latest first.
latest_hash : List Bytes → Bytes
latest_hash [] = []
latest_hash (h ∷ hs) = h

abbrev hashes : ChainOps (List Bytes)
hashes = record {
  tip = latest_hash;
  add_new_block = λ b chain. b.block_hash ∷ chain;
  set_hash = λ b. record b { block_hash = 1 ∷ [] };
}

-- A vote for the first candidate of a term, and none for the second.
one_vote :
    Run hashes new_raft_state
      (confirmed ∷ [])
      (respond_start_vote (said (node 1 2) 1 0) new_raft_state).0
unfolding respond_start_vote new_raft_state
one_vote = start_vote (said (node 1 2) 1 0) (start_vote (said (node 1 3) 1 0) stop)

vote_once_example : confirmed ≡ confirmed
vote_once_example =
    vote_once hashes new_raft_state (respond_start_vote (said (node 1 2) 1 0) new_raft_state).0
      (confirmed ∷ []) confirmed confirmed one_vote here here refl

abbrev mining : RaftState
mining = record new_raft_state { block_height = 3; batch_block_count = 3 }

abbrev candidate : RaftState
candidate = record new_raft_state { intra_role = intra_candidate; intra_term = 2 }

abbrev votes : List RaftMsg
votes = said (node 1 2) 2 0 ∷ said (node 1 3) 1 0 ∷ said (node 1 4) 2 0 ∷ []

check_confirm_start_vote-leader_example :
    ((check_confirm_start_vote 2 votes candidate).1 ≡ true)
    × ((check_confirm_start_vote 2 votes candidate).0.intra_role ≡ intra_leader)
    × ((check_confirm_start_vote 2 votes candidate).0.intra_term ≡ 2)
unfolding new_raft_state
check_confirm_start_vote-leader_example =
    check_confirm_start_vote-leader 2 votes candidate refl (omega arith) (omega arith)

abbrev mining_env : MiningEnv
mining_env = record { now = 7; batch = [] }

abbrev receivers : List (Receiver hashes)
receivers = (node 1 2, new_raft_state, []) ∷ (node 2 1, mining, (1 ∷ []) ∷ []) ∷ []

answers_unheard_example :
    (ss_raft_check_commit
        (pos 1)
        1
        1
        (answers hashes
          (ss_raft_start_mining hashes mining_env (node 1 1) (mining, [])).1
          (ss_raft_start_mining hashes mining_env (node 1 1) (mining, [])).2
          receivers)
        (ss_raft_start_mining hashes mining_env (node 1 1) (mining, [])).0.0
      ≡ ((ss_raft_start_mining hashes mining_env (node 1 1) (mining, [])).0.0, none))
    × (raft_check_commit 1
          (answers hashes
            (raft_start_mining hashes mining_env (node 1 1) (mining, [])).1
            (raft_start_mining hashes mining_env (node 1 1) (mining, [])).2
            receivers)
          (raft_start_mining hashes mining_env (node 1 1) (mining, [])).0.0
        ≡ ((raft_start_mining hashes mining_env (node 1 1) (mining, [])).0.0, waiting))
unfolding new_raft_state
answers_unheard_example =
    answers_unheard hashes mining_env (node 1 1) mining [] receivers 1 1 (omega arith)

-- An answer that carries the height would be counted.
heard : (raft_check_commit 1 (said (node 1 2) 0 3 ∷ []) mining).1 ≡ raft_next
unfolding raft_check_commit raft_check_blocks raft_check_block new_raft_state
heard = refl

-- Two shards, of two nodes each.
abbrev seed : SeedNode
seed = record (new_seed_node [] [] [] 1000 ss_raft) {
  shards = (pos 1, node 1 1 ∷ node 1 2 ∷ []) ∷ (pos 2, node 2 1 ∷ node 2 2 ∷ []) ∷ [];
}

-- Two leaders of the shard 1 are announced as if they were those of both shards.
announced_once_example :
    global_mems (registrations (node 1 1 ∷ node 1 2 ∷ node 2 1 ∷ []) seed).1 ≡ 1
unfolding new_seed_node
announced_once_example =
    announced_once (node 1 1 ∷ node 1 2 ∷ node 2 1 ∷ []) seed (λ e. cc) (refl, (refl, (refl, tt)))
