-- ===== src/SsPbft/Tests.antt =====
-- The node of BlockChain/Consensus/SS-PBFT-V1 at concrete inputs.
use frustum.Prelude.{
  ℕ, ◌+◌, ◌*◌, ◌≤◌, refl, [], ◌∷◌, false, ltb, ◌==◌, if◌then◌else◌, arith, pos, codes, List, All,
  ◌≡◌, ◌≢◌,
}
use frustum.Prelude.Ensures.{Ensures}
use frustum.Message.{
  MsgType, Transaction, Block, pre_prepare, prepare, final_commit, shut_down, node_member,
  intra_leader_mem, global_leader_mem,
}
use frustum.Id.{NodeId}
use frustum.SsPbft.{Body, Env, Node, Msg, block_data, Server, Counter, new_node, new_msg}
use frustum.SsPbft.Handle.{msg_handle, run}
use frustum.SsPbft.Height.{Moved}
use frustum.Prelude.Outcome.{Outcome, ok, panic, ◌>>=◌}
use frustum.SsPbft.Height.Run.{msg_handle-Moved}
use frustum.SsPbft.Progress.{IsWorking}
use frustum.SsPbft.Progress.Run.{IsOrderly, run_returns}
use frustum.Pool.{new_tx_pool, commit_trs, ch_length, length_compare, add_all, add_tx}

-- A counter as a height and a number of votes, which wants more than half of the members.
abbrev Votes : Type 0
Votes = ℕ × ℕ

abbrev counter : Counter Votes
counter = record {
  new_quorum = (0, 0);
  reset_count = λ h q. (h, 0);
  handle = λ num h q.
      if h == q.0 then (ltb num (2 * (q.1 + 1)), q.1 + 1, (q.0, q.1 + 1)) else (false, 1024, q);
}

abbrev id : ℕ → NodeId
id k = record { shard_id = pos 1; in_shard_id = pos k }

abbrev empty_block : Block
empty_block = record {
  time_stamp = 0;
  block_height = 3;
  miner = [];
  pre_block_hash = [];
  block_hash = [];
  block_body = [];
}

abbrev read_block : Body → Outcome Block
read_block (block_data b) = ok b
read_block _ = panic

abbrev server : Server
server = record {
  add_shard = λ k ms shards. (k, ms) ∷ shards;
  find_node = λ k shards. codes "url";
  find_my_intra_leader = λ k shards. (id 1, codes "url");
  unmarshal_block = read_block;
  unmarshal_node_mem = λ b. panic;
}

abbrev env : Env
env = record {
  now = 7;
  codec = record { sha256 = λ bs. 1 ∷ []; serialize = λ t. 2 ∷ [] };
  arrivals = [];
}

abbrev node : Node Votes
node = record (new_node counter (id 2)) {
  shards =
      (pos 1, (id 1, codes "a") ∷ (id 2, codes "b") ∷ (id 3, codes "c") ∷ [])
      ∷ (pos 1024, (id 2, codes "b") ∷ [])
      ∷ [];
}

abbrev at_three : MsgType → Msg
at_three t = record (new_msg (id 1) (id 2) t (block_data empty_block)) { block_height = 3 }

msg_handle-Moved_example :
    Ensures
      (Moved counter (at_three pre_prepare) node)
      (msg_handle counter server env (at_three pre_prepare) node)
msg_handle-Moved_example = msg_handle-Moved counter server env (at_three pre_prepare) node

abbrev a_transaction : Transaction
a_transaction = record {
  time_stamp = 1;
  level = pos 0;
  from = pos 0;
  to = pos 0;
  payload = [];
  hash = [];
  orig_hash = [];
}

abbrev arriving : Env
arriving = record env { arrivals = (a_transaction ∷ []) ∷ [] }

node-IsWorking : IsWorking node
unfolding new_node new_tx_pool
node-IsWorking = record {
  own = (_, refl);
  leaders = (_, refl);
  plain = (_, refl, omega arith);
  staying = refl;
}

abbrev at_work : List (Env × Msg)
at_work =
    (arriving, at_three pre_prepare)
    ∷ (arriving, at_three prepare)
    ∷ (arriving, at_three final_commit)
    ∷ (arriving, at_three final_commit)
    ∷ []

IsOrderly-at :
    (t : MsgType)
    → t ≢ shut_down
    → t ≢ node_member
    → t ≢ intra_leader_mem
    → t ≢ global_leader_mem
    → IsOrderly server (arriving, at_three t)
IsOrderly-at t a b c d = record {
  supplied = (_, _, _, refl);
  no_exit = a;
  no_members = b;
  no_intra = c;
  no_global = d;
  proposal = λ e. (empty_block, refl);
  full_block = λ e. (empty_block, refl);
}

at_work-IsOrderly : All (IsOrderly server) at_work
at_work-IsOrderly = (
  IsOrderly-at pre_prepare (λ e. cc) (λ e. cc) (λ e. cc) (λ e. cc),
  (
    IsOrderly-at prepare (λ e. cc) (λ e. cc) (λ e. cc) (λ e. cc),
    (
      IsOrderly-at final_commit (λ e. cc) (λ e. cc) (λ e. cc) (λ e. cc),
      (IsOrderly-at final_commit (λ e. cc) (λ e. cc) (λ e. cc) (λ e. cc), tt),
    ),
  ),
)

run_returns_example :
    (t : Node Votes) × (run counter server at_work node ≡ ok t)
    × IsWorking t
    × (0 ≤ t.state.block_height)
    × (t.state.block_height ≤ 64)
unfolding new_node
run_returns_example =
    run_returns counter server at_work node at_work-IsOrderly
      (
        ((λ e. cc), omega arith),
        (((λ e. cc), omega arith), (((λ e. cc), omega arith), (((λ e. cc), omega arith), tt))),
      )
      node-IsWorking (omega arith)

-- The node takes the height of the PrePrepare, and with the quorum of FinalCommit makes the next block.
mines_next : (run counter server at_work node >>= λ t. ok t.state.block_height) ≡ ok 4
unfolding new_node run commit_trs ch_length length_compare new_tx_pool add_all add_tx
mines_next = refl
