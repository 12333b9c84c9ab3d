-- ===== src/Node/Tests.antt =====
-- A node of the frustum package at concrete inputs.
use frustum.Prelude.{
  ◌≡◌, refl, List, [], ◌∷◌, false, arith, pos, Bytes, codes, none, inl, inr, length, ◌≤◌,
  if◌then◌else◌, bytes_eq,
}
use frustum.Prelude.Table.{lookup, int_key, bytes_key}
use frustum.Prelude.Outcome.{ok}
use frustum.Message.{Transaction, NodeMsg, MsgType, null, new_node_msg, prepare, commit, finality}
use frustum.Id.{NodeId, string_to_id}
use frustum.Float.{floor_mul}
use frustum.Quorum.{
  new_quorum, reset_count, quorum_nodes, handle, intra_prepare, global_prepare, intra_commit,
  global_commit, intra_finality, global_finality,
}
use frustum.Pool.{ch_length, length_compare, commit_trs}
use frustum.Block.{Codec, hash_input, set_hash}
use frustum.Node.Types.{Node, Effect, follower, initialize}
use frustum.Node.Send.{broadcast_within_shard, stamped}
use frustum.Node.Send.Traffic.{
  blocks, posted_to-broadcast_within_shard, posted_to, posts, addressed,
}
use frustum.Node.Invariant.{IsSynced, msg_handle-IsSynced}
use frustum.Node.Chain.{Chained, run, run-Chained}
use frustum.Node.Rounds.{HeightMove, msg_handle-HeightMove}
use frustum.Node.Progress.{IsParticipant}
use frustum.Node.Progress.Phases.{phases_return}
use frustum.Node.Progress.Rounds.{rounds_return}
use frustum.Node.{
  Env, Act, reset_vote_check, generate_new_block, start_consensus, handle_finality, next_round,
  msg_handle,
}

abbrev codec : Codec
codec = record { sha256 = λ b. 7 ∷ b; serialize = λ tx. tx.payload }

abbrev env : Env
env = record { codec = codec; now = 5000000000; arrivals = [] }

abbrev tx : Transaction
tx = record {
  time_stamp = 1;
  level = pos 0;
  from = pos 0;
  to = pos 0;
  payload = 9 ∷ [];
  hash = [];
  orig_hash = [];
}

abbrev sample : Node
sample = record {
  server_id = codes "0-1";
  state = record {
    node_id = record { in_shard_id = pos 1; shard_id = pos 0 };
    role = follower;
    stage = initialize;
    block_height = 0;
    pre_block_hash = [];
    latest_block = none;
    prepare_check = record { intra = new_quorum intra_prepare; global = new_quorum global_prepare };
    commit_check = record { intra = new_quorum intra_commit; global = new_quorum global_commit };
    finality_check = record {
      intra = new_quorum intra_finality;
      global = new_quorum global_finality;
    };
  };
  tx_pool = record { channels = record { queue = tx ∷ tx ∷ []; cap = 8 } ∷ []; priority = false };
  peers = record {
    self_node_id = codes "0-1";
    shards =
        (pos 0, record { member = (codes "0-1", codes "a") ∷ (codes "0-2", codes "b") ∷ [] })
        ∷ (pos 1024, record { member = (codes "1-3", codes "c") ∷ [] })
        ∷ (pos 1025, record { member = (codes "1-3", codes "c") ∷ [] })
        ∷ [];
  };
  workers_stopped = false;
  exiting = false;
}

sample-IsSynced : IsSynced sample.state
unfolding new_quorum
sample-IsSynced = record {
  prepare_phase = record {
    intra_round = refl;
    global_round = refl;
    intra_name = refl;
    global_name = refl;
  };
  commit_phase = record {
    intra_round = refl;
    global_round = refl;
    intra_name = refl;
    global_name = refl;
  };
  finality_phase = record {
    intra_round = refl;
    global_round = refl;
    intra_name = refl;
    global_name = refl;
  };
}

abbrev local : NodeId
local = record { in_shard_id = pos 1; shard_id = pos 0 }

sample-IsParticipant : IsParticipant local sample
unfolding string_to_id
sample-IsParticipant = record {
  ready = record {
    parsed = refl;
    intra = (record { member = (codes "1-3", codes "c") ∷ [] }, refl);
    global = (record { member = (codes "1-3", codes "c") ∷ [] }, refl);
    local = (record { member = (codes "0-1", codes "a") ∷ (codes "0-2", codes "b") ∷ [] }, refl);
  };
  identity = refl;
}

-- A message of another node for this one.
abbrev said : Bytes → MsgType → NodeMsg
said from t = record {
  time_stamp = 4;
  from = from;
  to = codes "0-1";
  msg_type = t;
  msg_body = null;
  epoch_num = 0;
  block_height = 0;
  consensus_type = [];
}

abbrev reached : Act → Node
reached (ok r) = r.0
reached _ = sample

abbrev sent : Act → List Effect
sent (ok r) = r.1
sent _ = []

abbrev closing : Act
closing = msg_handle env (said (codes "1-3") finality) sample

closing_returns : closing ≡ ok (reached closing, sent closing)
unfolding msg_handle handle_finality next_round start_consensus generate_new_block commit_trs
    ch_length length_compare set_hash hash_input reset_vote_check reset_count new_quorum handle
    quorum_nodes string_to_id broadcast_within_shard stamped new_node_msg floor_mul
closing_returns = refl

block_of_one_round : length (blocks (sent closing)) ≡ 1
unfolding msg_handle handle_finality next_round start_consensus generate_new_block commit_trs
    ch_length length_compare set_hash hash_input reset_vote_check reset_count new_quorum handle
    quorum_nodes string_to_id broadcast_within_shard stamped new_node_msg floor_mul
block_of_one_round = refl

abbrev one_round : Act
one_round = run codec ((env, said (codes "1-3") finality) ∷ []) sample

one_round_returns : one_round ≡ ok (reached one_round, sent one_round)
unfolding run msg_handle handle_finality next_round start_consensus generate_new_block commit_trs
    ch_length length_compare set_hash hash_input reset_vote_check reset_count new_quorum handle
    quorum_nodes string_to_id broadcast_within_shard stamped new_node_msg floor_mul
one_round_returns = refl

posted_to-broadcast_within_shard_example :
    (es : List Effect) × (broadcast_within_shard (pos 0) (said (codes "0-1") commit) sample ≡ ok es)
    × ((id : Bytes)
        → posted_to id es ≡ (
            if bytes_eq id (codes "0-1")
            then none
            else addressed id
                (said (codes "0-1") commit)
                (lookup id ((codes "0-1", codes "a") ∷ (codes "0-2", codes "b") ∷ []))))
    × (posts es ≤ 2)
posted_to-broadcast_within_shard_example =
    posted_to-broadcast_within_shard (pos 0) (said (codes "0-1") commit) sample
      (record { member = (codes "0-1", codes "a") ∷ (codes "0-2", codes "b") ∷ [] }) refl

msg_handle-IsSynced_example : IsSynced (reached closing).state
msg_handle-IsSynced_example =
    msg_handle-IsSynced env (said (codes "1-3") finality) sample (reached closing) (sent closing)
      sample-IsSynced closing_returns

msg_handle-HeightMove_example :
    HeightMove (said (codes "1-3") finality) sample (reached closing, sent closing)
msg_handle-HeightMove_example =
    msg_handle-HeightMove env (said (codes "1-3") finality) sample (reached closing) (sent closing)
      sample-IsSynced closing_returns

run-Chained_example :
    Chained codec [] (blocks (sent one_round)) (reached one_round).state.pre_block_hash
run-Chained_example =
    run-Chained codec ((env, said (codes "1-3") finality) ∷ []) sample (reached one_round)
      (sent one_round) one_round_returns

abbrev two_of_shard : NodeId
two_of_shard = record { in_shard_id = pos 2; shard_id = pos 0 }

abbrev three_of_next : NodeId
three_of_next = record { in_shard_id = pos 3; shard_id = pos 1 }

two_parsed : string_to_id (codes "0-2") ≡ ok two_of_shard
unfolding string_to_id
two_parsed = refl

three_parsed : string_to_id (codes "1-3") ≡ ok three_of_next
unfolding string_to_id
three_parsed = refl

abbrev phases : List (Env × NodeMsg)
phases = (env, said (codes "0-2") prepare) ∷ (env, said (codes "1-3") commit) ∷ []

phases_return_example :
    (r : Node × List Effect) × (run codec phases sample ≡ ok r)
    × (r.0.peers ≡ sample.peers)
    × (r.0.state.node_id ≡ sample.state.node_id)
phases_return_example = phases_return codec local phases sample sample-IsParticipant (
  ((two_of_shard, two_parsed), inr (inl refl)),
  (((three_of_next, three_parsed), inr (inr refl)), tt),
)

rounds_return_example :
    (r : Node × List Effect) × (msg_handle env (said (codes "1-3") finality) sample ≡ ok r)
    × (r.0.peers ≡ sample.peers)
    × (r.0.state.node_id ≡ sample.state.node_id)
unfolding ch_length
rounds_return_example =
    rounds_return env local three_of_next (said (codes "1-3") finality) sample sample-IsParticipant
      three_parsed (omega arith) refl (inr refl)
