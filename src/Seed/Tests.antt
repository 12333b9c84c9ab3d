-- ===== src/Seed/Tests.antt =====
-- The seed node of BlockChain/SeedNode at concrete inputs.
use frustum.Prelude.{
  ◌+◌, ◌≤◌, ◌<◌, ◌≡◌, refl, sym, [], ◌∷◌, ◌++◌, Bool, true, false, arith, ℤ, pos, int_eq, Bytes,
  codes, some, All,
}
use mathlib.Core.Bool.{false≢true}
use frustum.Prelude.Table.{lookup, int_key, bytes_key}
use frustum.Prelude.Outcome.{Outcome, ok, blocked}
use frustum.Message.{NodeMsg, MsgType, null, registration, mining_stop, prepare}
use frustum.Id.{NodeId, string_to_id}
use frustum.Peers.{NodeTable, add_node, intra_leader_shard_id}
use frustum.Peers.Members.{Shard, new_shard}
use frustum.Peers.Members
use frustum.Seed.{
  SeedNode, SeedEnv, send_msg_ch_cap, is_special, elect, elect_shards, select_intra_leader,
  send_mem, send_msg, unmarshal_client_addr, seed_msg_handle, handle_registration,
}
use frustum.Seed.Outbox.{receivers, send_mem-receivers}
use frustum.Seed.Chosen.{AllChosen}
use frustum.Seed.Election.{Elected, select_intra_leader-Elected}
use frustum.Seed.Stop.{seed_run, seed_run-stop}
use frustum.Seed.Registration.{send_msg-registration}

abbrev env : SeedEnv
env = record { json = λ body. b'"' ∷ 99 ∷ b'"' ∷ []; now = 5000000000; intn = λ k n. 0 }

abbrev leaders : Shard
leaders = record { member = (codes "1-1", codes "a") ∷ [] }

abbrev first_shard : Shard
first_shard = record { member = (codes "1-1", codes "a") ∷ (codes "1-2", codes "b") ∷ [] }

abbrev seed : SeedNode
seed = record {
  consensus_type = codes "RapidChain";
  consensus_stop = 0;
  peers = record {
    self_node_id = codes "0-0";
    shards =
        (pos 1024, leaders)
        ∷ (pos 1025, new_shard)
        ∷ (pos 0, new_shard)
        ∷ (pos 1, first_shard)
        ∷ [];
  };
  send_msg_ch = [];
  cli_ch = [];
}

abbrev from_node : Bytes → MsgType → NodeMsg
from_node id t = record {
  time_stamp = 4;
  from = id;
  to = codes "0-0";
  msg_type = t;
  msg_body = null;
  epoch_num = 0;
  block_height = 0;
  consensus_type = codes "PBFT";
}

abbrev value : Outcome SeedNode → SeedNode
value (ok n) = n
value _ = seed

elected_first : select_intra_leader env seed ≡ ok seed
unfolding select_intra_leader elect_shards elect is_special string_to_id Members.add_node
elected_first = refl

send_mem-receivers_example :
    (0 + 2 ≤ send_msg_ch_cap
      → (n' : SeedNode) × (send_mem env seed ≡ ok n')
        × (n'.peers ≡ seed.peers)
        × (receivers n'.send_msg_ch ≡ [] ++ codes "1-1" ∷ codes "1-2" ∷ []))
    × (send_msg_ch_cap < 0 + 2 → send_mem env seed ≡ blocked)
unfolding is_special
send_mem-receivers_example = send_mem-receivers env seed (omega arith)

seed_run-stop_example :
    seed_run env (from_node (codes "1-1") mining_stop ∷ []) seed
    ≡ ok (record seed { consensus_stop = 1; cli_ch = codes "exit" ∷ [] })
seed_run-stop_example =
    seed_run-stop env (from_node (codes "1-1") mining_stop ∷ []) seed leaders (refl, tt) refl refl
      (omega arith) (omega arith)

abbrev registered : Outcome SeedNode
registered = seed_msg_handle env (from_node (codes "1-3") registration) seed

registered_returns : registered ≡ ok (value registered)
unfolding seed_msg_handle handle_registration add_node string_to_id unmarshal_client_addr
registered_returns = refl

send_msg-registration_example :
    (nt : NodeTable) × (fresh : Bool) × (url : Bytes) × (add_node
        (codes "1-3")
        (unmarshal_client_addr env (from_node (codes "1-3") registration))
        seed.peers
      ≡ ok (nt, fresh, url))
    × (send_msg (record (from_node [] prepare) { to = codes "1-3" }) (value registered)
        ≡ ok ((url, record (from_node [] prepare) { to = codes "1-3" }) ∷ []))
    × (fresh ≡ true → url ≡ unmarshal_client_addr env (from_node (codes "1-3") registration))
    × ((value registered).consensus_type ≡ codes "PBFT")
send_msg-registration_example =
    send_msg-registration env (from_node (codes "1-3") registration)
      (record (from_node [] prepare) { to = codes "1-3" }) seed (value registered) refl refl
      registered_returns

abbrev one_of_first : NodeId
one_of_first = record { shard_id = pos 1; in_shard_id = pos 1 }

abbrev two_of_first : NodeId
two_of_first = record { shard_id = pos 1; in_shard_id = pos 2 }

one_parsed : string_to_id (codes "1-1") ≡ ok one_of_first
unfolding string_to_id
one_parsed = refl

two_parsed : string_to_id (codes "1-2") ≡ ok two_of_first
unfolding string_to_id
two_parsed = refl

abbrev two_shards : SeedNode
two_shards = record seed {
  peers = record {
    self_node_id = codes "0-0";
    shards = (pos 1024, new_shard) ∷ (pos 1, first_shard) ∷ [];
  };
}

select_intra_leader-Elected_example :
    (n' : SeedNode) × (chosen : Shard) × (select_intra_leader env two_shards ≡ ok n')
    × (lookup intra_leader_shard_id n'.peers.shards ≡ some chosen)
    × All (Elected env ((pos 1024, new_shard) ∷ (pos 1, first_shard) ∷ [])) chosen.member
    × AllChosen env ((pos 1024, new_shard) ∷ (pos 1, first_shard) ∷ []) chosen
    × ((k : ℤ)
        → int_eq intra_leader_shard_id k ≡ false
        → lookup k n'.peers.shards ≡ lookup k two_shards.peers.shards)
unfolding is_special
select_intra_leader-Elected_example =
    select_intra_leader-Elected env two_shards (λ k n h. h)
      (
        (λ special. absurd (false≢true (sym special))),
        (
          (λ ordinary.
              (omega arith, ((one_of_first, one_parsed), ((two_of_first, two_parsed), tt)))),
          tt,
        ),
      )
