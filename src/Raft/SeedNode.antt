-- ===== src/Raft/SeedNode.antt =====
-- BlockChain/Consensus/SS-Raft/SeedNode.go: the seed node, its messages and commands. The package
-- SS-Raft/NetWork is not in the repository: a table of members is the list of their identities, in the
-- order in which `range` visits it, which stand for their channels. The pauses, the transactions that a
-- worker sends and what is printed are left out.
pub mod Leaders
use frustum.Prelude.{
  ℕ, zero, suc, ◌+◌, ◌/◌, ◌==◌, List, [], ◌∷◌, ◌++◌, Bool, true, false, not, ◌&&◌, if◌then◌else◌, ℤ,
  pos, int_eq, Bytes, codes, bytes_eq, length,
}
use frustum.Prelude.Table.{Table, int_key, lookup}
use frustum.Prelude.Outcome.{Outcome, ok, panic, ◌>>=◌}
use frustum.Id.{NodeId}

pub data Protocol : Type 0 where
  raft ss_raft ss_raft_pro : Protocol

abbrev pub same_id : NodeId → NodeId → Bool
same_id a b = int_eq a.shard_id b.shard_id && int_eq a.in_shard_id b.in_shard_id

abbrev pub is_member : NodeId → List NodeId → Bool
is_member id [] = false
is_member id (m ∷ ms) = if same_id m id then true else is_member id ms

-- A member under its identity, which replaces an entry of the same.
abbrev pub add_mem : NodeId → List NodeId → List NodeId
add_mem id [] = id ∷ []
add_mem id (m ∷ ms) = if same_id m id then m ∷ ms else m ∷ add_mem id ms

-- SeedNode; the last two say whether ElegantExitCh and ShutDownSendTrCh are closed.
pub record SeedNode : Type 0 where
  pub all_node : List NodeId
  pub shards : Table ℤ (List NodeId)
  pub shard_leaders : List NodeId
  pub send_tr_tps : ℕ
  pub send_tr_worker_num : ℕ
  pub consensus_type : Protocol
  pub exited : Bool
  pub send_tr_stopped : Bool

-- What is sent, with the table that BroadCastMessage gets or the node whose channel is used, and what
-- is started. GlobalMem carries the leaders.
pub data SeedEffect : Type 0 where
  hello_world start : List NodeId → SeedEffect
  analysis : NodeId → SeedEffect
  global_mem : List NodeId → List NodeId → SeedEffect
  send_tr_later : SeedEffect
  analysis_later : SeedEffect
  start_commit : NodeId → SeedEffect
  send_tr_worker : NodeId → SeedEffect

-- NewSeedNode, with the tables that NewNetWork makes.
unfoldable pub new_seed_node :
    List NodeId → Table ℤ (List NodeId) → List NodeId → ℕ → Protocol → SeedNode
new_seed_node all shards leaders tps consensus = record {
  all_node = all;
  shards = shards;
  shard_leaders = leaders;
  send_tr_tps = tps;
  send_tr_worker_num = 0;
  consensus_type = consensus;
  exited = false;
  send_tr_stopped = false;
}

-- AddMem on a table of members, and NewMemberManager.
pub record Members : Type 0 where
  pub empty : List NodeId
  pub add : NodeId → List NodeId → List NodeId

-- A member of a shard, which is made if there is none.
abbrev add_to_shard : Members → NodeId → Table ℤ (List NodeId) → Table ℤ (List NodeId)
add_to_shard net id [] = (id.shard_id, net.add id net.empty) ∷ []
add_to_shard net id ((k, ms) ∷ shards) =
    if int_eq k id.shard_id
    then (k, net.add id ms) ∷ shards
    else (k, ms) ∷ add_to_shard net id shards

abbrev add_nodes : Members → List NodeId → SeedNode → SeedNode
add_nodes net [] sn = sn
add_nodes net (id ∷ ids) sn =
    add_nodes net ids
      (record sn { all_node = net.add id sn.all_node; shards = add_to_shard net id sn.shards })

abbrev delete_shard : ℤ → Table ℤ (List NodeId) → Table ℤ (List NodeId)
delete_shard id [] = []
delete_shard id ((k, ms) ∷ shards) =
    let rest = delete_shard id shards in if int_eq k id then rest else (k, ms) ∷ rest

unfoldable pub update_node_net : Members → List NodeId → SeedNode → SeedNode
update_node_net net ids sn =
    let all = add_nodes net ids sn in record all { shards = delete_shard (pos 0) all.shards }

-- Whether the leaders are announced: with Raft always, else when they are as many as the shards.
unfoldable pub leaders_complete : SeedNode → Bool
leaders_complete sn = elim sn.consensus_type [
  | raft ↦ true
  | ss_raft ↦ length sn.shards == length sn.shard_leaders
  | ss_raft_pro ↦ length sn.shards == length sn.shard_leaders
]

-- The case IntraLeaderRegistration of HandleMsg.
unfoldable pub handle_registration : NodeId → SeedNode → SeedNode × List SeedEffect
unfolding leaders_complete
handle_registration from sn =
    let sn' = record sn { shard_leaders = add_mem from sn.shard_leaders } in
    (
      sn',
      if leaders_complete sn'
          then global_mem sn'.shard_leaders sn'.all_node ∷ send_tr_later ∷ []
          else [],
    )

-- The case stopSendTr: a channel that is closed twice panics.
unfoldable pub handle_stop_send_tr : SeedNode → Outcome (SeedNode × List SeedEffect)
handle_stop_send_tr sn =
    if sn.send_tr_stopped
    then panic
    else ok (record sn { send_tr_stopped = true }, analysis_later ∷ [])

pub data SeedMsg : Type 0 where
  intra_leader_registration : NodeId → SeedMsg
  stop_send_tr : SeedMsg
  other_msg : SeedMsg

unfoldable pub handle_msg : SeedMsg → SeedNode → Outcome (SeedNode × List SeedEffect)
unfolding handle_registration handle_stop_send_tr
handle_msg (intra_leader_registration from) sn = ok (handle_registration from sn)
handle_msg stop_send_tr sn = handle_stop_send_tr sn
handle_msg other_msg sn = ok (sn, [])

abbrev workers : ℕ → NodeId → List SeedEffect
workers zero id = []
workers (suc n) id = send_tr_worker id ∷ workers n id

-- What SendTr does for a leader.
abbrev send_tr_to : Protocol → ℕ → NodeId → List SeedEffect
send_tr_to raft n id = start_commit id ∷ workers n id
send_tr_to ss_raft n id = if int_eq id.shard_id (pos 1) then start_commit id ∷ workers n id else []
send_tr_to ss_raft_pro n id = []

abbrev send_tr_to_each : Protocol → ℕ → List NodeId → List SeedEffect
send_tr_to_each p n [] = []
send_tr_to_each p n (id ∷ ids) = send_tr_to p n id ++ send_tr_to_each p n ids

unfoldable pub send_tr : SeedNode → SeedNode × List SeedEffect
send_tr sn =
    let n = sn.send_tr_tps / 100 in
    (record sn { send_tr_worker_num = n }, send_tr_to_each sn.consensus_type n sn.shard_leaders)

abbrev to_miners : Protocol → List NodeId → List SeedEffect
to_miners p [] = []
to_miners raft (id ∷ ids) = analysis id ∷ to_miners raft ids
to_miners p (id ∷ ids) =
    let rest = to_miners p ids in if int_eq id.shard_id (pos 1) then analysis id ∷ rest else rest

-- HandleCLI: the commands that change or send something.
unfoldable pub handle_cli : Bytes → SeedNode → Outcome (SeedNode × List SeedEffect)
unfolding send_tr
handle_cli line sn =
    if bytes_eq line (codes "/quit")
    then (if sn.exited then panic else ok (record sn { exited = true }, []))
    else if bytes_eq line (codes "/HelloWorld")
    then ok (sn, hello_world sn.all_node ∷ [])
    else if bytes_eq line (codes "/start")
    then ok (sn, start sn.all_node ∷ [])
    else if bytes_eq line (codes "/sendTr")
    then ok (send_tr sn)
    else if bytes_eq line (codes "/analysis")
    then ok (sn, to_miners sn.consensus_type sn.shard_leaders)
    else ok (sn, [])
