-- ===== src/Seed.antt =====
-- BlockChain/SeedNode: the node that registers the others, elects leaders and starts and stops a run.
-- A Go map is an association list in the order of `range`. A handler runs on the goroutine that alone
-- receives from SendMsgCh and CLI, so that a send to a full channel waits for ever. JSON, the time and
-- the random numbers are parameters; the time stands still while a handler runs.
pub mod Outbox
pub mod Chosen
pub mod Election
pub mod Stop
pub mod Registration
mod Tests
use frustum.Prelude.{
  ℕ, suc, ◌+◌, ◌-◌, List, [], ◌∷◌, ◌++◌, Bool, true, false, ◌||◌, ◌&&◌, ltb, ◌==◌, if◌then◌else◌, ℤ,
  pos, int_eq, Bytes, codes, bytes_eq, length,
}
use frustum.Prelude.Table.{Table, int_key, lookup, insert}
use frustum.Prelude.Outcome.{Outcome, ok, panic, blocked, deref, ◌>>=◌}
use frustum.Message.{
  MsgType, Body, NodeMsg, new_node_msg, null, members, start, registration, mining_stop,
  node_member, intra_leader_mem, global_leader_mem, shut_down,
}
use frustum.Id.{NodeId, string_to_id}
use frustum.Peers.Members.{Shard, new_shard}
use frustum.Peers.Members
use frustum.Peers.{
  NodeTable, new_node_table, add_node, find_node, intra_leader_shard_id, global_leader_shard_id,
}

-- The capacities of SendMsgCh and CLI.
abbrev pub send_msg_ch_cap : ℕ
send_msg_ch_cap = 1024

abbrev pub cli_cap : ℕ
cli_cap = 16

-- The node with its state and what its two channels hold, the oldest first.
pub record SeedNode : Type 0 where
  pub consensus_type : Bytes
  pub consensus_stop : ℕ
  pub peers : NodeTable
  pub send_msg_ch : List NodeMsg
  pub cli_ch : List Bytes

-- json.Marshal, time.Now, and what rand.Intn answers in the round for a shard.
pub record SeedEnv : Type 0 where
  pub json : Body → Bytes
  pub now : ℕ
  pub intn : ℤ → ℕ → ℕ

-- What a handler leaves to others: a command that a goroutine gives after a pause, the end of the
-- server, and the reading of a file.
pub data SeedEffect : Type 0 where
  later : Bytes → SeedEffect
  stop_server read_eth_tx : SeedEffect

abbrev pub SeedAct : Type 0
SeedAct = Outcome (SeedNode × List SeedEffect)

unfoldable pub new_seed_node : Bytes → Outcome SeedNode
new_seed_node node_id = do
  peers ← new_node_table node_id
  ok (record {
    consensus_type = [];
    consensus_stop = 0;
    peers = peers;
    send_msg_ch = [];
    cli_ch = [];
  })

-- n.SeedNodeCh.SendMsgCh <- msg
unfoldable pub send : NodeMsg → SeedNode → Outcome SeedNode
send msg n =
    if ltb (length n.send_msg_ch) send_msg_ch_cap
    then ok (record n { send_msg_ch = n.send_msg_ch ++ msg ∷ [] })
    else blocked

-- n.SeedNodeCh.CLI <- command
unfoldable pub command : Bytes → SeedNode → Outcome SeedNode
command line n =
    if ltb (length n.cli_ch) cli_cap
    then ok (record n { cli_ch = n.cli_ch ++ line ∷ [] })
    else blocked

unfoldable pub send_each : List NodeMsg → SeedNode → Outcome SeedNode
unfolding send
send_each [] n = ok n
send_each (msg ∷ msgs) n = send msg n >>= send_each msgs

-- The cases 0, 1024 and 1025, which are no shards of consensus nodes.
unfoldable pub is_special : ℤ → Bool
is_special k = int_eq k (pos 0) || int_eq k intra_leader_shard_id || int_eq k global_leader_shard_id

-- The loop of BroadCast over the members of a shard.
post_members : Bytes → NodeMsg → Table Bytes Bytes → List NodeMsg
post_members self msg [] = []
post_members self msg ((k, v) ∷ m) =
    if bytes_eq k self
    then post_members self msg m
    else record msg { to = k } ∷ post_members self msg m

post_shards : Bytes → NodeMsg → Table ℤ Shard → List NodeMsg
post_shards self msg [] = []
post_shards self msg ((k, s) ∷ shards) =
    if is_special k
    then post_shards self msg shards
    else post_members self msg s.member ++ post_shards self msg shards

-- BroadCast with the scope "all", and with the scope "shard".
unfoldable pub broad_cast_all : NodeMsg → SeedNode → Outcome SeedNode
unfolding post_shards post_members is_special
broad_cast_all msg n = send_each (post_shards n.peers.self_node_id msg n.peers.shards) n

unfoldable pub broad_cast_shard : ℤ → NodeMsg → SeedNode → Outcome SeedNode
unfolding post_members
broad_cast_shard shard msg n = do
  nodes ← deref (lookup shard n.peers.shards)
  send_each (post_members n.peers.self_node_id msg nodes.member) n

-- A message to each member of a shard, with the same body.
tell_members : SeedEnv → Bytes → MsgType → Body → Table Bytes Bytes → List NodeMsg
tell_members env self t body [] = []
tell_members env self t body ((k, v) ∷ m) =
    new_node_msg env.now self k t body ∷ tell_members env self t body m

tell_own_shard : SeedEnv → Bytes → Table ℤ Shard → List NodeMsg
tell_own_shard env self [] = []
tell_own_shard env self ((k, s) ∷ shards) =
    if is_special k
    then tell_own_shard env self shards
    else tell_members env self node_member (members s.member) s.member
      ++ tell_own_shard env self shards

unfoldable pub send_mem : SeedEnv → SeedNode → Outcome SeedNode
unfolding tell_own_shard tell_members new_node_msg is_special
send_mem env n = send_each (tell_own_shard env n.peers.self_node_id n.peers.shards) n

tell_all : SeedEnv → Bytes → MsgType → Body → Table ℤ Shard → List NodeMsg
tell_all env self t body [] = []
tell_all env self t body ((k, s) ∷ shards) =
    if is_special k
    then tell_all env self t body shards
    else tell_members env self t body s.member ++ tell_all env self t body shards

-- SendIntraLeaderMem and SendGlobalLeaderMem. The pointer to the leaders' shard is followed at the
-- first member that is told.
unfoldable pub send_leader_mem : ℤ → MsgType → SeedEnv → SeedNode → Outcome SeedNode
unfolding tell_all tell_members new_node_msg is_special
send_leader_mem shard_id t env n =
    let self = n.peers.self_node_id in
    if length (tell_all env self t null n.peers.shards) == 0 then ok n else (do
      shard ← deref (lookup shard_id n.peers.shards)
      send_each (tell_all env self t (members shard.member) n.peers.shards) n)

-- Random of BlockChain/Log/Log.go: rand.Intn panics when its argument is not positive.
unfoldable pub random : (ℕ → ℕ) → ℕ → ℕ → Outcome ℕ
random intn min max =
    if min == max then ok max else if ltb min max then ok (intn (max - min) + min) else panic

-- The loop over the members: those with the drawn number join the leaders.
unfoldable pub elect : (NodeId → ℤ) → ℕ → Table Bytes Bytes → Shard → Outcome Shard
elect number drawn [] leaders = ok leaders
elect number drawn ((k, v) ∷ m) leaders = do
  node_id ← string_to_id k
  elect number drawn m
      (if int_eq (number node_id) (pos drawn) then (Members.add_node k v leaders).0 else leaders)

unfoldable pub elect_shards : SeedEnv → Table ℤ Shard → Shard → Outcome Shard
unfolding is_special elect random
elect_shards env [] leaders = ok leaders
elect_shards env ((k, s) ∷ shards) leaders =
    if is_special k then elect_shards env shards leaders else (do
      drawn ← random (env.intn k) 1 (length s.member)
      chosen ← elect (λ node_id. node_id.in_shard_id) drawn s.member leaders
      elect_shards env shards chosen)

-- The node with a shard stored.
abbrev pub with_shard : ℤ → Shard → SeedNode → SeedNode
with_shard k s n = record n { peers = record n.peers { shards = insert k s n.peers.shards } }

unfoldable pub select_intra_leader : SeedEnv → SeedNode → Outcome SeedNode
unfolding elect_shards
select_intra_leader env n = do
  let n' = with_shard intra_leader_shard_id new_shard n
  leaders ← elect_shards env n'.peers.shards new_shard
  ok (with_shard intra_leader_shard_id leaders n')

unfoldable pub select_global_leader : SeedEnv → SeedNode → Outcome SeedNode
unfolding elect random
select_global_leader env n = do
  let n' = with_shard global_leader_shard_id new_shard n
  intra ← deref (lookup intra_leader_shard_id n'.peers.shards)
  drawn ← random (env.intn global_leader_shard_id) 1 (length intra.member)
  leaders ← elect (λ node_id. node_id.shard_id) drawn intra.member new_shard
  ok (with_shard global_leader_shard_id leaders n')

-- The last key that `range` visits, or the empty text.
last_key : Bytes → Table Bytes Bytes → Bytes
last_key key [] = key
last_key key ((k, v) ∷ m) = last_key k m

unfoldable pub give_start_to_global_leader : SeedEnv → SeedNode → Outcome SeedNode
unfolding last_key new_node_msg
give_start_to_global_leader env n = do
  shard ← deref (lookup global_leader_shard_id n.peers.shards)
  send (new_node_msg env.now n.peers.self_node_id (last_key [] shard.member) start null) n

unfoldable pub give_start_to_intra_leaders : SeedEnv → SeedNode → Outcome SeedNode
unfolding tell_members new_node_msg
give_start_to_intra_leaders env n = do
  shard ← deref (lookup intra_leader_shard_id n.peers.shards)
  send_each (tell_members env n.peers.self_node_id start null shard.member) n

-- strings.Trim with a quote.
trim_left : Bytes → Bytes
trim_left [] = []
trim_left (b ∷ bs) = if b == b'"' then trim_left bs else b ∷ bs

trim_right : Bytes → Bytes
trim_right [] = []
trim_right (b ∷ bs) =
    let rest = trim_right bs in if length rest == 0 && b == b'"' then [] else b ∷ rest

-- UnmarshalClientAddr of BlockChain/Message/Message.go.
unfoldable pub unmarshal_client_addr : SeedEnv → NodeMsg → Bytes
unfolding trim_left trim_right
unmarshal_client_addr env msg = trim_right (trim_left (env.json msg.msg_body))

unfoldable pub handle_registration : SeedEnv → NodeMsg → SeedNode → Outcome SeedNode
unfolding unmarshal_client_addr
handle_registration env msg n = do
  added ← add_node msg.from (unmarshal_client_addr env msg) n.peers
  ok (record n { consensus_type = msg.consensus_type; peers = added.0 })

abbrev pub is_rapid_chain : SeedNode → Bool
is_rapid_chain n = bytes_eq n.consensus_type (codes "RapidChain")

unfoldable pub handle_mining_stop : SeedNode → Outcome SeedNode
unfolding command
handle_mining_stop n =
    if is_rapid_chain n
    then (let n' = record n { consensus_stop = n.consensus_stop + 1 } in
        do
          leaders ← deref (lookup intra_leader_shard_id n.peers.shards)
          if n'.consensus_stop == length leaders.member then command (codes "exit") n' else ok n')
    else command (codes "exit") n

-- The switch of MSGHandle; the cases that only log are among the rest.
seed_dispatch : MsgType → SeedEnv → NodeMsg → SeedNode → Outcome SeedNode
seed_dispatch registration env msg n = handle_registration env msg n
seed_dispatch mining_stop env msg n = handle_mining_stop n
seed_dispatch _ env msg n = ok n

unfoldable pub seed_msg_handle : SeedEnv → NodeMsg → SeedNode → Outcome SeedNode
unfolding seed_dispatch
seed_msg_handle env msg n = seed_dispatch msg.msg_type env msg n

-- What a command hands on after it.
followed_by : List SeedEffect → Outcome SeedNode → SeedAct
followed_by es m = do n ← m; ok (n, es)

-- The commands of CLIHandle.
pub data Command : Type 0 where
  start_run select_global select_intra send_members ca_tx quit exit unknown : Command

parse_command : Bytes → Command
parse_command cli =
    if bytes_eq cli (codes "start")
    then start_run
    else if bytes_eq cli (codes "selectGlobalLeader")
    then select_global
    else if bytes_eq cli (codes "selectIntraLeader")
    then select_intra
    else if bytes_eq cli (codes "sendMem")
    then send_members
    else if bytes_eq cli (codes "caTx")
    then ca_tx
    else if bytes_eq cli (codes "quit")
    then quit
    else if bytes_eq cli (codes "exit")
    then exit
    else unknown

run_command : Command → SeedEnv → SeedNode → SeedAct
unfolding followed_by
run_command start_run env n = followed_by [] (
    if is_rapid_chain n
    then give_start_to_intra_leaders env n
    else give_start_to_global_leader env n)
run_command select_global env n =
    followed_by (later (codes "start") ∷ [])
      (select_global_leader env n >>= send_leader_mem global_leader_shard_id global_leader_mem env)
run_command select_intra env n =
    followed_by (later (codes "selectGlobalLeader") ∷ [])
      (select_intra_leader env n >>= send_leader_mem intra_leader_shard_id intra_leader_mem env)
run_command send_members env n =
    followed_by (later (codes "selectIntraLeader") ∷ []) (send_mem env n)
run_command ca_tx env n = ok (n, read_eth_tx ∷ [])
run_command quit env n = ok (n, stop_server ∷ [])
run_command exit env n =
    followed_by (stop_server ∷ [])
      (broad_cast_all (new_node_msg env.now n.peers.self_node_id [] shut_down null) n)
run_command unknown env n = ok (n, [])

unfoldable pub seed_cli_handle : SeedEnv → Bytes → SeedNode → SeedAct
unfolding parse_command run_command
seed_cli_handle env cli n = run_command (parse_command cli) env n

-- The address to which SendMsg sends, if the receiver is known.
unfoldable pub send_msg : NodeMsg → SeedNode → Outcome (List (Bytes × NodeMsg))
send_msg msg n = do r ← find_node msg.to n.peers; ok (if r.0 then (r.1, msg) ∷ [] else [])
