-- ===== src/Seed/Outbox.antt =====
-- What the seed node of BlockChain/SeedNode queues in SendMsgCh, and when it waits for ever.
use frustum.Prelude.{
  suc, ◌+◌, ◌≤◌, ◌<◌, ◌≡◌, refl, sym, ap, ◌∙◌, List, [], ◌∷◌, ◌++◌, leb, if◌then◌else◌, arith, ℤ,
  Bytes, length, length-append, append-nil, append_assoc,
}
use frustum.Prelude.Table.{Table}
use frustum.Prelude.Outcome.{ok, blocked}
use frustum.Message.{NodeMsg, MsgType, Body, new_node_msg, members, node_member}
use frustum.Peers.Members.{Shard}
use frustum.Seed.{
  SeedNode, SeedEnv, send_msg_ch_cap, send, send_each, is_special, tell_members, tell_own_shard,
  send_mem,
}

queued : List NodeMsg → SeedNode → SeedNode
queued msgs n = record n { send_msg_ch = n.send_msg_ch ++ msgs }

send_each_lem :
    (msgs : List NodeMsg) (n : SeedNode)
    → length n.send_msg_ch ≤ send_msg_ch_cap
    → send_each msgs n ≡ (
        if leb (length n.send_msg_ch + length msgs) send_msg_ch_cap
        then ok (queued msgs n)
        else blocked)
unfolding send_each send queued
send_each_lem [] n room = ground (arith, append-nil n.send_msg_ch)
send_each_lem (msg ∷ msgs) n room = ground (
  arith,
  send_each_lem msgs (record n { send_msg_ch = n.send_msg_ch ++ msg ∷ [] }),
  length-append n.send_msg_ch (msg ∷ []),
  append_assoc n.send_msg_ch (msg ∷ []) msgs,
)

-- To whom messages are addressed.
abbrev pub receivers : List NodeMsg → List Bytes
receivers [] = []
receivers (msg ∷ msgs) = msg.to ∷ receivers msgs

receivers-append : (xs ys : List NodeMsg) → receivers (xs ++ ys) ≡ receivers xs ++ receivers ys
receivers-append [] ys = refl
receivers-append (x ∷ xs) ys = ap (◌∷◌ x.to) (receivers-append xs ys)

abbrev keys : Table Bytes Bytes → List Bytes
keys [] = []
keys ((k, v) ∷ m) = k ∷ keys m

-- The consensus nodes that the seed node knows.
abbrev pub consensus_nodes : Table ℤ Shard → List Bytes
consensus_nodes [] = []
consensus_nodes ((k, s) ∷ shards) =
    if is_special k then consensus_nodes shards else keys s.member ++ consensus_nodes shards

receivers-tell_members :
    (env : SeedEnv) (self : Bytes) (t : MsgType) (body : Body) (m : Table Bytes Bytes)
    → receivers (tell_members env self t body m) ≡ keys m
unfolding tell_members new_node_msg
receivers-tell_members env self t body [] = refl
receivers-tell_members env self t body ((k, v) ∷ m) =
    ap (◌∷◌ k) (receivers-tell_members env self t body m)

receivers-tell_own_shard :
    (env : SeedEnv) (self : Bytes) (shards : Table ℤ Shard)
    → receivers (tell_own_shard env self shards) ≡ consensus_nodes shards
unfolding tell_own_shard
receivers-tell_own_shard env self [] = refl
receivers-tell_own_shard env self ((k, s) ∷ shards) = ground (
  arith,
  receivers-append (tell_members env self node_member (members s.member) s.member)
      (tell_own_shard env self shards),
  receivers-tell_members env self node_member (members s.member) s.member,
  receivers-tell_own_shard env self shards,
)

length-receivers : (msgs : List NodeMsg) → length (receivers msgs) ≡ length msgs
length-receivers [] = refl
length-receivers (x ∷ xs) = ap suc (length-receivers xs)

length-tell_own_shard :
    (env : SeedEnv) (self : Bytes) (shards : Table ℤ Shard)
    → length (tell_own_shard env self shards) ≡ length (consensus_nodes shards)
length-tell_own_shard env self shards =
    sym (length-receivers (tell_own_shard env self shards))
    ∙ ap length (receivers-tell_own_shard env self shards)

-- SendMem queues one message for each consensus node that the seed node knows, in order and behind
-- what was queued, if SendMsgCh has room for all of them, and leaves the table alone; if it has not,
-- SendMem waits for ever, since the goroutine that runs it is the one that empties the channel.
pub send_mem-receivers :
    (env : SeedEnv) (n : SeedNode)
    → length n.send_msg_ch ≤ send_msg_ch_cap
    → (length n.send_msg_ch + length (consensus_nodes n.peers.shards) ≤ send_msg_ch_cap
        → (n' : SeedNode) × (send_mem env n ≡ ok n')
          × (n'.peers ≡ n.peers)
          × (receivers n'.send_msg_ch ≡ receivers n.send_msg_ch ++ consensus_nodes n.peers.shards))
      × (send_msg_ch_cap < length n.send_msg_ch + length (consensus_nodes n.peers.shards)
          → send_mem env n ≡ blocked)
unfolding send_mem queued
send_mem-receivers env n room =
    let msgs = tell_own_shard env n.peers.self_node_id n.peers.shards in
    let sent = send_each_lem msgs n room in
    let same = length-tell_own_shard env n.peers.self_node_id n.peers.shards in
    (
      (λ fits. (
        queued msgs n,
        sent ∙ ground (arith, same),
        refl,
        receivers-append n.send_msg_ch msgs
            ∙ ap (◌++◌ (receivers n.send_msg_ch))
                (receivers-tell_own_shard env n.peers.self_node_id n.peers.shards),
      )),
      (λ over. sent ∙ ground (arith, same)),
    )
