-- ===== src/Peers.antt =====
-- BlockChain/NetWork/NodeTable.go: the shards that a node knows and the addresses of their members.
-- A Go map is an association list in the order in which `range` visits it; a nil pointer that is
-- followed is a panic.
pub mod Members
pub mod Lookup
pub mod Shape
pub mod Gossip
mod Tests
use frustum.Prelude.{
  ℕ, [], ◌∷◌, Bool, true, false, ◌||◌, ◌==◌, if◌then◌else◌, ℤ, pos, int_eq, Bytes, codes, bytes_eq,
  length, Option, none, some,
}
use frustum.Prelude.Table.{Table, int_key, bytes_key, lookup, insert}
use frustum.Prelude.Outcome.{Outcome, ok, deref, ◌>>=◌}
use frustum.Message.{MsgType, intra_leader_mem, global_leader_mem}
use frustum.Id.{NodeId, string_to_id}
use Members.{Shard, new_shard}
use Members

abbrev pub intra_leader_shard_id : ℤ
intra_leader_shard_id = pos 1024

abbrev pub global_leader_shard_id : ℤ
global_leader_shard_id = pos 1025

pub record NodeTable : Type 0 where
  pub self_node_id : Bytes
  pub shards : Table ℤ Shard

unfoldable pub new_node_table : Bytes → Outcome NodeTable
new_node_table id = do
  own ← string_to_id id
  ok (record {
    self_node_id = id;
    shards =
        insert own.shard_id new_shard
          (insert global_leader_shard_id new_shard (insert intra_leader_shard_id new_shard []));
  })

-- The shard of an identity, or a new one that is stored first.
shard_or_new : Option Shard → Shard
shard_or_new (some s) = s
shard_or_new none = new_shard

-- The shard under a key becomes what the method made of it.
put_back : ℤ → NodeTable → Shard × Bool × Bytes → NodeTable × Bool × Bytes
put_back k nt (s, fresh, url) = (record nt { shards = insert k s nt.shards }, fresh, url)

unfoldable pub add_node : Bytes → Bytes → NodeTable → Outcome (NodeTable × Bool × Bytes)
unfolding put_back shard_or_new
add_node id ip_addr nt = do
  node_id ← string_to_id id
  ok (
      put_back node_id.shard_id nt
        (Members.add_node id ip_addr (shard_or_new (lookup node_id.shard_id nt.shards))))

find_in : Bytes → NodeTable → Option Shard → Outcome (Bool × Bytes)
find_in id nt (some s) = ok (Members.find_node id s)
find_in id nt none = do
  s ← deref (lookup intra_leader_shard_id nt.shards)
  ok (Members.find_node id s)

unfoldable pub find_node : Bytes → NodeTable → Outcome (Bool × Bytes)
unfolding find_in
find_node id nt = do node_id ← string_to_id id; find_in id nt (lookup node_id.shard_id nt.shards)

-- The loop of FindMyIntraLeader.
scan_leaders : ℤ → Table Bytes Bytes → Outcome (Bool × Bytes × Bytes)
scan_leaders shard_id [] = ok (false, codes "IntraLeaderNotExist", codes "unknownURL")
scan_leaders shard_id ((k, v) ∷ m) =
    let rest = scan_leaders shard_id m in
    do leader ← string_to_id k; if int_eq leader.shard_id shard_id then ok (true, k, v) else rest

-- Whether an intra leader was found, its identity and its address.
unfoldable pub find_my_intra_leader : Bytes → NodeTable → Outcome (Bool × Bytes × Bytes)
unfolding scan_leaders
find_my_intra_leader id nt = do
  s ← deref (lookup intra_leader_shard_id nt.shards)
  node_id ← string_to_id id
  scan_leaders node_id.shard_id s.member

only_member : Table Bytes Bytes → Bool × Bytes × Bytes
only_member ((k, v) ∷ []) = (true, k, v)
only_member _ = (false, codes "GlobalLeaderNotExist", codes "unknownURL")

-- The same for the global leader, which is the only member of its shard.
unfoldable pub find_my_global_leader : NodeTable → Outcome (Bool × Bytes × Bytes)
unfolding only_member
find_my_global_leader nt = do
  s ← deref (lookup global_leader_shard_id nt.shards)
  ok (only_member s.member)

-- Whether a node is among the members.
unfoldable pub is_member : Bytes → Table Bytes Bytes → Bool
is_member id [] = false
is_member id ((k, v) ∷ m) = bytes_eq k id || is_member id m

-- The shard of the first member that `range` visits, or the zero value.
first_shard_id : Table Bytes Bytes → Outcome ℤ
first_shard_id [] = ok (pos 0)
first_shard_id ((k, v) ∷ m) = do id ← string_to_id k; ok id.shard_id

message_shard : MsgType → Bytes → Table Bytes Bytes → Outcome (ℤ × Bool)
message_shard intra_leader_mem self shard = ok (intra_leader_shard_id, is_member self shard)
message_shard global_leader_mem self shard = ok (global_leader_shard_id, is_member self shard)
message_shard _ self shard = do k ← first_shard_id shard; ok (k, false)

-- The table, the shard that was stored, and whether this node is a leader.
unfoldable pub handle_shard_msg :
    MsgType → Table Bytes Bytes → NodeTable → Outcome (NodeTable × ℤ × Bool)
unfolding message_shard first_shard_id is_member
handle_shard_msg msg_type shard nt = do
  target ← message_shard msg_type nt.self_node_id shard
  ok (
    record nt { shards = insert target.0 (record { member = shard }) nt.shards },
    target.0,
    target.1,
  )

count_members : Table ℤ Shard → Table ℤ ℕ
count_members [] = []
count_members ((k, v) ∷ m) = (k, length v.member) ∷ count_members m

unfoldable pub find_node_msg : NodeTable → Table ℤ ℕ
unfolding count_members
find_node_msg nt = count_members nt.shards

-- The loop of HandleFindNodeMsg: the shards whose size is not the one that was asked with.
differing :
    Table ℤ ℕ → Table ℤ Shard → Table ℤ (Table Bytes Bytes) → Outcome (Table ℤ (Table Bytes Bytes))
differing [] shards out = ok out
differing ((k, v) ∷ m) shards out = do
  s ← deref (lookup k shards)
  differing m shards (if v == length s.member then out else insert k s.member out)

unfoldable pub handle_find_node_msg : Table ℤ ℕ → NodeTable → Outcome (Table ℤ (Table Bytes Bytes))
unfolding differing
handle_find_node_msg find_node nt = differing find_node nt.shards []
