-- ===== src/Peers/Members.antt =====
-- The type Shard of BlockChain/NetWork/NodeTable.go.
use frustum.Prelude.{ℕ, [], Bool, true, false, Bytes, codes, length, Option, none, some}
use frustum.Prelude.Table.{Table, bytes_key, lookup, insert}

pub record Shard : Type 0 where
  pub member : Table Bytes Bytes

abbrev pub new_shard : Shard
new_shard = record { member = [] }

add_found : Option Bytes → Bytes → Bytes → Shard → Shard × Bool × Bytes
add_found (some url) id ip_addr s = (s, false, url)
add_found none id ip_addr s = (record s { member = insert id ip_addr s.member }, true, ip_addr)

-- The shard afterwards, whether the node is new, and its address.
unfoldable pub add_node : Bytes → Bytes → Shard → Shard × Bool × Bytes
unfolding add_found
add_node id ip_addr s = add_found (lookup id s.member) id ip_addr s

abbrev pub found : Option Bytes → Bool × Bytes
found (some url) = (true, url)
found none = (false, codes "NodeNotExist")

unfoldable pub find_node : Bytes → Shard → Bool × Bytes
find_node id s = found (lookup id s.member)

-- The method Length.
unfoldable pub size : Shard → ℕ
size s = length s.member
