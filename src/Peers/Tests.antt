-- ===== src/Peers/Tests.antt =====
-- The table of NodeTable.go at concrete inputs.
use frustum.Prelude.{◌≡◌, ◌≢◌, refl, [], ◌∷◌, true, pos, Bytes, codes, some}
use frustum.Prelude.Table.{Table, int_key, lookup}
use frustum.Prelude.Outcome.{ok}
use frustum.Id.{NodeId, string_to_id}
use frustum.Peers.Members.{Shard}
use frustum.Peers.Members
use frustum.Peers.{
  NodeTable, new_node_table, add_node, find_node, find_node_msg, handle_find_node_msg,
}
use frustum.Peers.Lookup.{find_node-add_node}
use frustum.Peers.Shape.{IsReady}
use frustum.Peers.Gossip.{lookup-handle_find_node_msg}

abbrev me : Bytes
me = codes "1-2"

abbrev you : Bytes
you = codes "1-3"

abbrev id_12 : NodeId
id_12 = record { shard_id = pos 1; in_shard_id = pos 2 }

abbrev fresh_table : NodeTable
fresh_table = record {
  self_node_id = me;
  shards =
      (pos 1024, record { member = [] })
      ∷ (pos 1025, record { member = [] })
      ∷ (pos 1, record { member = [] })
      ∷ [];
}

abbrev with_you : NodeTable
with_you = record fresh_table {
  shards =
      (pos 1024, record { member = [] })
      ∷ (pos 1025, record { member = [] })
      ∷ (pos 1, record { member = (you, codes "b:1") ∷ [] })
      ∷ [];
}

me_parsed : string_to_id me ≡ ok id_12
unfolding string_to_id
me_parsed = refl

built : new_node_table me ≡ ok fresh_table
unfolding new_node_table string_to_id
built = refl

added : add_node you (codes "b:1") fresh_table ≡ ok (with_you, true, codes "b:1")
unfolding add_node Members.add_node string_to_id
added = refl

fresh-IsReady : IsReady id_12 fresh_table
fresh-IsReady = record {
  parsed = me_parsed;
  intra = (record { member = [] }, refl);
  global = (record { member = [] }, refl);
  local = (record { member = [] }, refl);
}

find_node-add_node_example :
    (find_node you with_you ≡ ok (true, codes "b:1"))
    × (true ≡ true → codes "b:1" ≡ codes "b:1")
    × ((j : Bytes) (b : NodeId) (s : Shard)
        → j ≢ you
        → string_to_id j ≡ ok b
        → lookup b.shard_id fresh_table.shards ≡ some s
        → find_node j with_you ≡ find_node j fresh_table)
find_node-add_node_example =
    find_node-add_node you (codes "b:1") fresh_table with_you true (codes "b:1") added

asked :
    handle_find_node_msg (find_node_msg fresh_table) with_you
    ≡ ok ((pos 1, (you, codes "b:1") ∷ []) ∷ [])
unfolding handle_find_node_msg find_node_msg
asked = refl

lookup-handle_find_node_msg_example :
    lookup {V = Table Bytes Bytes} (pos 1) ((pos 1, (you, codes "b:1") ∷ []) ∷ [])
    ≡ some ((you, codes "b:1") ∷ [])
unfolding find_node_msg
lookup-handle_find_node_msg_example =
    lookup-handle_find_node_msg (pos 1) (find_node_msg fresh_table) with_you _
      (refl, (refl, (refl, tt))) asked
