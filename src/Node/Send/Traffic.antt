-- ===== src/Node/Send/Traffic.antt =====
-- What a broadcast of the frustum package hands out.
use frustum.Prelude.{
  ℕ, suc, ◌≡◌, ◌≢◌, refl, ap, ◌∙◌, List, [], ◌∷◌, ◌++◌, Bool, true, false, if◌then◌else◌, arith, ℤ,
  Bytes, bytes_eq, bytes_eq_iff, Bool-cases, inl, inr, Option, none, some, sym, length, ◌≤◌,
}
use mathlib.Core.Bool.{false≢true}
use frustum.Peers.Members.{Shard}
use frustum.Prelude.Table.{Table, int_key, bytes_key, lookup}
use frustum.Prelude.Outcome.{ok, deref}
use frustum.Prelude.Ensures.{Ensures, returns, Ensures-bind}
use frustum.Message.{NodeMsg, MsgType, Body, Block, null, prepare, commit}
use frustum.Peers.{find_my_global_leader}
use frustum.Node.Types.{
  Node, Effect, post, enqueue, spawn_opening, count_block, start_workers, stop_workers, close_exit,
}
use frustum.Node.Send.{
  post_all, broadcast_within_shard, stamped, send_prepare, send_commit, dial_found,
  dial_global_leader, dial_seed_node,
}

-- The address to which a message for a node is posted, the first one if there are several.
abbrev pub posted_to : Bytes → List Effect → Option (Bytes × NodeMsg)
posted_to id [] = none
posted_to id (post url msg ∷ es) = if bytes_eq msg.to id then some (url, msg) else posted_to id es
posted_to id (e ∷ es) = posted_to id es

-- How many messages are posted.
abbrev pub posts : List Effect → ℕ
posts [] = 0
posts (post url msg ∷ es) = suc (posts es)
posts (e ∷ es) = posts es

abbrev pub addressed : Bytes → NodeMsg → Option Bytes → Option (Bytes × NodeMsg)
addressed id msg none = none
addressed id msg (some url) = some (url, record msg { to = id })

posted_to-post_all :
    (self id : Bytes) (msg : NodeMsg) (m : Table Bytes Bytes)
    → id ≢ self
    → posted_to id (post_all self msg m) ≡ addressed id msg (lookup id m)
unfolding post_all
posted_to-post_all self id msg [] h = refl
posted_to-post_all self id msg ((node, url) ∷ m) h =
    ground (arith, bytes_eq_iff node self, bytes_eq_iff node id, posted_to-post_all self id msg m)

posted_to_self :
    (self : Bytes) (msg : NodeMsg) (m : Table Bytes Bytes)
    → posted_to self (post_all self msg m) ≡ none
unfolding post_all
posted_to_self self msg [] = refl
posted_to_self self msg ((node, url) ∷ m) = ground (arith, posted_to_self self msg m)

posted_to-members :
    (self id : Bytes) (msg : NodeMsg) (m : Table Bytes Bytes)
    → posted_to id (post_all self msg m)
      ≡ (if bytes_eq id self then none else addressed id msg (lookup id m))
posted_to-members self id msg m = elim (Bool-cases (bytes_eq id self)) [
  | inl same ↦ rw (same, (bytes_eq_iff id self).0 same) (posted_to_self self msg m)
  | inr other ↦
      rw other (
        posted_to-post_all self id msg m (λ e. false≢true (sym other ∙ (bytes_eq_iff id self).1 e)))
]

posts-post_all :
    (self : Bytes) (msg : NodeMsg) (m : Table Bytes Bytes) → posts (post_all self msg m) ≤ length m
unfolding post_all
posts-post_all self msg [] = omega arith
posts-post_all self msg ((node, url) ∷ m) = ground (arith, posts-post_all self msg m)

-- A broadcast in a shard that the table has returns: for every node it posts the message, addressed
-- to that node, at the address that the shard has for it, except to the node itself and to nodes
-- that are no members; and it posts no more messages than the shard has members.
pub posted_to-broadcast_within_shard :
    (shard_id : ℤ) (msg : NodeMsg) (n : Node) (shard : Shard)
    → lookup shard_id n.peers.shards ≡ some shard
    → (es : List Effect) × (broadcast_within_shard shard_id msg n ≡ ok es)
      × ((id : Bytes)
          → posted_to id es
            ≡ (if bytes_eq id n.server_id then none else addressed id msg (lookup id shard.member)))
      × (posts es ≤ length shard.member)
unfolding broadcast_within_shard
posted_to-broadcast_within_shard shard_id msg n shard e = (
  post_all n.server_id msg shard.member,
  rw e,
  (λ id. posted_to-members n.server_id id msg shard.member),
  posts-post_all n.server_id msg shard.member,
)

-- The blocks that are handed out to be counted.
abbrev pub blocks : List Effect → List Block
blocks [] = []
blocks (count_block b ∷ es) = b ∷ blocks es
blocks (e ∷ es) = blocks es

pub blocks-append : (es fs : List Effect) → blocks (es ++ fs) ≡ blocks es ++ blocks fs
blocks-append [] fs = refl
blocks-append (count_block b ∷ es) fs = ap (◌∷◌ b) (blocks-append es fs)
blocks-append (post url msg ∷ es) fs = blocks-append es fs
blocks-append (enqueue msg ∷ es) fs = blocks-append es fs
blocks-append (spawn_opening ∷ es) fs = blocks-append es fs
blocks-append (start_workers ∷ es) fs = blocks-append es fs
blocks-append (stop_workers ∷ es) fs = blocks-append es fs
blocks-append (close_exit ∷ es) fs = blocks-append es fs

-- No sender hands out a block.
abbrev pub NoBlocks : List Effect → Type 0
NoBlocks es = blocks es ≡ []

blocks-post_all :
    (self : Bytes) (msg : NodeMsg) (m : Table Bytes Bytes) → NoBlocks (post_all self msg m)
unfolding post_all
blocks-post_all self msg [] = refl
blocks-post_all self msg ((node, url) ∷ m) = ground (arith, blocks-post_all self msg m)

pub broadcast_within_shard-NoBlocks :
    (shard_id : ℤ) (msg : NodeMsg) (n : Node)
    → Ensures NoBlocks (broadcast_within_shard shard_id msg n)
unfolding broadcast_within_shard
broadcast_within_shard-NoBlocks shard_id msg n =
    Ensures-bind (deref (lookup shard_id n.peers.shards))
      λ shard. returns (blocks-post_all n.server_id msg shard.member)

pub send_prepare-NoBlocks :
    (now : ℕ) (shard_id : ℤ) (n : Node) → Ensures NoBlocks (send_prepare now shard_id n)
unfolding send_prepare
send_prepare-NoBlocks now shard_id n =
    broadcast_within_shard-NoBlocks shard_id (stamped now [] prepare null n) n

pub send_commit-NoBlocks :
    (now : ℕ) (shard_id : ℤ) (n : Node) → Ensures NoBlocks (send_commit now shard_id n)
unfolding send_commit
send_commit-NoBlocks now shard_id n =
    broadcast_within_shard-NoBlocks shard_id (stamped now [] commit null n) n

dial_found-NoBlocks :
    (now : ℕ) (t : MsgType) (body : Body) (n : Node) (found : Bool × Bytes × Bytes)
    → NoBlocks (dial_found now t body n found)
unfolding dial_found
dial_found-NoBlocks now t body n (true, leader, url) = refl
dial_found-NoBlocks now t body n (false, leader, url) = refl

pub dial_global_leader-NoBlocks :
    (now : ℕ) (t : MsgType) (body : Body) (n : Node)
    → Ensures NoBlocks (dial_global_leader now t body n)
unfolding dial_global_leader
dial_global_leader-NoBlocks now t body n =
    Ensures-bind (find_my_global_leader n.peers)
      λ found. returns (dial_found-NoBlocks now t body n found)

pub dial_seed_node-NoBlocks :
    (now : ℕ) (t : MsgType) (body : Body) (n : Node) → NoBlocks (dial_seed_node now t body n)
unfolding dial_seed_node
dial_seed_node-NoBlocks now t body n = refl
