-- ===== src/SsPbft/Progress.antt =====
-- BlockChain/Consensus/SS-PBFT-V1: what a node needs so that it handles its messages to the end.
pub mod Handlers
pub mod Run
use frustum.Id.{NodeId}
use frustum.Prelude.{
  subst, ℕ, suc, ◌+◌, ◌%◌, ◌^◌, ◌≤◌, ◌<◌, ◌≡◌, ◌≢◌, refl, sym, ap, ◌∙◌, inl, inr, some, List, [],
  ◌∷◌, Bool, true, false, ltb, ◌==◌, Bool-cases, arith, pos, ℤ, length,
}
use frustum.Prelude.Outcome.{Outcome, ok, deref, ◌>>=◌}
use frustum.Prelude.Table.{int_key, lookup}
use frustum.Message.{Transaction, Block, pre_prepare, prepare, commit, block}
use frustum.Pool.{commit_trs}
use frustum.Pool.Supply.{IsPlain, commit_trs_supplied}
use frustum.SsPbft.{
  Env, Node, State, Role, follower, intra_leader, global_leader, Msg, Members, Shards, Server,
  Counter, Effect, tr_num_in_block, null, stop_mining_block_height, new_msg, block_data,
}
use frustum.SsPbft.Send.{
  with_state, stamped, broad_cast_shard, broad_cast_v2_shard, length_of_shard, send_commit,
  generate_new_block, reset_consensus_check_count, start_consensus,
}
use frustum.SsPbft.Handle.{
  handing, handle_pre_prepare, handle_prepare, handle_commit, handle_final_commit, handle_members,
  handle_leaders, handle_block, is_listed,
}

-- At least one transaction arrives by the time that CommitTrs looks a second time.
abbrev pub IsSupplied : Env → Type 0
IsSupplied env =
    (tx : Transaction) × (txs : List Transaction) × (later : List (List Transaction))
    × (env.arrivals ≡ (tx ∷ txs) ∷ later)

-- The body of the message can be read as a block.
abbrev pub HasBlock : Server → Msg → Type 0
HasBlock server msg = (b : Block) × (server.unmarshal_block msg.msg_body ≡ ok b)

abbrev pub HasShard : ℤ → Shards → Type 0
HasShard k shards = (ms : Members) × (lookup k shards ≡ some ms)

deref_shard :
    {B : Type 0} (k : ℤ) (shards : Shards) (f : Members → Outcome B)
    → HasShard k shards
    → (ms : Members) × ((deref (lookup k shards) >>= f) ≡ f ms)
deref_shard k shards f (ms, e) = (ms, rw e refl)

module _ {Q : Type 0} where
  -- The node knows its shard and the leaders of the shards, its pool has one channel with room, and
  -- nothing waits in ElegantExitCh.
  pub record IsWorking (n : Node Q) : Type 0 where
    pub own : HasShard n.self.shard_id n.shards
    pub leaders : HasShard (pos 1024) n.shards
    pub plain : IsPlain n.tx_pool
    pub staying : n.exits ≡ 0

  abbrev pub Works : Outcome (Node Q × List Effect) → Type 0
  Works m = (r : Node Q × List Effect) × (m ≡ ok r) × IsWorking r.0

  -- The handlers change only the state.
  pub IsWorking-with_state : (n : Node Q) (s : State Q) → IsWorking n → IsWorking (with_state n s)
  IsWorking-with_state n s w = record {
    own = w.own;
    leaders = w.leaders;
    plain = w.plain;
    staying = w.staying;
  }

  pub length_of_shard_ok :
      (n : Node Q) → IsWorking n → (num : ℕ) × (length_of_shard n.self.shard_id n ≡ ok num)
  unfolding length_of_shard
  length_of_shard_ok n w = let (ms, e) = deref_shard _ n.shards _ w.own in (length ms, e)

  broad_cast_ok :
      (n : Node Q) (msg : Msg)
      → IsWorking n
      → (sent : List Effect) × (broad_cast_shard n.self.shard_id msg n ≡ ok sent)
  unfolding broad_cast_shard
  broad_cast_ok n msg w = let (ms, e) = deref_shard _ n.shards _ w.own in (_, e)

  pub broad_cast_v2_ok :
      (server : Server) (k : ℤ) (n : Node Q) (msg : Msg)
      → HasShard k n.shards
      → (sent : List Effect) × (broad_cast_v2_shard server k msg n ≡ ok sent)
  unfolding broad_cast_v2_shard
  broad_cast_v2_ok server k n msg h = let (ms, e) = deref_shard k n.shards _ h in (_, e)

  pub Works-broadcast :
      (n : Node Q) (msg : Msg)
      → IsWorking n
      → Works (handing n (broad_cast_shard n.self.shard_id msg n))
  unfolding handing
  Works-broadcast n msg w = let (sent, e) = broad_cast_ok n msg w in rw e ((n, sent), refl, w)

  pub Works-broadcast_v2 :
      (server : Server) (n : Node Q) (msg : Msg)
      → IsWorking n
      → Works (handing n (broad_cast_v2_shard server n.self.shard_id msg n))
  unfolding handing
  Works-broadcast_v2 server n msg w =
      let (sent, e) = broad_cast_v2_ok server n.self.shard_id n msg w.own in
      rw e ((n, sent), refl, w)

  pub Works-bind :
      {A : Type 0} {P : A → Type 0} (m : Outcome A) {f : A → Outcome (Node Q × List Effect)}
      → (a : A) × (m ≡ ok a) × P a
      → ((a : A) → P a → Works (f a))
      → Works (m >>= f)
  Works-bind m (a, e, p) next = rw e (next a p)

  pub generate_new_block_ok :
      (env : Env) (n : Node Q)
      → IsSupplied env
      → IsWorking n
      → (made : Node Q × Block) × (generate_new_block env n ≡ ok made)
        × (IsWorking made.0 × (made.0.self ≡ n.self))
  unfolding generate_new_block
  generate_new_block_ok env n (tx, txs, later, arrived) w =
      let (packed, e, plain) = commit_trs_supplied tx txs later tr_num_in_block n.tx_pool w.plain in
      rw (arrived, e)
        (
          _,
          refl,
          (record { own = w.own; leaders = w.leaders; plain = plain; staying = w.staying }, refl),
        )
