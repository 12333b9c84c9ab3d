-- ===== src/Seed/Stop.antt =====
-- How the seed node of BlockChain/SeedNode ends a run: the MiningStop messages.
use frustum.Prelude.{
  ◌+◌, ◌≤◌, ◌<◌, ◌≡◌, refl, ap, ◌∙◌, List, [], ◌∷◌, ◌++◌, true, leb, ◌==◌, ==_iff, if◌then◌else◌,
  arith, codes, length, some, Bool-cases, inl, inr,
}
use frustum.Prelude.Table.{int_key, lookup}
use frustum.Prelude.Outcome.{Outcome, ok, ◌>>=◌}
use frustum.Message.{NodeMsg, mining_stop}
use frustum.Peers.{intra_leader_shard_id}
use frustum.Peers.Members.{Shard}
use frustum.Seed.{
  SeedNode, SeedEnv, cli_cap, command, is_rapid_chain, handle_mining_stop, seed_dispatch,
  seed_msg_handle,
}

-- The messages of a run, each handled before the next.
unfoldable pub seed_run : SeedEnv → List NodeMsg → SeedNode → Outcome SeedNode
seed_run env [] n = ok n
seed_run env (msg ∷ msgs) n = seed_msg_handle env msg n >>= seed_run env msgs

abbrev pub IsStop : List NodeMsg → Type 0
IsStop [] = Unit
IsStop (msg ∷ msgs) = (msg.msg_type ≡ mining_stop) × IsStop msgs

abbrev stopped : SeedNode → SeedNode
stopped n = record n { consensus_stop = n.consensus_stop + 1 }

stop_step :
    (env : SeedEnv) (msg : NodeMsg) (n : SeedNode) (s : Shard)
    → msg.msg_type ≡ mining_stop
    → is_rapid_chain n ≡ true
    → lookup intra_leader_shard_id n.peers.shards ≡ some s
    → seed_msg_handle env msg n ≡ (
        if n.consensus_stop + 1 == length s.member
        then command (codes "exit") (stopped n)
        else ok (stopped n))
unfolding seed_msg_handle seed_dispatch handle_mining_stop
stop_step env msg n s t rapid e = ap (λ k. seed_dispatch k env msg n) t ∙ rw (rapid, e) refl

-- Once as many have stopped as there are leaders, no command follows.
after_exit :
    (env : SeedEnv) (msgs : List NodeMsg) (n : SeedNode) (s : Shard)
    → IsStop msgs
    → is_rapid_chain n ≡ true
    → lookup intra_leader_shard_id n.peers.shards ≡ some s
    → length s.member ≤ n.consensus_stop
    → seed_run env msgs n ≡ ok (record n { consensus_stop = n.consensus_stop + length msgs })
unfolding seed_run
after_exit env [] n s h rapid e done = ground arith
after_exit env (msg ∷ msgs) n s (t, h) rapid e done =
    ground (arith, stop_step env msg n s t rapid e, after_exit env msgs (stopped n) s h rapid e)

abbrev told_exit : SeedNode → SeedNode
told_exit n = record n { cli_ch = n.cli_ch ++ codes "exit" ∷ [] }

stop_tells :
    (env : SeedEnv) (msg : NodeMsg) (n : SeedNode) (s : Shard)
    → msg.msg_type ≡ mining_stop
    → is_rapid_chain n ≡ true
    → lookup intra_leader_shard_id n.peers.shards ≡ some s
    → length n.cli_ch < cli_cap
    → seed_msg_handle env msg n
      ≡ ok (if n.consensus_stop + 1 == length s.member then told_exit (stopped n) else stopped n)
unfolding command
stop_tells env msg n s t rapid e room = ground (arith, stop_step env msg n s t rapid e)

-- In a run of RapidChain whose leaders have not all stopped, and with room for a command in the channel
-- of the command line, any number of MiningStop messages is handled, and the command "exit" is given exactly once, when as many have come as there are leaders,
-- and not at all while there are fewer; nothing else changes but the count.
pub seed_run-stop :
    (env : SeedEnv) (msgs : List NodeMsg) (n : SeedNode) (s : Shard)
    → IsStop msgs
    → is_rapid_chain n ≡ true
    → lookup intra_leader_shard_id n.peers.shards ≡ some s
    → n.consensus_stop < length s.member
    → length n.cli_ch < cli_cap
    → seed_run env msgs n
      ≡ ok (record n {
        consensus_stop = n.consensus_stop + length msgs;
        cli_ch =
            if leb (length s.member) (n.consensus_stop + length msgs)
            then n.cli_ch ++ codes "exit" ∷ []
            else n.cli_ch;
      })
unfolding seed_run
seed_run-stop env [] n s h rapid e before room = ground arith
seed_run-stop env (msg ∷ msgs) n s (t, h) rapid e before room =
    elim (Bool-cases (n.consensus_stop + 1 == length s.member)) [
      | inl last ↦
          rw (stop_tells env msg n s t rapid e room, last)
            (after_exit env msgs (told_exit (stopped n)) s h rapid e
                (ground (arith, ==_iff (n.consensus_stop + 1) (length s.member)))
              ∙ ground (arith, ==_iff (n.consensus_stop + 1) (length s.member)))
      | inr more ↦
          rw (stop_tells env msg n s t rapid e room, more)
            (seed_run-stop env msgs (stopped n) s h rapid e
                (ground (arith, ==_iff (n.consensus_stop + 1) (length s.member))) room
              ∙ ground arith)
    ]
