-- ===== src/Quorum/Size.antt =====
-- How many votes the counters of Quorum.go ask for, with the frustum package's share of faulty
-- members.
use frustum.Prelude.{ℕ, ◌+◌, ◌-◌, ◌*◌, ◌/◌, ◌%◌, ◌≤◌, ◌<◌, ◌≡◌, ◌≢◌, ◌↔◌, arith}
use frustum.Float.{malicious}
use frustum.Float.Table.{floor_mul-malicious}
use frustum.Quorum.{
  Name, intra_prepare, global_prepare, intra_commit, global_commit, intra_finality, global_finality,
  finality, other, quorum_nodes,
}

-- The counters of the two voting phases.
abbrev pub IsVote : Name → Type 0
IsVote intra_prepare = Unit
IsVote global_prepare = Unit
IsVote intra_commit = Unit
IsVote global_commit = Unit
IsVote _ = ⊥

pub quorum_nodes_vote :
    (name : Name) (n : ℕ) → IsVote name → n < 2048 → quorum_nodes name malicious n ≡ 2 * (n / 3) + 1
unfolding quorum_nodes
quorum_nodes_vote intra_prepare n v h = omega (arith, floor_mul-malicious n h)
quorum_nodes_vote global_prepare n v h = omega (arith, floor_mul-malicious n h)
quorum_nodes_vote intra_commit n v h = omega (arith, floor_mul-malicious n h)
quorum_nodes_vote global_commit n v h = omega (arith, floor_mul-malicious n h)
quorum_nodes_vote intra_finality n v h = absurd v
quorum_nodes_vote global_finality n v h = absurd v
quorum_nodes_vote finality n v h = absurd v
quorum_nodes_vote (other s) n v h = absurd v

-- In a shard of n members, 0 < n < 2048, of which n / 3 may be faulty, for the counters of prepare
-- and commit: two quorums of that many members have at least 2 * needed - n in common, and this
-- is more than n / 3 exactly when n mod 3 is not 2; and the n - 1 other members, less n / 3 silent
-- ones, are enough for the quorum of a member, which does not count a vote of its own, exactly when
-- n mod 3 is 2. So no size has both.
pub quorum_dilemma :
    (name : Name) (n : ℕ)
    → IsVote name
    → 0 < n
    → n < 2048
    → let needed = quorum_nodes name malicious n in
      ((n / 3 + n < 2 * needed) ↔ (n % 3 ≢ 2)) × ((needed ≤ n - 1 - n / 3) ↔ (n % 3 ≡ 2))
quorum_dilemma name n v p h =
    let e = quorum_nodes_vote name n v h in
    (
      ((λ lt. omega (arith, e)), (λ ne. omega (arith, e))),
      ((λ le. omega (arith, e)), (λ eq. omega (arith, e))),
    )
