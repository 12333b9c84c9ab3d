-- ===== src/Raft/SeedNode/Leaders.antt =====
-- BlockChain/Consensus/SS-Raft/SeedNode.go: when the leaders are announced.
use frustum.Prelude.{
  ◌++◌, ◌∙◌, ℕ, ◌+◌, ◌≡◌, ◌≢◌, refl, List, [], ◌∷◌, false, ◌&&◌, ltb, leb, ◌==◌, if◌then◌else◌,
  arith, Bool-cases, inl, inr, length,
}
use frustum.Id.{NodeId}
use frustum.Raft.SeedNode.{
  SeedNode, Protocol, raft, ss_raft, ss_raft_pro, same_id, is_member, add_mem, leaders_complete,
  handle_registration, SeedEffect, hello_world, start, analysis, global_mem, send_tr_later,
  analysis_later, start_commit, send_tr_worker,
}

length-add_mem :
    (id : NodeId) (ms : List NodeId)
    → is_member id ms ≡ false
    → length (add_mem id ms) ≡ length ms + 1
length-add_mem id [] absent = refl
length-add_mem id (m ∷ ms) absent = elim (Bool-cases (same_id m id)) [
  | inl same ↦ absurd (ground arith)
  | inr another ↦ rw another (omega (arith, length-add_mem id ms (ground arith)))
]

-- None of the nodes is a leader yet, and no two are the same.
abbrev pub AreNew : List NodeId → List NodeId → Type 0
AreNew [] leaders = Unit
AreNew (id ∷ ids) leaders = (is_member id leaders ≡ false) × AreNew ids (add_mem id leaders)

-- How many GlobalMem messages are among what is sent.
abbrev pub global_mems : List SeedEffect → ℕ
global_mems [] = 0
global_mems (global_mem leaders table ∷ es) = 1 + global_mems es
global_mems (_ ∷ es) = global_mems es

-- Registrations one after another, and what they send.
unfoldable pub registrations : List NodeId → SeedNode → SeedNode × List SeedEffect
registrations [] sn = (sn, [])
registrations (id ∷ ids) sn =
    let (sn', sent) = handle_registration id sn in
    let (last, later) = registrations ids sn' in (last, sent ++ later)

global_mems-append :
    (es fs : List SeedEffect) → global_mems (es ++ fs) ≡ global_mems es + global_mems fs
global_mems-append [] fs = omega arith
global_mems-append (global_mem l t ∷ es) fs = omega (arith, global_mems-append es fs)
global_mems-append (hello_world x ∷ es) fs = global_mems-append es fs
global_mems-append (start x ∷ es) fs = global_mems-append es fs
global_mems-append (analysis x ∷ es) fs = global_mems-append es fs
global_mems-append (send_tr_later ∷ es) fs = global_mems-append es fs
global_mems-append (analysis_later ∷ es) fs = global_mems-append es fs
global_mems-append (start_commit x ∷ es) fs = global_mems-append es fs
global_mems-append (send_tr_worker x ∷ es) fs = global_mems-append es fs

-- What a registration sends.
sent_by_registration :
    (id : NodeId) (sn : SeedNode)
    → global_mems (handle_registration id sn).1
      ≡ (if leaders_complete (handle_registration id sn).0 then 1 else 0)
unfolding handle_registration
sent_by_registration id sn =
    elim (Bool-cases
      (leaders_complete (record sn { shard_leaders = add_mem id sn.shard_leaders }))) [
        | inl complete ↦ rw complete refl
        | inr missing ↦ rw missing refl
      ]

complete_lem :
    (sn : SeedNode)
    → sn.consensus_type ≢ raft
    → leaders_complete sn ≡ (length sn.shards == length sn.shard_leaders)
unfolding leaders_complete
complete_lem sn sharded = by_type sn.consensus_type refl
  where
    by_type :
        (p : Protocol)
        → sn.consensus_type ≡ p
        → leaders_complete sn ≡ (length sn.shards == length sn.shard_leaders)
    by_type raft e = absurd (sharded e)
    by_type ss_raft e = rw e refl
    by_type ss_raft_pro e = rw e refl

-- With SS-Raft, registrations of nodes that are no leaders yet, no node twice, send GlobalMem once if
-- they bring the number of leaders from below to that of the shards, or beyond, and else not at all:
-- whatever shards these leaders are of.
pub announced_once :
    (ids : List NodeId) (sn : SeedNode)
    → sn.consensus_type ≢ raft
    → AreNew ids sn.shard_leaders
    → global_mems (registrations ids sn).1 ≡ (
        if ltb (length sn.shard_leaders) (length sn.shards)
          && leb (length sn.shards) (length sn.shard_leaders + length ids)
        then 1
        else 0)
unfolding registrations handle_registration
announced_once [] sn sharded new = ground arith
announced_once (id ∷ ids) sn sharded (absent, new) =
    let sn' = record sn { shard_leaders = add_mem id sn.shard_leaders } in
    global_mems-append (handle_registration id sn).1 (registrations ids sn').1
    ∙ ground (
      arith,
      sent_by_registration id sn,
      length-add_mem id sn.shard_leaders absent,
      complete_lem sn' sharded,
      announced_once ids sn' sharded new,
    )
