-- ===== src/Raft/Votes.antt =====
-- The votes of a node of BlockChain/Consensus/SS-Raft over a run.
use frustum.Prelude.{
  false, ℤ, ℕ, ◌+◌, ◌^◌, ◌≤◌, ◌<◌, ◌≡◌, refl, List, [], ◌∷◌, Option, none, some, arith, In, here,
  there, leb, ltb, ◌&&◌, subst, Bool-cases, inl, inr, Bool, true, ◌==◌,
}
use frustum.Message.{Block}
use frustum.Id.{NodeId}
use frustum.Raft.Blocks.{
  ChainOps, MiningEnv, raft_start_mining, ss_raft_start_mining, handle_block, raft_check_commit,
}
use frustum.Raft.{
  after_block, after_check, ss_raft_check_commit, testing_max_block_height, batch_blocks_num,
  RaftMsg, RaftState, Confirmation, respond_start_vote, heart_beat_time_out, handle_heart_beat,
  check_confirm, refreshed, elected, become_intra_leader, IntraRole, intra_follower,
  intra_candidate, intra_leader,
}

abbrev given : Option Confirmation → List Confirmation → List Confirmation
given none cs = cs
given (some c) cs = c ∷ cs

-- A run of a node, with the votes that it gives: StartVote, HeartBeat, ConfirmStartVote and block
-- messages, blocks that it makes, with Raft and with SS-Raft, the loops that count their confirmations,
-- over any messages, and timeouts, none of which passes the largest term. The chain is any at each
-- block.
pub data Run {C : Type 0} (ops : ChainOps C)
    : RaftState → List Confirmation → RaftState → Type 0 where
  stop : {s : RaftState} → Run ops s [] s
  start_vote :
      {s s' : RaftState} {cs : List Confirmation} (msg : RaftMsg)
      → Run ops (respond_start_vote msg s).0 cs s'
      → Run ops s (given (respond_start_vote msg s).1 cs) s'
  heart_beat :
      {s s' : RaftState} {cs : List Confirmation} (msg : RaftMsg)
      → Run ops (handle_heart_beat msg s) cs s'
      → Run ops s cs s'
  confirm_start_vote :
      {s s' : RaftState} {cs : List Confirmation} (q1 : ℕ) (msg : RaftMsg)
      → Run ops (check_confirm q1 msg s).0 cs s'
      → Run ops s cs s'
  receive_block :
      {s s' : RaftState} {cs : List Confirmation} (self : NodeId) (msg : RaftMsg) (received : Block)
      (chain : C)
      → Run ops (handle_block ops self msg received (s, chain)).0.0 cs s'
      → Run ops s cs s'
  mine :
      {s s' : RaftState} {cs : List Confirmation} (env : MiningEnv) (self : NodeId) (chain : C)
      → Run ops (raft_start_mining ops env self (s, chain)).0.0 cs s'
      → Run ops s cs s'
  ss_mine :
      {s s' : RaftState} {cs : List Confirmation} (env : MiningEnv) (self : NodeId) (chain : C)
      → Run ops (ss_raft_start_mining ops env self (s, chain)).0.0 cs s'
      → Run ops s cs s'
  check_commit :
      {s s' : RaftState} {cs : List Confirmation} (q2 : ℕ) (msgs : List RaftMsg)
      → Run ops (raft_check_commit q2 msgs s).0 cs s'
      → Run ops s cs s'
  ss_check_commit :
      {s s' : RaftState} {cs : List Confirmation} (self : ℤ) (q2 gq2 : ℕ) (msgs : List RaftMsg)
      → Run ops (ss_raft_check_commit self q2 gq2 msgs s).0 cs s'
      → Run ops s cs s'
  time_out :
      {s s' : RaftState} {cs : List Confirmation}
      → s.intra_term + 1 < 2 ^ 64
      → Run ops (heart_beat_time_out s) cs s'
      → Run ops s cs s'

-- Terms that go up from a first one.
abbrev Rising : ℕ → List Confirmation → Type 0
Rising t [] = Unit
Rising t (c ∷ cs) = (t < c.term) × Rising c.term cs

Rising-weaken : (t t' : ℕ) (cs : List Confirmation) → t ≤ t' → Rising t' cs → Rising t cs
Rising-weaken t t' [] h r = tt
Rising-weaken t t' (c ∷ cs) h (above, r) = (omega arith, r)

abbrev votes_for : RaftMsg → RaftState → Bool
votes_for msg s =
    ltb s.intra_term msg.intra_term
    && leb s.block_height msg.block_height
    && ltb s.intra_candi_stat.term msg.intra_term

newer_term :
    (msg : RaftMsg) (s : RaftState) → votes_for msg s ≡ true → s.intra_term < msg.intra_term
newer_term msg s votes = ground arith

respond-Rising :
    (msg : RaftMsg) (s : RaftState) (cs : List Confirmation)
    → Rising (respond_start_vote msg s).0.intra_term cs
    → Rising s.intra_term (given (respond_start_vote msg s).1 cs)
unfolding respond_start_vote
respond-Rising msg s cs r = elim (Bool-cases (votes_for msg s)) [
  | inl votes ↦ rw votes (newer_term msg s votes, subst (λ t. Rising t cs) (rw votes refl) r)
  | inr refuses ↦ rw refuses (subst (λ t. Rising t cs) (rw refuses refl) r)
]

elected_term : (role : IntraRole) (s : RaftState) → (elected role s).intra_term ≡ s.intra_term
unfolding elected become_intra_leader
elected_term intra_follower s = refl
elected_term intra_candidate s = refl
elected_term intra_leader s = refl

check_confirm_term :
    (q1 : ℕ) (msg : RaftMsg) (s : RaftState) → (check_confirm q1 msg s).0.intra_term ≡ s.intra_term
unfolding check_confirm
check_confirm_term q1 msg s = elim (Bool-cases (ltb msg.intra_term s.intra_term)) [
  | inl old ↦ rw old refl
  | inr current ↦ rw current (
      let c = refreshed s.intra_term s.intra_q1_count in
      elim (Bool-cases (ltb c.count q1)) [
        | inl open_count ↦ rw open_count (elim (Bool-cases (c.count + 1 == q1)) [
          | inl met ↦ rw met (elected_term s.intra_role _)
          | inr more ↦ rw more refl
        ])
        | inr full ↦ rw full refl
      ])
]

after_block_term : (s : RaftState) → (after_block s).0.intra_term ≡ s.intra_term
unfolding after_block
after_block_term s = elim (Bool-cases (s.block_height == testing_max_block_height)) [
  | inl last ↦ rw last refl
  | inr more ↦ rw more (elim (Bool-cases (s.batch_block_count == batch_blocks_num)) [
    | inl over ↦ rw over refl
    | inr goes_on ↦ rw goes_on refl
  ])
]

after_check_term : (met : Bool) (s : RaftState) → (after_check met s).0.intra_term ≡ s.intra_term
unfolding after_check
after_check_term true s = after_block_term s
after_check_term false s = refl

ss_check_term :
    (self : ℤ) (q2 gq2 : ℕ) (msgs : List RaftMsg) (s : RaftState)
    → (ss_raft_check_commit self q2 gq2 msgs s).0.intra_term ≡ s.intra_term
unfolding ss_raft_check_commit
ss_check_term self q2 gq2 msgs s = after_check_term _ _

module _ {C : Type 0} (ops : ChainOps C) where
  Run-Rising :
      (s s' : RaftState) (cs : List Confirmation) → Run ops s cs s' → Rising s.intra_term cs
  unfolding handle_heart_beat heart_beat_time_out handle_block raft_start_mining
      ss_raft_start_mining raft_check_commit
  Run-Rising s s' _ stop = tt
  Run-Rising s s' _ (start_vote {cs} msg run) =
      respond-Rising msg s cs (Run-Rising (respond_start_vote msg s).0 s' cs run)
  Run-Rising s s' cs (heart_beat msg run) = Run-Rising (handle_heart_beat msg s) s' cs run
  Run-Rising s s' cs (confirm_start_vote q1 msg run) =
      subst (λ t. Rising t cs) (check_confirm_term q1 msg s)
        (Run-Rising (check_confirm q1 msg s).0 s' cs run)
  Run-Rising s s' cs (receive_block self msg received chain run) =
      Run-Rising (handle_block ops self msg received (s, chain)).0.0 s' cs run
  Run-Rising s s' cs (mine env self chain run) =
      Run-Rising (raft_start_mining ops env self (s, chain)).0.0 s' cs run
  Run-Rising s s' cs (ss_mine env self chain run) =
      Run-Rising (ss_raft_start_mining ops env self (s, chain)).0.0 s' cs run
  Run-Rising s s' cs (check_commit q2 msgs run) =
      Run-Rising (raft_check_commit q2 msgs s).0 s' cs run
  Run-Rising s s' cs (ss_check_commit self q2 gq2 msgs run) =
      subst (λ t. Rising t cs) (ss_check_term self q2 gq2 msgs s)
        (Run-Rising (ss_raft_check_commit self q2 gq2 msgs s).0 s' cs run)
  Run-Rising s s' cs (time_out below run) =
      Rising-weaken s.intra_term (heart_beat_time_out s).intra_term cs (omega arith)
        (Run-Rising (heart_beat_time_out s) s' cs run)

Rising-above :
    (t : ℕ) (cs : List Confirmation) (c : Confirmation) → Rising t cs → In c cs → t < c.term
Rising-above t [] c r at = elim at [ ]
Rising-above t (y ∷ xs) _ (above, r) here = above
Rising-above t (y ∷ xs) c (above, r) (there at) =
    let later = Rising-above y.term xs c r at in omega arith

once :
    (t : ℕ) (cs : List Confirmation) (c d : Confirmation)
    → Rising t cs
    → In c cs
    → In d cs
    → c.term ≡ d.term
    → c ≡ d
once t [] c d r at at' same = elim at [ ]
once t (y ∷ xs) _ _ (above, r) here here same = refl
once t (y ∷ xs) _ d (above, r) here (there at) same =
    let later = Rising-above y.term xs d r at in absurd (omega arith)
once t (y ∷ xs) c _ (above, r) (there at) here same =
    let later = Rising-above y.term xs c r at in absurd (omega arith)
once t (y ∷ xs) c d (above, r) (there at) (there at') same = once y.term xs c d r at at' same

-- A node votes at most once in a term: two votes of the same term that it gives are the same vote.
-- This is over any run of StartVote, HeartBeat, ConfirmStartVote and block messages, blocks of its own,
-- loops that count confirmations, and timeouts at which the term is not yet the largest.
pub vote_once :
    {C : Type 0} (ops : ChainOps C) (s s' : RaftState) (cs : List Confirmation) (c d : Confirmation)
    → Run ops s cs s'
    → In c cs
    → In d cs
    → c.term ≡ d.term
    → c ≡ d
vote_once ops s s' cs c d run at at' same =
    once s.intra_term cs c d (Run-Rising ops s s' cs run) at at' same
