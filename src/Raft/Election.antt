-- ===== src/Raft/Election.antt =====
-- When CheckConfirmStartVote of BlockChain/Consensus/SS-Raft makes a candidate the leader.
use frustum.Prelude.{
  ℕ, ◌+◌, ◌≤◌, ◌<◌, ◌≡◌, refl, sym, ap, subst, ◌∙◌, List, [], ◌∷◌, Bool, true, false, ltb, leb,
  ◌==◌, ==_iff, if◌then◌else◌, arith, Bool-cases, inl, inr,
}
use frustum.Raft.{
  RaftMsg, RaftState, intra_candidate, intra_leader, refreshed, elected, become_intra_leader,
  check_confirm, check_confirm_start_vote,
}

-- The votes that are not of an earlier term.
abbrev pub votes_from : ℕ → List RaftMsg → ℕ
votes_from term [] = 0
votes_from term (msg ∷ msgs) = (if ltb msg.intra_term term then 0 else 1) + votes_from term msgs

with_count : RaftState → ℕ → RaftState
with_count s k = record s { intra_q1_count = record { count = k; term = s.intra_term } }

candidate_step :
    (q1 k : ℕ) (msg : RaftMsg) (s : RaftState)
    → s.intra_role ≡ intra_candidate
    → k < q1
    → check_confirm q1 msg (with_count s k) ≡ (
        if ltb msg.intra_term s.intra_term
        then (with_count s k, false)
        else if k + 1 == q1
        then (become_intra_leader (with_count s (k + 1)), true)
        else (with_count s (k + 1), false))
unfolding check_confirm refreshed elected with_count
candidate_step q1 k msg s role few =
    let same : ltb s.intra_term s.intra_term ≡ false = ground arith in
    let wanted : ltb k q1 ≡ true = ground arith in rw (same, wanted, role) refl

outcome : ℕ → ℕ → RaftState → RaftState × Bool
outcome q1 votes s =
    if leb q1 votes
    then (become_intra_leader (with_count s q1), true)
    else (with_count s votes, false)

outcome_met :
    (q1 k votes : ℕ) (s : RaftState)
    → k ≡ q1
    → q1 ≤ votes
    → (become_intra_leader (with_count s k), true) ≡ outcome q1 votes s
unfolding outcome
outcome_met q1 k votes s same enough =
    let reached : leb q1 votes ≡ true = ground arith in rw (reached, same) refl

outcome_facts :
    (q1 votes : ℕ) (s : RaftState)
    → s.intra_role ≡ intra_candidate
    → ((outcome q1 votes s).1 ≡ leb q1 votes)
      × ((outcome q1 votes s).0.intra_role
          ≡ (if leb q1 votes then intra_leader else intra_candidate))
      × ((outcome q1 votes s).0.intra_term ≡ s.intra_term)
unfolding outcome become_intra_leader with_count
outcome_facts q1 votes s role = ground arith

ahead :
    (q1 k : ℕ) (msg : RaftMsg) (msgs : List RaftMsg) (s s' : RaftState) (ended : Bool)
    → check_confirm q1 msg s ≡ (s', ended)
    → check_confirm_start_vote q1 (msg ∷ msgs) s
      ≡ (if ended then (s', true) else check_confirm_start_vote q1 msgs s')
unfolding check_confirm_start_vote
ahead q1 k msg msgs s s' ended e = rw e refl

candidate_run :
    (q1 k : ℕ) (msgs : List RaftMsg) (s : RaftState)
    → s.intra_role ≡ intra_candidate
    → k < q1
    → check_confirm_start_vote q1 msgs (with_count s k)
      ≡ outcome q1 (k + votes_from s.intra_term msgs) s
unfolding check_confirm_start_vote outcome
candidate_run q1 k [] s role few = ground arith
candidate_run q1 k (msg ∷ msgs) s role few = elim (Bool-cases (ltb msg.intra_term s.intra_term)) [
  | inl old ↦
      ahead q1 k msg msgs (with_count s k) (with_count s k) false
        (candidate_step q1 k msg s role few ∙ rw old refl)
      ∙ candidate_run q1 k msgs s role few
      ∙ rw old (ap (λ v. outcome q1 (k + v) s) (omega arith))
  | inr valid ↦ elim (Bool-cases (k + 1 == q1)) [
    | inl last ↦
        ahead q1 k msg msgs (with_count s k) (become_intra_leader (with_count s (k + 1))) true
          (candidate_step q1 k msg s role few ∙ rw (valid, last) refl)
        ∙ outcome_met q1 (k + 1) (k + votes_from s.intra_term (msg ∷ msgs)) s
            (ground (arith, ==_iff (k + 1) q1)) (rw valid (ground (arith, ==_iff (k + 1) q1)))
    | inr more ↦
        ahead q1 k msg msgs (with_count s k) (with_count s (k + 1)) false
          (candidate_step q1 k msg s role few ∙ rw (valid, more) refl)
        ∙ candidate_run q1 (k + 1) msgs s role (ground arith)
        ∙ rw valid (ap (λ v. outcome q1 v s) (omega arith))
  ]
]

fresh_step :
    (q1 : ℕ) (msg : RaftMsg) (s : RaftState)
    → s.intra_q1_count.term < s.intra_term
    → ltb msg.intra_term s.intra_term ≡ false
    → check_confirm q1 msg s ≡ check_confirm q1 msg (with_count s 0)
unfolding check_confirm refreshed with_count
fresh_step q1 msg s old valid =
    let stale : ltb s.intra_q1_count.term s.intra_term ≡ true = ground arith in
    let same : ltb s.intra_term s.intra_term ≡ false = ground arith in rw (valid, stale, same) refl

fresh_old :
    (q1 : ℕ) (msg : RaftMsg) (s : RaftState)
    → ltb msg.intra_term s.intra_term ≡ true
    → check_confirm q1 msg s ≡ (s, false)
unfolding check_confirm
fresh_old q1 msg s old = rw old refl

Facts : ℕ → ℕ → RaftState → RaftState × Bool → Type 0
Facts q1 votes s r =
    (r.1 ≡ leb q1 votes)
    × (r.0.intra_role ≡ (if leb q1 votes then intra_leader else intra_candidate))
    × (r.0.intra_term ≡ s.intra_term)

fresh_run :
    (q1 votes : ℕ) (msgs : List RaftMsg) (s : RaftState)
    → votes ≡ votes_from s.intra_term msgs
    → s.intra_role ≡ intra_candidate
    → s.intra_q1_count.term < s.intra_term
    → 0 < q1
    → Facts q1 votes s (check_confirm_start_vote q1 msgs s)
unfolding check_confirm_start_vote Facts
fresh_run q1 votes [] s e role old some_needed = ground arith
fresh_run q1 votes (msg ∷ msgs) s e role old some_needed =
    elim (Bool-cases (ltb msg.intra_term s.intra_term)) [
      | inl past ↦
          subst (Facts q1 votes s) (sym (ahead q1 0 msg msgs s s false (fresh_old q1 msg s past)))
            (fresh_run q1 votes msgs s (e ∙ rw past (omega arith)) role old some_needed)
      | inr valid ↦
          let r = check_confirm q1 msg (with_count s 0) in
          let outcome_count : 0 + votes_from s.intra_term (msg ∷ msgs) ≡ votes =
            sym (e ∙ omega arith) in
          let same =
            ahead q1 0 msg msgs s r.0 r.1 (fresh_step q1 msg s old valid)
            ∙ sym (ahead q1 0 msg msgs (with_count s 0) r.0 r.1 refl)
            ∙ candidate_run q1 0 (msg ∷ msgs) s role some_needed
            ∙ ap (λ v. outcome q1 v s) (outcome_count) in
          subst (Facts q1 votes s) (sym same) (outcome_facts q1 votes s role)
    ]

-- A candidate whose counter is of an earlier term, and that needs a vote at least, becomes the leader
-- exactly when the needed number of votes comes that are not of an earlier term than its own, among
-- any other messages; it keeps its term, and the loop ends. With fewer it stays a candidate, and the
-- loop goes on.
pub check_confirm_start_vote-leader :
    (q1 : ℕ) (msgs : List RaftMsg) (s : RaftState)
    → s.intra_role ≡ intra_candidate
    → s.intra_q1_count.term < s.intra_term
    → 0 < q1
    → let r = check_confirm_start_vote q1 msgs s in
      (r.1 ≡ leb q1 (votes_from s.intra_term msgs))
      × (r.0.intra_role
          ≡ (if leb q1 (votes_from s.intra_term msgs) then intra_leader else intra_candidate))
      × (r.0.intra_term ≡ s.intra_term)
unfolding Facts
check_confirm_start_vote-leader q1 msgs s role old some_needed =
    fresh_run q1 (votes_from s.intra_term msgs) msgs s refl role old some_needed
