-- ===== src/Quorum/Trace.antt =====
-- The counter of Quorum.go over a run of messages within one round.
use Prim.Native.Nat.{min}
use frustum.Prelude.{
  ℕ, zero, suc, ◌+◌, ◌*◌, ◌≤◌, ◌≡◌, refl, ap, ◌∙◌, List, [], ◌∷◌, Bool, true, false, ◌&&◌, ltb, leb,
  ◌==◌, if◌then◌else◌, arith,
}
use frustum.Float.{Float64}
use frustum.Message.{NodeMsg}
use frustum.Quorum.{Name, Quorum, quorum_nodes, new_quorum, reset_count, handle}
use frustum.Quorum.Count.{
  of_round, of_round-append, current, at_hand, quorum_nodes_pos, handle-handle_reference,
}

-- The counter after the messages, and how often a quorum was reported.
unfoldable pub run : Float64 → ℕ → List NodeMsg → Quorum → Quorum × ℕ
run f total [] q = (q, 0)
run f total (m ∷ ms) q =
    let (q', met, code) = handle f total m q in
    let (q'', met_later) = run f total ms q' in (q'', if met then suc met_later else met_later)

-- How many of the messages are votes of the counter's round.
abbrev pub votes : List NodeMsg → Quorum → ℕ
votes ms q = of_round q.latest_proposal_num ms

module _ (f : Float64) (total : ℕ) (m : NodeMsg) (q : Quorum) where
  pub handle_name : (handle f total m q).0.name ≡ q.name
  handle_name = ground (arith, handle-handle_reference f total m q)

  pub handle_latest : (handle f total m q).0.latest_proposal_num ≡ q.latest_proposal_num
  handle_latest = ground (arith, handle-handle_reference f total m q)

  -- A message of a later round is buffered, and is no vote of this one.
  current-handle : current (handle f total m q).0 ≡ current q
  current-handle = ground (
    arith,
    handle-handle_reference f total m q,
    of_round-append q.latest_proposal_num q.msg_buffer (m ∷ []),
  )

module _ (f : Float64) (total : ℕ) (m : NodeMsg) (q : Quorum) where
  handle_count : (handle f total m q).0.vote_count ≡ (
      if m.block_height == q.latest_proposal_num && ltb q.vote_count (quorum_nodes q.name f total)
      then min (quorum_nodes q.name f total) (at_hand q)
      else q.vote_count)
  handle_count = ground (arith, handle-handle_reference f total m q)

  handle_met : (handle f total m q).1 ≡ (
      m.block_height == q.latest_proposal_num
      && ltb q.vote_count (quorum_nodes q.name f total)
      && leb (quorum_nodes q.name f total) (at_hand q))
  handle_met = ground (arith, handle-handle_reference f total m q)

-- One step of the count, in numbers: `b` votes are buffered, and `k` follow.
count_step :
    (hit met : Bool) (needed c c' b k r : ℕ)
    → c ≤ needed
    → c' ≡ (if hit && ltb c needed then min needed (suc c + b) else c)
    → met ≡ (hit && ltb c needed && leb needed (suc c + b))
    → r ≡ (if ltb c' needed && leb needed (c' + k * (1 + b)) then 1 else 0)
    → let total = c + (if hit then suc k else k) * (1 + b) in
      (min needed (c' + k * (1 + b)) ≡ min needed total)
      × ((if met then suc r else r) ≡ (if ltb c needed && leb needed total then 1 else 0))
count_step true met needed c c' b k r h e e' e'' = ground arith
count_step false met needed c c' b k r h e e' e'' = ground arith

module _ (f : Float64) (total needed latest buffered : ℕ) where
  -- The induction, with what stays the same along the run named.
  run_from :
      (ms : List NodeMsg) (q : Quorum)
      → quorum_nodes q.name f total ≡ needed
      → q.latest_proposal_num ≡ latest
      → current q ≡ buffered
      → q.vote_count ≤ needed
      → let all = q.vote_count + of_round latest ms * (1 + buffered) in
        ((run f total ms q).0.vote_count ≡ min needed all)
        × ((run f total ms q).1 ≡ (if ltb q.vote_count needed && leb needed all then 1 else 0))
  unfolding run
  run_from [] q en el eb h = ground arith
  run_from (m ∷ ms) q en el eb h =
      let q' = (handle f total m q).0 in
      let c : ℕ = q'.vote_count in
      let count : c ≡ (
          if m.block_height == latest && ltb q.vote_count needed
          then min needed (suc q.vote_count + buffered)
          else q.vote_count) =
        rw (← en, ← el, ← eb) (handle_count f total m q) in
      let met : (handle f total m q).1 ≡ (
          m.block_height == latest
          && ltb q.vote_count needed
          && leb needed (suc q.vote_count + buffered)) =
        rw (← en, ← el, ← eb) (handle_met f total m q) in
      let (later, reported) =
        run_from ms q' (ap (λ (x : Name). quorum_nodes x f total) (handle_name f total m q) ∙ en)
          (handle_latest f total m q ∙ el) (current-handle f total m q ∙ eb) (ground arith) in
      let (all, once) =
        count_step (m.block_height == latest) (handle f total m q).1 needed q.vote_count c buffered
          (of_round latest ms) (run f total ms q').1 h count met reported in
      (later ∙ all, once)

-- The votes counted after k votes of the round: each adds itself and the buffered votes.
abbrev counted : List NodeMsg → Quorum → ℕ
counted ms q = q.vote_count + votes ms q * (1 + current q)

-- On a counter that has at most the votes needed, a run of messages within a round counts every
-- vote of the round once and the votes that the buffer holds for it once more with each, up to the
-- number needed; and the quorum is reported once if that number is reached by the run, and not at
-- all if it is not reached, or was reached before.
pub run_votes :
    (f : Float64) (total : ℕ) (ms : List NodeMsg) (q : Quorum)
    → let needed = quorum_nodes q.name f total in
      q.vote_count ≤ needed
      → ((run f total ms q).0.vote_count ≡ min needed (counted ms q))
        × ((run f total ms q).1
            ≡ (if ltb q.vote_count needed && leb needed (counted ms q) then 1 else 0))
run_votes f total ms q h =
    run_from f total (quorum_nodes q.name f total) q.latest_proposal_num (current q) ms q refl refl
      refl h

abbrev pub replicate : ℕ → NodeMsg → List NodeMsg
replicate zero m = []
replicate (suc n) m = m ∷ replicate n m

of_round-replicate : (n : ℕ) (m : NodeMsg) → of_round m.block_height (replicate n m) ≡ n
of_round-replicate zero m = refl
of_round-replicate (suc n) m = ground (arith, of_round-replicate n m)

-- One message, sent again and again by one sender: on a fresh counter of its round with nothing
-- buffered, n copies of it report the quorum exactly when n is at least the number of votes needed.
-- The counter does not look at who votes.
run_replayed :
    (f : Float64) (total n : ℕ) (m : NodeMsg) (name : Name)
    → let fresh = reset_count m.block_height (new_quorum name) in
      (run f total (replicate n m) fresh).1 ≡ (if leb (quorum_nodes name f total) n then 1 else 0)
unfolding reset_count new_quorum
run_replayed f total n m name = ground (
  arith,
  run_votes f total (replicate n m) (reset_count m.block_height (new_quorum name)),
  of_round-replicate n m,
  quorum_nodes_pos name f total,
)
