-- ===== src/Quorum/Tests.antt =====
-- Runs of the counter of Quorum.go, and the theorems at concrete inputs.
use Prim.Native.Nat.{min}
use frustum.Prelude.{
  ℕ, ◌+◌, ◌-◌, ◌*◌, ◌/◌, ◌%◌, ◌≤◌, ◌<◌, ◌≡◌, ◌≢◌, ◌↔◌, refl, [], ◌∷◌, false, arith,
}
use frustum.Float.{malicious, floor_mul}
use frustum.Message.{NodeMsg, prepare, null}
use frustum.Quorum.{Quorum, intra_prepare, quorum_nodes, handle}
use frustum.Quorum.Count.{handle_reference, handle-handle_reference}
use frustum.Quorum.Size.{quorum_dilemma}
use frustum.Quorum.Trace.{run, run_votes}

-- A vote of node 1-2 for a round.
abbrev vote : ℕ → NodeMsg
vote h = record {
  time_stamp = 0;
  from = b'1' ∷ b'-' ∷ b'2' ∷ [];
  to = [];
  msg_type = prepare;
  msg_body = null;
  epoch_num = 0;
  block_height = h;
  consensus_type = [];
}

-- Round 3 in a shard of 7, where 5 votes are needed, and a vote of the round is buffered.
abbrev waiting : Quorum
waiting = record {
  name = intra_prepare;
  latest_proposal_num = 3;
  vote_count = 0;
  finish = false;
  msg_buffer = vote 3 ∷ vote 4 ∷ [];
}

needed_of_seven : quorum_nodes intra_prepare malicious 7 ≡ 5
unfolding quorum_nodes floor_mul
needed_of_seven = refl

-- Three live votes and one buffered vote make five.
counted_again : (run malicious 7 (vote 3 ∷ vote 3 ∷ vote 3 ∷ []) waiting).1 ≡ 1
unfolding run handle quorum_nodes floor_mul
counted_again = refl

handle-handle_reference_example :
    handle malicious 7 (vote 3) waiting ≡ handle_reference malicious 7 (vote 3) waiting
handle-handle_reference_example = handle-handle_reference malicious 7 (vote 3) waiting

quorum_dilemma_example :
    ((7 / 3 + 7 < 2 * quorum_nodes intra_prepare malicious 7) ↔ (7 % 3 ≢ 2))
    × ((quorum_nodes intra_prepare malicious 7 ≤ 7 - 1 - 7 / 3) ↔ (7 % 3 ≡ 2))
quorum_dilemma_example = quorum_dilemma intra_prepare 7 tt (omega arith) (omega arith)

run_votes_example :
    ((run malicious 7 (vote 3 ∷ vote 4 ∷ vote 3 ∷ []) waiting).0.vote_count
      ≡ min (quorum_nodes intra_prepare malicious 7) 4)
    × ((run malicious 7 (vote 3 ∷ vote 4 ∷ vote 3 ∷ []) waiting).1 ≡ 0)
unfolding quorum_nodes floor_mul
run_votes_example = run_votes malicious 7 (vote 3 ∷ vote 4 ∷ vote 3 ∷ []) waiting (omega arith)
