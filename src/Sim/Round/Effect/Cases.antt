-- ===== src/Sim/Round/Effect/Cases.antt =====
-- That every turn of a member has an effect of the kind that the invariant reads.
use frustum.Prelude.{
  ℕ, suc, ◌+◌, ◌*◌, ◌≤◌, ◌<◌, ◌≡◌, ◌≢◌, ◌⊎◌, inl, inr, refl, sym, ◌∙◌, false, arith,
}
use mathlib.Core.Bool.{false≢true}
use frustum.Prelude.Outcome.{ok}
use frustum.Prelude.Slices.{get_elem, set_elem, set_elem_same, set_elem-cases, length-set_elem}
use frustum.Sim.{Flags, Node}
use frustum.Sim.Round.{
  Stage, starting, silent, preparing, await_prepare, committing, await_commit, signed, finished,
  Round, more_prepared, more_committed, with_sig, at_stage, with_nodes,
}
use frustum.Sim.Round.Step.{
  Step, stays_silent, stays_finished, stays_waiting, stays_voting, stays_full, drops, joins,
  prepares, prepared_all, passes, commits, committed_all, signs, sends,
}
use frustum.Sim.Round.Effect.{
  to_prepare, to_commit, taking_part, voting, is_signed, telling, Changed, Effect,
}

module _ (flags : Flags) (id : ℕ) (s : Round) where
  -- A turn that leaves the members alone.
  same_nodes :
      (p q : Stage)
      → ((k : ℕ) → k < flags.n_per_commitee → to_prepare k p ≡ to_prepare k q)
      → ((k : ℕ) → k < flags.n_per_commitee → to_commit k p ≡ to_commit k q)
      → is_signed p ≡ is_signed q
      → (k : ℕ) (new : Node) → get_elem k s.nodes ≡ ok new
      → (old : Node) × (get_elem k s.nodes ≡ ok old) × Changed flags id p q k old new
  same_nodes p q f g e k new h = (
    new,
    h,
    record {
      honesty = refl;
      prepared = λ lt. omega (arith, f k lt);
      committed = λ lt. omega (arith, g k lt);
      own_sig = λ _ old. cc;
      other_sig = λ _. refl;
    },
  )

  -- A turn that changes nothing.
  no_effect : (p : Stage) → get_elem id s.stages ≡ ok p → Effect flags id s p s
  no_effect p at = record {
    next = p;
    stages = sym (set_elem_same id p s.stages at);
    node = same_nodes p p (λ _ _. refl) (λ _ _. refl) refl;
    size = refl;
    told = refl;
    joined = omega arith;
    voted = omega arith;
    passed = inl;
    decided = inl;
    dropped = inl;
  }

  -- A turn that moves the goroutine on and leaves the members and finalCommit alone.
  stage_effect :
      (p q : Stage)
      → ((k : ℕ) → k < flags.n_per_commitee → to_prepare k p ≡ to_prepare k q)
      → ((k : ℕ) → k < flags.n_per_commitee → to_commit k p ≡ to_commit k q)
      → is_signed p ≡ is_signed q
      → telling p ≡ telling q
      → (taking_part p ≤ taking_part q) × (voting p ≤ voting q)
      → (voting q ≡ 1
          → (voting p ≡ 1)
            ⊎ ((m : Node) × (get_elem id s.nodes ≡ ok m) × (2 * flags.total_f < m.prepare_num)))
      → (q ≡ silent
          → (p ≡ silent) ⊎ ((m : Node) × (get_elem id s.nodes ≡ ok m) × (m.is_honest ≡ false)))
      → Effect flags id s p (at_stage q id s)
  stage_effect p q f g e told (joined, voted) passed dropped = record {
    next = q;
    stages = refl;
    node = same_nodes p q f g e;
    size = refl;
    told = omega (arith, told);
    joined = joined;
    voted = voted;
    passed = passed;
    decided = λ h. inl (e ∙ h);
    dropped = dropped;
  }

  -- A turn that changes the member `i`, seen from each member.
  one_node :
      (p q : Stage) (i : ℕ) (m m' : Node)
      → get_elem i s.nodes ≡ ok m
      → Changed flags id p q i m m'
      → ((k : ℕ) (new : Node) → k ≢ i → Changed flags id p q k new new)
      → (k : ℕ) (new : Node) → get_elem k (set_elem i m' s.nodes) ≡ ok new
      → (old : Node) × (get_elem k s.nodes ≡ ok old) × Changed flags id p q k old new
  one_node p q i m m' c own others k new h = elim (set_elem-cases i k m' s.nodes h) [
    | inl (same, e) ↦ (m, rw same c, rw (same, e) own)
    | inr (other, old) ↦ (new, old, others k new other)
  ]

  prepares-Effect :
      {i : ℕ} (m : Node)
      → get_elem i s.nodes ≡ ok m
      → Effect flags id s
          (preparing i)
          (at_stage (preparing (suc i)) id (with_nodes (set_elem i (more_prepared m) s.nodes) s))
  prepares-Effect {i} m c = record {
    next = preparing (suc i);
    stages = refl;
    node =
        one_node (preparing i) (preparing (suc i)) i m (more_prepared m) c
          (record {
            honesty = refl;
            prepared = λ lt. ground arith;
            committed = λ lt. refl;
            own_sig = λ _ old. old;
            other_sig = λ _. refl;
          })
          λ k new other. record {
            honesty = refl;
            prepared = λ lt. ground arith;
            committed = λ lt. refl;
            own_sig = λ _ old. old;
            other_sig = λ _. refl;
          };
    size = length-set_elem i (more_prepared m) s.nodes;
    told = refl;
    joined = omega arith;
    voted = omega arith;
    passed = λ e. absurd (omega arith);
    decided = λ e. absurd (false≢true e);
    dropped = λ e. cc;
  }

  commits-Effect :
      {i : ℕ} (m : Node)
      → get_elem i s.nodes ≡ ok m
      → Effect flags id s
          (committing i)
          (at_stage (committing (suc i)) id (with_nodes (set_elem i (more_committed m) s.nodes) s))
  commits-Effect {i} m c = record {
    next = committing (suc i);
    stages = refl;
    node =
        one_node (committing i) (committing (suc i)) i m (more_committed m) c
          (record {
            honesty = refl;
            prepared = λ lt. refl;
            committed = λ lt. ground arith;
            own_sig = λ _ old. old;
            other_sig = λ _. refl;
          })
          λ k new other. record {
            honesty = refl;
            prepared = λ lt. refl;
            committed = λ lt. ground arith;
            own_sig = λ _ old. old;
            other_sig = λ _. refl;
          };
    size = length-set_elem i (more_committed m) s.nodes;
    told = refl;
    joined = omega arith;
    voted = omega arith;
    passed = λ _. inl refl;
    decided = λ e. absurd (false≢true e);
    dropped = λ e. cc;
  }

  signs-Effect :
      (m : Node)
      → get_elem id s.nodes ≡ ok m
      → 2 * flags.total_f < m.commit_num
      → Effect flags id s await_commit
          (at_stage signed id (with_nodes (set_elem id (with_sig m) s.nodes) s))
  signs-Effect m c g = record {
    next = signed;
    stages = refl;
    node =
        one_node await_commit signed id m (with_sig m) c
          (record {
            honesty = refl;
            prepared = λ lt. refl;
            committed = λ lt. refl;
            own_sig = λ _ _. refl;
            other_sig = λ other. absurd (other refl);
          })
          λ k new other. record {
            honesty = refl;
            prepared = λ lt. refl;
            committed = λ lt. refl;
            own_sig = λ same _. absurd (other same);
            other_sig = λ _. refl;
          };
    size = length-set_elem id (with_sig m) s.nodes;
    told = refl;
    joined = omega arith;
    voted = omega arith;
    passed = λ _. inl refl;
    decided = λ _. inr (m, c, g);
    dropped = λ e. cc;
  }

  sends-Effect :
      Effect flags id s signed
        (at_stage finished id (record s { final_commit = s.final_commit + 1 }))
  sends-Effect = record {
    next = finished;
    stages = refl;
    node = same_nodes signed finished (λ _ _. refl) (λ _ _. refl) refl;
    size = refl;
    told = omega arith;
    joined = omega arith;
    voted = omega arith;
    passed = λ _. inl refl;
    decided = λ _. inl refl;
    dropped = λ e. cc;
  }

  -- Every way in which a turn goes, seen as such an effect.
  pub Step-Effect :
      {p : Stage} {t : Round}
      → get_elem id s.stages ≡ ok p
      → Step flags id s p t
      → Effect flags id s p t
  Step-Effect at stays_silent = no_effect silent at
  Step-Effect at stays_finished = no_effect finished at
  Step-Effect at (stays_waiting _ _) = no_effect await_prepare at
  Step-Effect at (stays_voting _ _) = no_effect await_commit at
  Step-Effect at (stays_full _) = no_effect signed at
  Step-Effect at (prepares {m} _ c) = prepares-Effect m c
  Step-Effect at (commits {m} _ c) = commits-Effect m c
  Step-Effect at (signs {m} c g) = signs-Effect m c g
  Step-Effect at (sends _) = sends-Effect
  Step-Effect at (drops {m} c g) =
      stage_effect starting silent (λ _ _. refl) (λ _ _. refl) refl refl (omega arith, omega arith)
        (λ e. absurd (omega arith)) (λ _. inr (m, c, g))
  Step-Effect at joins =
      stage_effect starting (preparing 0) (λ k _. ground arith) (λ _ _. refl) refl refl
        (omega arith, omega arith) (λ e. absurd (omega arith)) (λ e. cc)
  Step-Effect at (prepared_all {i} g) =
      stage_effect (preparing i) await_prepare (λ k lt. ground arith) (λ _ _. refl) refl refl
        (omega arith, omega arith) (λ e. absurd (omega arith)) (λ e. cc)
  Step-Effect at (passes {m} c g) =
      stage_effect await_prepare (committing 0) (λ _ _. refl) (λ k _. ground arith) refl refl
        (omega arith, omega arith) (λ _. inr (m, c, g)) (λ e. cc)
  Step-Effect at (committed_all {i} g) =
      stage_effect (committing i) await_commit (λ _ _. refl) (λ k lt. ground arith) refl refl
        (omega arith, omega arith) (λ _. inl refl) (λ e. cc)
