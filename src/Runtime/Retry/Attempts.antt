-- ===== src/Runtime/Retry/Attempts.antt =====
-- How often `runWithRetries` of agent/internal/runtime/runs.go runs a job, and with what result.
use cron_compose.Prelude.{
  ℕ, zero, suc, ◌+◌, ◌*◌, ◌≤◌, ◌<◌, ◌≡◌, ◌≢◌, subst, refl, ◌⊎◌, inl, inr, Bool, true, false, List,
  [], ◌++◌, Option, some, arith, leb, Bool-cases, append-nil,
}
use native.Mathlib.Decide.{ℕ_discrete}
use native.Mathlib.Numerals.{add-one}
use cron_compose.Executor.Command.{Job}
use cron_compose.Executor.{Status, succeeded, failed, timed_out, canceled, Chunk, Result, Host}
use cron_compose.Runtime.Retry.{
  seq_block, is_final, attempt_chunks, attempt_result, put_before, retry_loop, run_with_retries,
}

module _ (hosts : ℕ → Host) (stopped : ℕ → Bool) (job : Job) (max_retries : ℕ) where
  -- The chunks of `k` attempts from `attempt` on, each in its own block of numbers.
  unfoldable pub chunks_of : ℕ → ℕ → List Chunk
  chunks_of attempt zero = []
  chunks_of attempt (suc k) =
      attempt_chunks hosts stopped job max_retries attempt (attempt * seq_block)
      ++ chunks_of (suc attempt) k

  abbrev status_of : ℕ → Status
  status_of i = (attempt_result hosts stopped job max_retries i).status

  -- The attempts `attempt`, ..., `last` were made, and no others.
  pub record Attempts (attempt : ℕ) (r : Option (List Chunk × Result)) : Type 0 where
    pub count : ℕ
    pub last : ℕ
    pub last_lem : last ≡ attempt + count
    pub within : last ≤ max_retries
    pub returns :
        r ≡ some (chunks_of attempt (suc count), attempt_result hosts stopped job max_retries last)
    pub earlier : (i : ℕ) → attempt ≤ i → i < last → (status_of i ≡ failed) × (stopped i ≡ false)
    pub ends : (status_of last ≢ failed) ⊎ ((last ≡ max_retries) ⊎ (stopped last ≡ true))

  abbrev loop_from : ℕ → ℕ → Option (List Chunk × Result)
  loop_from fuel attempt =
      retry_loop hosts stopped job max_retries fuel attempt (attempt * seq_block)

  status_final : (s : Status) → is_final s ≡ true → s ≢ failed
  status_final succeeded h e = cc
  status_final timed_out h e = cc
  status_final canceled h e = cc
  status_final failed h e = cc

  status_failed : (s : Status) → is_final s ≡ false → s ≡ failed
  status_failed succeeded h = cc
  status_failed timed_out h = cc
  status_failed canceled h = cc
  status_failed failed h = refl

  -- The loop returns at this attempt.
  last_attempt :
      (fuel attempt : ℕ)
      → attempt ≤ max_retries
      → (is_final (status_of attempt) ≡ true)
        ⊎ ((leb max_retries attempt ≡ true) ⊎ (stopped attempt ≡ true))
      → Attempts attempt (loop_from (suc fuel) attempt)
  unfolding retry_loop chunks_of
  last_attempt fuel attempt h e = record {
    count = 0;
    last = attempt;
    last_lem = omega arith;
    within = h;
    returns = ground (
      arith,
      append-nil (attempt_chunks hosts stopped job max_retries attempt (attempt * seq_block)),
    );
    earlier = λ i a b. absurd (omega arith);
    ends = elim e [
      | inl f ↦ inl (status_final (status_of attempt) f)
      | inr (inl f) ↦ inr (inl (ground arith))
      | inr (inr f) ↦ inr (inr f)
    ];
  }

  -- The loop goes on with the next attempt.
  next_attempt :
      (fuel attempt : ℕ)
      → is_final (status_of attempt) ≡ false
      → leb max_retries attempt ≡ false
      → stopped attempt ≡ false
      → Attempts (suc attempt) (loop_from fuel (suc attempt))
      → Attempts attempt (loop_from (suc fuel) attempt)
  unfolding retry_loop put_before
  next_attempt fuel attempt f m st r = record {
    count = suc r.count;
    last = r.last;
    last_lem = omega (arith, r.last_lem);
    within = r.within;
    returns = rw (f, m, st, add-one, next_offset attempt, r.returns) (unfold chunks_of in refl);
    earlier =
        λ i a b. earlier_or_now i a (status_failed (status_of attempt) f) (λ h. r.earlier i h b);
    ends = r.ends;
  }
    where
      earlier_or_now :
          (i : ℕ)
          → attempt ≤ i
          → status_of attempt ≡ failed
          → (suc attempt ≤ i → (status_of i ≡ failed) × (stopped i ≡ false))
          → (status_of i ≡ failed) × (stopped i ≡ false)
      earlier_or_now i a now later = elim (ℕ_discrete attempt i) [
        | yes e ↦ subst (λ k. (status_of k ≡ failed) × (stopped k ≡ false)) e (now, st)
        | no n ↦ later (omega arith)
      ]

      next_offset : (n : ℕ) → n * seq_block + seq_block ≡ suc n * seq_block
      next_offset n = omega arith

  loop-Attempts :
      (fuel attempt : ℕ)
      → attempt ≤ max_retries
      → max_retries < attempt + fuel
      → Attempts attempt (loop_from fuel attempt)
  loop-Attempts zero attempt h k = absurd (omega arith)
  loop-Attempts (suc fuel) attempt h k = elim (Bool-cases (is_final (status_of attempt))) [
    | inl f ↦ last_attempt fuel attempt h (inl f)
    | inr f ↦ elim (Bool-cases (leb max_retries attempt)) [
      | inl m ↦ last_attempt fuel attempt h (inr (inl m))
      | inr m ↦ elim (Bool-cases (stopped attempt)) [
        | inl st ↦ last_attempt fuel attempt h (inr (inr st))
        | inr st ↦
            next_attempt fuel attempt f m st
              (loop-Attempts fuel (suc attempt) (ground arith) (omega arith))
      ]
    ]
  ]

  -- `runWithRetries` returns, after `last + 1` attempts, at most one more than there are retries.
  -- Every earlier attempt plainly failed, and the context was alive in the pause behind it; the
  -- last one succeeded, timed out or was canceled, or used up the retries, or the context ended.
  -- The result is that of the last attempt, and the log is that of all of them in order.
  pub run_with_retries-Attempts : Attempts 0 (run_with_retries hosts stopped job max_retries)
  unfolding run_with_retries
  run_with_retries-Attempts = loop-Attempts (max_retries + 1) 0 (omega arith) (omega arith)
