-- ===== src/Runtime/Retry/Numbers.antt =====
-- The sequence numbers of a run's log lines over all attempts, agent/internal/runtime/runs.go. The
-- control plane's key is (run_id, stream, seq).
use cron_compose.Prelude.{
  ℕ, zero, suc, ◌+◌, ◌*◌, ◌^◌, ◌≤◌, ◌≡◌, ◌≢◌, subst, refl, ap, ◌∙◌, sym, Bool, List, [], ◌∷◌, ◌++◌,
  map, some, arith, length,
}
use native.Mathlib.Nat.{add-zero}
use cron_compose.Executor.Command.{Job}
use cron_compose.Executor.Outcome.{seqs, seqs-append, count_up, run-CountsFrom}
use cron_compose.Executor.{Stream, stdout, stderr, Chunk, Result, Host, run}
use cron_compose.Runtime.Retry.{
  seq_block, to_int32, at_base, notice, attempt_chunks, run_with_retries,
}
use cron_compose.Runtime.Retry.Attempts.{chunks_of, run_with_retries-Attempts}

shifted : ℕ → List ℕ → List ℕ
shifted base [] = []
shifted base (n ∷ ns) = to_int32 (base + n) ∷ shifted base ns

seqs-at_base :
    (s : Stream) (base : ℕ) (cs : List Chunk)
    → seqs s (map (at_base base) cs) ≡ shifted base (seqs s cs)
unfolding seqs shifted
seqs-at_base s base [] = refl
seqs-at_base s base (c ∷ cs) = ground (arith, seqs-at_base s base cs)

-- Numbers that grow, from `lo` on.
abbrev pub Increasing : ℕ → List ℕ → Type 0
Increasing lo [] = Unit {0}
Increasing lo (n ∷ ns) = (lo ≤ n) × Increasing (suc n) ns

Increasing-mono : (lo hi : ℕ) (xs : List ℕ) → lo ≤ hi → Increasing hi xs → Increasing lo xs
Increasing-mono lo hi [] h i = tt
Increasing-mono lo hi (x ∷ xs) h i = (omega arith, i.1)

shifted-Increasing :
    (base n k : ℕ) (ys : List ℕ)
    → base + (n + k) ≤ 2 ^ 31
    → Increasing (base + (n + k)) ys
    → Increasing (base + n) (shifted base (count_up n k) ++ ys)
unfolding shifted count_up
shifted-Increasing base n zero ys h hy = rw (sym (add-zero n)) hy
shifted-Increasing base n (suc k) ys h hy = (
  omega arith,
  subst (λ lo. Increasing lo (shifted base (count_up (suc n) k) ++ ys)) next
      (shifted-Increasing base (suc n) k ys (omega arith) (subst (λ lo. Increasing lo ys) same hy)),
)
  where
    next : base + suc n ≡ suc (to_int32 (base + n))
    next = omega arith

    same : base + (n + suc k) ≡ base + (suc n + k)
    same = omega arith

module _ (hosts : ℕ → Host) (stopped : ℕ → Bool) (job : Job) (max_retries : ℕ) where
  abbrev run_seqs : Stream → ℕ → List ℕ
  run_seqs s i = seqs s (run (hosts i) job).0

  seqs-notice_stdout : (attempt : ℕ) → seqs stdout (notice attempt max_retries) ≡ []
  unfolding seqs notice
  seqs-notice_stdout attempt = ground arith

  seqs-attempt_stdout :
      (attempt base : ℕ)
      → seqs stdout (attempt_chunks hosts stopped job max_retries attempt base)
        ≡ shifted base (count_up 0 (length (run_seqs stdout attempt)))
  unfolding attempt_chunks
  seqs-attempt_stdout attempt base =
      seqs-at_base stdout base _
      ∙ ap (shifted base) (
          seqs-append stdout (notice attempt max_retries) (run (hosts attempt) job).0
          ∙ rw (seqs-notice_stdout attempt) (run-CountsFrom stdout (hosts attempt) job))

  chunks_of-Increasing :
      (attempt k : ℕ)
      → ((i : ℕ) → length (run_seqs stdout i) ≤ seq_block)
      → (attempt + k) * seq_block ≤ 2 ^ 31
      → Increasing
          (attempt * seq_block)
          (seqs stdout (chunks_of hosts stopped job max_retries attempt k))
  unfolding chunks_of
  chunks_of-Increasing attempt zero few h = unfold seqs in tt
  chunks_of-Increasing attempt (suc k) few h =
      rw
        (
          seqs-append stdout (attempt_chunks hosts stopped job max_retries attempt _),
          seqs-attempt_stdout attempt,
        )
        (subst (λ lo. Increasing lo (shifted base (count_up 0 n) ++ tail)) (add-zero base)
          (shifted-Increasing base 0 n tail (omega (arith, few attempt)) (
            Increasing-mono (base + (0 + n)) (suc attempt * seq_block) tail
              (omega (arith, few attempt))
              (chunks_of-Increasing (suc attempt) k few (omega arith)))))
    where
      base : ℕ
      base = attempt * seq_block

      n : ℕ
      n = length (run_seqs stdout attempt)

      tail : List ℕ
      tail = seqs stdout (chunks_of hosts stopped job max_retries (suc attempt) k)

  -- While no attempt writes more than a block's worth of lines and all blocks fit an int32, the
  -- standard output of a run keeps its order and never uses a number twice, over all attempts.
  pub stdout-Increasing :
      (cs : List Chunk) (res : Result)
      → ((i : ℕ) → length (run_seqs stdout i) ≤ seq_block)
      → (max_retries + 1) * seq_block ≤ 2 ^ 31
      → run_with_retries hosts stopped job max_retries ≡ some (cs, res)
      → Increasing 0 (seqs stdout cs)
  stdout-Increasing cs res few fits e =
      let a = run_with_retries-Attempts hosts stopped job max_retries in
      let same : cs ≡ chunks_of hosts stopped job max_retries 0 (suc a.count) = cc (e, a.returns) in
      rw same (chunks_of-Increasing 0 (suc a.count) few (omega (arith, a.within, a.last_lem)))

  nonempty_count_up :
      (xs : List ℕ) → xs ≡ count_up 0 (length xs) → xs ≢ [] → (rest : List ℕ) × (xs ≡ 0 ∷ rest)
  nonempty_count_up [] e h = absurd (h refl)
  nonempty_count_up (x ∷ xs) e h = (count_up 1 (length xs), e ∙ unfold count_up in refl)

  seqs-notice_stderr : (attempt : ℕ) → seqs stderr (notice (suc attempt) max_retries) ≡ 0 ∷ []
  unfolding seqs notice
  seqs-notice_stderr attempt = ground arith

  -- Every retry that writes to standard error uses the first number of its block twice, for the
  -- retry notice and for the first line, and the control plane keeps only one line of a number.
  pub retry_stderr_collides :
      (attempt base : ℕ)
      → run_seqs stderr (suc attempt) ≢ []
      → (rest : List ℕ) × (seqs stderr
            (attempt_chunks hosts stopped job max_retries (suc attempt) base)
          ≡ to_int32 base ∷ to_int32 base ∷ rest)
  unfolding attempt_chunks shifted
  retry_stderr_collides attempt base h =
      let (rest, e) =
        nonempty_count_up (run_seqs stderr (suc attempt))
          (run-CountsFrom stderr (hosts (suc attempt)) job) h in
      let both : seqs stderr (notice (suc attempt) max_retries ++ (run (hosts (suc attempt)) job).0)
          ≡ 0 ∷ 0 ∷ rest =
        seqs-append stderr (notice (suc attempt) max_retries) (run (hosts (suc attempt)) job).0
        ∙ rw (seqs-notice_stderr attempt, e) in
      (shifted base rest, seqs-at_base stderr base _ ∙ ap (shifted base) both ∙ rw (add-zero base))
