-- ===== src/Executor/Outcome.antt =====
-- What one execution by agent/internal/executor/executor.go reports: the numbers of its log lines
-- and its result.
use cron_compose.Prelude.{
  ℕ, zero, suc, ◌+◌, ◌≡◌, refl, ap, ◌∙◌, sym, ◌↔◌, ◌≢◌, length-append, Bool, true, false, List, [],
  ◌∷◌, ◌++◌, none, if◌then◌else◌, arith, length, Bytes, Option-cases, inl, inr,
}
use native.Mathlib.Numerals.{add-one}
use native.Mathlib.Nat.{add-zero, zero-add}
use cron_compose.Executor.Command.{Job}
use cron_compose.Executor.{
  succeeded, Stream, stdout, stderr, Chunk, Host, clean, note_chunks, pump_lines, notes_of,
  result_of, wait_result, run_process, run,
}

abbrev pub same_stream : Stream → Stream → Bool
same_stream stdout stdout = true
same_stream stderr stderr = true
same_stream _ _ = false

-- The numbers of the chunks of one stream, in order.
unfoldable pub seqs : Stream → List Chunk → List ℕ
seqs s [] = []
seqs s (c ∷ cs) = if same_stream s c.stream then c.seq ∷ seqs s cs else seqs s cs

-- `n`, `n + 1`, and so on, as many as `k`.
unfoldable pub count_up : ℕ → ℕ → List ℕ
count_up n zero = []
count_up n (suc k) = n ∷ count_up (suc n) k

pub seqs-append : (s : Stream) (xs ys : List Chunk) → seqs s (xs ++ ys) ≡ seqs s xs ++ seqs s ys
unfolding seqs
seqs-append s [] ys = refl
seqs-append s (x ∷ xs) ys = ground (arith, seqs-append s xs ys)

count_up-append : (n k l : ℕ) → count_up n k ++ count_up (n + k) l ≡ count_up n (k + l)
unfolding count_up
count_up-append n zero l = rw (add-zero n, zero-add l)
count_up-append n (suc k) l =
    rw (add-suc-left k l) (ap (◌∷◌ n) (rw (sym (add-suc-swap n k)) (count_up-append (suc n) k l)))
  where
    add-suc-left : (k l : ℕ) → suc k + l ≡ suc (k + l)
    add-suc-left k l = omega arith

    add-suc-swap : (n k : ℕ) → suc n + k ≡ n + suc k
    add-suc-swap n k = omega arith

start_of : Stream → ℕ → ℕ → ℕ
start_of stdout out err = out
start_of stderr out err = err

-- Numbers that count up from `n` without a gap.
abbrev pub CountsFrom : ℕ → List ℕ → Type 0
CountsFrom n xs = xs ≡ count_up n (length xs)

CountsFrom-append :
    (n m : ℕ) (xs ys : List ℕ)
    → CountsFrom n xs
    → m ≡ n + length xs
    → CountsFrom m ys
    → CountsFrom n (xs ++ ys)
CountsFrom-append n m xs ys hx e hy =
    ap (λ zs. zs ++ ys) hx
    ∙ ap (◌++◌ (count_up n (length xs))) (hy ∙ ap (λ k. count_up k (length ys)) e)
    ∙ count_up-append n (length xs) (length ys)
    ∙ ap (count_up n) (sym (length-append xs ys))

seqs-pump_lines :
    (s : Stream) (out err : ℕ) (lines : List (Stream × Bytes))
    → seqs s (pump_lines out err lines)
      ≡ count_up (start_of s out err) (length (seqs s (pump_lines out err lines)))
unfolding seqs pump_lines count_up start_of
seqs-pump_lines s out err [] = refl
seqs-pump_lines stdout out err ((stdout, l) ∷ lines) =
    rw add-one (ap (◌∷◌ out) (seqs-pump_lines stdout (suc out) err lines))
seqs-pump_lines stdout out err ((stderr, l) ∷ lines) = seqs-pump_lines stdout out (err + 1) lines
seqs-pump_lines stderr out err ((stdout, l) ∷ lines) = seqs-pump_lines stderr (out + 1) err lines
seqs-pump_lines stderr out err ((stderr, l) ∷ lines) =
    rw add-one (ap (◌∷◌ err) (seqs-pump_lines stderr out (suc err) lines))

seqs-note_chunks_stdout : (i : ℕ) (notes : List Bytes) → seqs stdout (note_chunks i notes) ≡ []
unfolding seqs note_chunks
seqs-note_chunks_stdout i [] = refl
seqs-note_chunks_stdout i (n ∷ notes) = seqs-note_chunks_stdout (i + 1) notes

seqs-note_chunks_stderr :
    (i : ℕ) (notes : List Bytes) → seqs stderr (note_chunks i notes) ≡ count_up i (length notes)
unfolding seqs note_chunks count_up
seqs-note_chunks_stderr i [] = refl
seqs-note_chunks_stderr i (n ∷ notes) =
    rw add-one (ap (◌∷◌ i) (seqs-note_chunks_stderr (suc i) notes))

length-count_up : (n k : ℕ) → length (count_up n k) ≡ k
unfolding count_up
length-count_up n zero = refl
length-count_up n (suc k) = ap suc (length-count_up (suc n) k)

note_chunks-CountsFrom : (notes : List Bytes) → CountsFrom 0 (seqs stderr (note_chunks 0 notes))
note_chunks-CountsFrom notes =
    rw (seqs-note_chunks_stderr 0 notes, length-count_up 0 (length notes))

output-CountsFrom :
    (s : Stream) (notes : List Bytes) (lines : List (Stream × Bytes))
    → CountsFrom 0 (seqs s (note_chunks 0 notes ++ pump_lines 0 (length notes) lines))
output-CountsFrom stdout notes lines =
    rw (seqs-append stdout (note_chunks 0 notes), seqs-note_chunks_stdout 0 notes)
      (unfold start_of in seqs-pump_lines stdout 0 (length notes) lines)
output-CountsFrom stderr notes lines = rw (seqs-append stderr (note_chunks 0 notes)) (
    CountsFrom-append 0 (length notes) (seqs stderr (note_chunks 0 notes)) _
      (note_chunks-CountsFrom notes)
      (omega (arith, ap length (seqs-note_chunks_stderr 0 notes), length-count_up 0 (length notes)))
      (unfold start_of in seqs-pump_lines stderr 0 (length notes) lines))

run_process-CountsFrom :
    (s : Stream) (h : Host) (notes : List Bytes) → CountsFrom 0 (seqs s (run_process h notes).0)
unfolding run_process
run_process-CountsFrom s h notes = elim (Option-cases h.start_error) [
  | inl e ↦ simp (e, run_process) (output-CountsFrom s notes h.lines)
  | inr (m, e) ↦ simp (e, run_process) (at_start s)
]
  where
    at_start : (s : Stream) → CountsFrom 0 (seqs s (note_chunks 0 notes))
    at_start stdout = rw (seqs-note_chunks_stdout 0 notes) (unfold count_up in refl)
    at_start stderr = note_chunks-CountsFrom notes

-- On each of the two streams one execution numbers its lines 0, 1, 2 and so on, its own notes
-- included, in whatever order the two pumps run: no two lines of a stream share a number.
pub run-CountsFrom : (s : Stream) (h : Host) (j : Job) → CountsFrom 0 (seqs s (run h j).0)
unfolding run
run-CountsFrom s h j = elim (Option-cases h.user) [
  | inl e ↦ simp (e, run) (unfold seqs count_up in refl)
  | inr (cred, e) ↦ simp (e, run) (run_process-CountsFrom s h (notes_of h j))
]

-- A run succeeds exactly if its user can be had, its process starts, neither the deadline nor a
-- cancellation came first, and the process ended with exit code 0.
pub run_succeeded :
    (h : Host) (j : Job)
    → ((run h j).1.status ≡ succeeded) ↔ (
        ((h.user ≢ none) × (h.start_error ≡ none))
        × (h.deadline ≡ false)
        × (h.canceled ≡ false)
        × (h.wait ≡ clean))
unfolding run run_process result_of wait_result
run_succeeded h j = ground arith
