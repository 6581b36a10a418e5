-- ===== src/Dotenv/Trim.antt =====
-- Trimming, cutting and splitting, as agent/internal/deploy/dotenv.go uses them on its lines.
use cron_compose.Prelude.{
  ℕ, ◌≡◌, refl, ap, ◌∙◌, Bool, true, false, ◌||◌, [], ◌∷◌, ◌++◌, none, some, Bytes, nat_beq,
  nat_beq_iff, arith, Bool-cases, inl, inr,
}
use cron_compose.Prelude.Strings.{
  is_space, any, trim, trim_left_by, trim_right_by, cons_kept, strip_prefix, split, on_head, cut,
  before_cut, before_pair, last, init,
}

module _ (q : ℕ → Bool) where
  pub any-append : (s t : Bytes) → any q (s ++ t) ≡ (any q s || any q t)
  unfolding any
  any-append [] t = refl
  any-append (c ∷ s) t = ground (arith, any-append s t)

  -- A kept end keeps what stands before it.
  pub trim_right_by-append :
      (s : Bytes) (c : ℕ) (t : Bytes)
      → trim_right_by q (c ∷ t) ≡ c ∷ t
      → trim_right_by q (s ++ (c ∷ t)) ≡ s ++ (c ∷ t)
  unfolding trim_right_by cons_kept
  trim_right_by-append [] c t h = h
  trim_right_by-append (d ∷ []) c t h = rw h refl
  trim_right_by-append (d ∷ e ∷ s) c t h = rw (trim_right_by-append (e ∷ s) c t h) refl

  pub trim_right_by-one : (c : ℕ) → q c ≡ false → trim_right_by q (c ∷ []) ≡ c ∷ []
  unfolding trim_right_by cons_kept
  trim_right_by-one c h = rw h refl

  -- A character that is kept stands before a text that is.
  pub trim_right_by-cons :
      (c : ℕ) (t : Bytes) → q c ≡ false → trim_right_by q t ≡ t → trim_right_by q (c ∷ t) ≡ c ∷ t
  unfolding trim_right_by cons_kept
  trim_right_by-cons c [] h e = rw h refl
  trim_right_by-cons c (d ∷ t) h e = rw e refl

  pub trim_right_by-none : (t : Bytes) → any q t ≡ false → trim_right_by q t ≡ t
  unfolding any
  trim_right_by-none [] h = unfold trim_right_by in refl
  trim_right_by-none (c ∷ t) h =
      trim_right_by-cons c t (ground (arith, h)) (trim_right_by-none t (ground (arith, h)))

-- A text without white space at either end.
pub record IsTrimmed (s : Bytes) : Type 0 where
  pub left : trim_left_by is_space s ≡ s
  pub right : trim_right_by is_space s ≡ s

pub trim-IsTrimmed : (s : Bytes) → IsTrimmed s → trim s ≡ s
unfolding trim
trim-IsTrimmed s h = ap (trim_right_by is_space) h.left ∙ h.right

pub trim_left_by-cons :
    (q : ℕ → Bool) (c : ℕ) (s : Bytes) → q c ≡ false → trim_left_by q (c ∷ s) ≡ c ∷ s
unfolding trim_left_by
trim_left_by-cons q c s h = rw h refl

pub spaceless-IsTrimmed : (s : Bytes) → any is_space s ≡ false → IsTrimmed s
unfolding any trim_left_by
spaceless-IsTrimmed [] h = record { left = refl; right = trim_right_by-none is_space [] refl }
spaceless-IsTrimmed (c ∷ s) h = record {
  left = trim_left_by-cons is_space c s (ground (arith, h));
  right = trim_right_by-none is_space (c ∷ s) h;
}

pub cut-first :
    (sep : ℕ) (k v : Bytes)
    → any (λ c. nat_beq c sep) k ≡ false
    → cut sep (k ++ (sep ∷ v)) ≡ some (k, v)
unfolding any cut before_cut
cut-first sep [] v h = ground arith
cut-first sep (c ∷ k) v h = ground (arith, cut-first sep k v)

pub split-line :
    (sep : ℕ) (s t : Bytes)
    → any (λ c. nat_beq c sep) s ≡ false
    → split sep (s ++ (sep ∷ t)) ≡ s ∷ split sep t
unfolding any split on_head
split-line sep [] t h = ground arith
split-line sep (c ∷ s) t h = ground (arith, split-line sep s t)

pub last-append : (s : Bytes) (c : ℕ) → last (s ++ (c ∷ [])) ≡ some c
unfolding last
last-append [] c = refl
last-append (d ∷ s) c = rw (last-append s c) refl

pub init-append : (s : Bytes) (c : ℕ) → init (s ++ (c ∷ [])) ≡ s
unfolding init
init-append [] c = refl
init-append (d ∷ []) c = refl
init-append (d ∷ e ∷ s) c = ap (λ t. d ∷ t) (init-append (e ∷ s) c)

pub before_pair-none :
    (a b : ℕ) (s : Bytes) → any (λ c. nat_beq c a) s ≡ false → before_pair a b s ≡ none
unfolding any before_pair
before_pair-none a b [] h = refl
before_pair-none a b (c ∷ []) h = refl
before_pair-none a b (c ∷ d ∷ s) h = ground (arith, before_pair-none a b (d ∷ s))

-- A prefix with a space in it, and no `=`, is not that of a spaceless name and `=`.
pub strip_prefix-none :
    (p k v : Bytes)
    → any is_space p ≡ true
    → any (λ c. nat_beq c b'=') p ≡ false
    → any is_space k ≡ false
    → strip_prefix p (k ++ (b'=' ∷ v)) ≡ none
unfolding any strip_prefix
strip_prefix-none [] k v h n s = ground (arith, h)
strip_prefix-none (c ∷ p) [] v h n s = ground (arith, n)
strip_prefix-none (c ∷ p) (d ∷ k) v h n s = elim (Bool-cases (nat_beq c d)) [
  | inl same ↦
      let e = (nat_beq_iff c d).0 same in
      let plain : is_space c ≡ false = ap is_space e ∙ ground (arith, s) in
      rw same
        (strip_prefix-none p k v (ground (arith, h, plain)) (ground (arith, n)) (ground (arith, s)))
  | inr other ↦ rw other refl
]
