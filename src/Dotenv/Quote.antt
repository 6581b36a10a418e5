-- ===== src/Dotenv/Quote.antt =====
-- `quoteDotEnv` and `unquoteEnv` of agent/internal/deploy/dotenv.go.
use cron_compose.Prelude.{
  ℕ, ◌≡◌, refl, ap, ◌∙◌, true, false, [], ◌∷◌, ◌++◌, none, some, Bytes, nat_beq, nat_beq_iff, arith,
  Bool-cases, inl, inr,
}
use cron_compose.Prelude.Strings.{
  is_space, any, trim, trim_left_by, trim_right_by, expand, contract, before_pair, last,
}
use cron_compose.Dotenv.Trim.{
  IsTrimmed, trim-IsTrimmed, trim_left_by-cons, trim_right_by-append, trim_right_by-one,
  last-append, init-append, before_pair-none,
}
use cron_compose.Dotenv.{
  is_special, is_quoted_by, without_comment, unquote_env, quote_dot_env, escape,
}

-- The second character of a replaced pair never stands without the first one in front.
contract-skip :
    (a b n c : ℕ) (s : Bytes) → nat_beq c a ≡ false → contract a b n (c ∷ s) ≡ c ∷ contract a b n s
unfolding contract
contract-skip a b n c [] h = refl
contract-skip a b n c (d ∷ s) h = rw h refl

contract-expand_same : (a : ℕ) (s : Bytes) → contract a a a (expand a a a s) ≡ s
unfolding expand contract
contract-expand_same a [] = refl
contract-expand_same a (c ∷ s) = elim (Bool-cases (nat_beq c a)) [
  | inl same ↦ ground (arith, same, contract-expand_same a s, nat_beq_iff a a, nat_beq_iff c a)
  | inr other ↦
      ground (arith, other, contract-expand_same a s, contract-skip a a a c (expand a a a s))
]

-- Where the second character does not begin what follows, the first one stays.
contract-keep :
    (a b c x : ℕ) (s : Bytes)
    → nat_beq x b ≡ false
    → contract a b b (c ∷ x ∷ s) ≡ c ∷ contract a b b (x ∷ s)
unfolding contract
contract-keep a b c x s h = ground (arith, h)

contract-expand : (a b : ℕ) (s : Bytes) → nat_beq a b ≡ false → contract a b b (expand b a b s) ≡ s
unfolding expand contract
contract-expand a b [] ne = refl
contract-expand a b (c ∷ s) ne = elim (Bool-cases (nat_beq c b)) [
  | inl same ↦
      ground
        (arith, same, contract-expand a b s ne, nat_beq_iff a a, nat_beq_iff b b, nat_beq_iff c b)
  | inr other ↦ rw other (kept s (contract-expand a b s ne))
]
  where
    kept :
        (t : Bytes)
        → contract a b b (expand b a b t) ≡ t
        → contract a b b (c ∷ expand b a b t) ≡ c ∷ t
    kept [] e = refl
    kept (x ∷ t) e = elim (Bool-cases (nat_beq x b)) [
      | inl same ↦ ground (arith, same, ne, e)
      | inr other ↦ ground (arith, other, e)
    ]

pub contract-escape : (v : Bytes) → contract 92 92 92 (contract 92 b'"' b'"' (escape v)) ≡ v
contract-escape v =
    ap (contract 92 92 92) (contract-expand 92 b'"' (expand 92 92 92 v) refl)
    ∙ contract-expand_same 92 v

quoted-wrapped : (q : ℕ) (e : Bytes) → is_quoted_by q (q ∷ (e ++ (q ∷ []))) ≡ true
unfolding last
quoted-wrapped q [] = ground (arith, nat_beq_iff q q)
quoted-wrapped q (c ∷ e) = rw (last-append (c ∷ e) q) (ground (arith, nat_beq_iff q q))

not_quoted : (q c : ℕ) (s : Bytes) → nat_beq c q ≡ false → is_quoted_by q (c ∷ s) ≡ false
not_quoted q c [] h = refl
not_quoted q c (d ∷ s) h = rw h refl

pub wrapped-IsTrimmed : (q : ℕ) (e : Bytes) → is_space q ≡ false → IsTrimmed (q ∷ (e ++ (q ∷ [])))
wrapped-IsTrimmed q e h = record {
  left = trim_left_by-cons is_space q (e ++ (q ∷ [])) h;
  right = trim_right_by-append is_space (q ∷ e) q [] (trim_right_by-one is_space q h);
}

-- A value that is read back as it was written: it is quoted, or has no white space at its ends.
abbrev pub IsReadable : Bytes → Type 0
IsReadable v = any is_special v ≡ false → IsTrimmed v

pub not_special :
    (v : Bytes) (x : ℕ)
    → is_special x ≡ true
    → any is_special v ≡ false
    → any (λ c. nat_beq c x) v ≡ false
unfolding any
not_special [] x h p = refl
not_special (c ∷ v) x h p = elim (Bool-cases (nat_beq c x)) [
  | inl same ↦ absurd (ground (arith, ap is_special ((nat_beq_iff c x).0 same), h, p))
  | inr other ↦ ground (arith, other, not_special v x h, p)
]

unquote_wrapped : (v : Bytes) → unquote_env (b'"' ∷ (escape v ++ (b'"' ∷ []))) ≡ v
unfolding unquote_env
unquote_wrapped v =
    rw (quoted-wrapped b'"' (escape v), init-append (escape v) b'"') (contract-escape v)

no_comment : (v : Bytes) → before_pair 32 b'#' v ≡ none → without_comment v ≡ v
no_comment v e = ap (λ o. elim o as (λ _. Bytes) [ none ↦ v | some p ↦ trim p ]) e

unquote_plain : (c : ℕ) (s : Bytes) → any is_special (c ∷ s) ≡ false → unquote_env (c ∷ s) ≡ c ∷ s
unfolding unquote_env any
unquote_plain c s h =
    let q = not_special (c ∷ s) b'"' refl h in
    let a = not_special (c ∷ s) 39 refl h in
    rw
      (
        not_quoted b'"' c s (ground (arith, q)),
        not_quoted 39 c s (ground (arith, a)),
        no_comment (c ∷ s) (before_pair-none 32 b'#' (c ∷ s) (not_special (c ∷ s) 32 refl h)),
      )
      refl

pub quote_not_space : is_space b'"' ≡ false
unfolding is_space
quote_not_space = refl

-- The value of a written line, trimmed and unquoted, is the value that was written, if that is quoted
-- or has no white space at its ends.
pub unquote_env-quote_dot_env :
    (v : Bytes) → IsReadable v → unquote_env (trim (quote_dot_env v)) ≡ v
unfolding quote_dot_env unquote_env trim trim_left_by trim_right_by before_pair
unquote_env-quote_dot_env [] h = refl
unquote_env-quote_dot_env (c ∷ s) h = elim (Bool-cases (any is_special (c ∷ s))) [
  | inl special ↦
      rw (special, trim-IsTrimmed _ (wrapped-IsTrimmed b'"' (escape (c ∷ s)) quote_not_space))
        (unquote_wrapped (c ∷ s))
  | inr plain ↦ rw (plain, trim-IsTrimmed (c ∷ s) (h plain)) (unquote_plain c s plain)
]
