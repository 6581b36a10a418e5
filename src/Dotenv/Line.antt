-- ===== src/Dotenv/Line.antt =====
-- One line of a `.env` file: `parseDotEnv` of agent/internal/deploy/dotenv.go on a line that
-- `writeDotEnvFile` writes.
use cron_compose.Prelude.{
  bytes_eq, ◌==◌, ◌≡◌, refl, true, false, [], ◌∷◌, ◌++◌, none, some, Bytes, nat_beq, arith,
  Bool-cases, inl, inr,
}
use cron_compose.Prelude.Text.{codes}
use cron_compose.Prelude.Strings.{
  is_space, any, trim, trim_left_by, trim_right_by, strip_prefix, cut,
}
use cron_compose.Dotenv.Trim.{
  IsTrimmed, trim-IsTrimmed, trim_left_by-cons, trim_right_by-append, trim_right_by-one,
  trim_right_by-cons, trim_right_by-none, spaceless-IsTrimmed, cut-first, strip_prefix-none,
}
use cron_compose.Dotenv.Quote.{
  IsReadable, wrapped-IsTrimmed, not_special, quote_not_space, unquote_env-quote_dot_env,
}
use cron_compose.Dotenv.{
  is_cr, is_special, quote_dot_env, escape, exported, named, assignment, parse_line,
}

-- A name that is read back as it was written.
pub record IsName (k : Bytes) : Type 0 where
  pub present : (k == []) ≡ false
  pub spaceless : any is_space k ≡ false
  pub no_equals : any (λ c. nat_beq c b'=') k ≡ false
  pub no_comment : strip_prefix (codes "#") k ≡ none

equals_not_space : is_space b'=' ≡ false
unfolding is_space
equals_not_space = refl

quote_dot_env-IsTrimmed : (v : Bytes) → IsReadable v → IsTrimmed (quote_dot_env v)
unfolding quote_dot_env any
quote_dot_env-IsTrimmed [] h = h refl
quote_dot_env-IsTrimmed (c ∷ s) h = elim (Bool-cases (any is_special (c ∷ s))) [
  | inl special ↦ rw special (wrapped-IsTrimmed b'"' (escape (c ∷ s)) quote_not_space)
  | inr plain ↦ rw plain (h plain)
]

quote_dot_env-keeps_cr : (v : Bytes) → trim_right_by is_cr (quote_dot_env v) ≡ quote_dot_env v
unfolding quote_dot_env trim_right_by
quote_dot_env-keeps_cr [] = refl
quote_dot_env-keeps_cr (c ∷ s) = elim (Bool-cases (any is_special (c ∷ s))) [
  | inl special ↦ rw special (
      trim_right_by-append is_cr (b'"' ∷ escape (c ∷ s)) b'"' []
        (trim_right_by-one is_cr b'"' refl))
  | inr plain ↦ rw plain (trim_right_by-none is_cr (c ∷ s) (not_special (c ∷ s) 13 refl plain))
]

export_has_space : any is_space (codes "export ") ≡ true
unfolding any is_space
export_has_space = refl

export_has_no_equals : any (λ c. nat_beq c b'=') (codes "export ") ≡ false
unfolding any
export_has_no_equals = refl

no_export : (l : Bytes) → strip_prefix (codes "export ") l ≡ none → exported l l ≡ l
unfolding exported
no_export l x = rw (x, exported) refl

plain_assignment :
    (l : Bytes)
    → trim l ≡ l
    → (l == []) ≡ false
    → strip_prefix (codes "#") l ≡ none
    → strip_prefix (codes "export ") l ≡ none
    → assignment l ≡ named (cut b'=' l)
unfolding assignment
plain_assignment l t p n x = rw (t, p, n, no_export l x) refl

module _ (k v : Bytes) (name : IsName k) (value : IsReadable v) where
  abbrev pub line : Bytes
  line = k ++ (b'=' ∷ quote_dot_env v)

  line_keeps_cr : trim_right_by is_cr line ≡ line
  line_keeps_cr =
      trim_right_by-append is_cr k b'=' (quote_dot_env v)
        (trim_right_by-cons is_cr b'=' (quote_dot_env v) refl (quote_dot_env-keeps_cr v))

  line_left : trim_left_by is_space line ≡ line
  unfolding any
  line_left = by_name k name.present name.spaceless
    where
      by_name :
          (k : Bytes)
          → (k == []) ≡ false
          → any is_space k ≡ false
          → trim_left_by is_space (k ++ (b'=' ∷ quote_dot_env v)) ≡ k ++ (b'=' ∷ quote_dot_env v)
      by_name [] p s = ground (arith, p)
      by_name (c ∷ k) p s = trim_left_by-cons is_space c _ (ground (arith, s))

  line-IsTrimmed : IsTrimmed line
  line-IsTrimmed = record {
    left = line_left;
    right = trim_right_by-append is_space k b'=' (quote_dot_env v) (
        trim_right_by-cons is_space b'=' (quote_dot_env v) equals_not_space
          (quote_dot_env-IsTrimmed v value).right);
  }

  line_present : (line == []) ≡ false
  line_present = by_name k
    where
      by_name : (k : Bytes) → ((k ++ (b'=' ∷ quote_dot_env v)) == []) ≡ false
      by_name [] = refl
      by_name (c ∷ k) = refl

  line_no_comment : strip_prefix (codes "#") line ≡ none
  unfolding strip_prefix
  line_no_comment = by_name k name.present name.no_comment
    where
      by_name :
          (k : Bytes)
          → (k == []) ≡ false
          → strip_prefix (codes "#") k ≡ none
          → strip_prefix (codes "#") (k ++ (b'=' ∷ quote_dot_env v)) ≡ none
      by_name [] p n = ground (arith, p)
      by_name (c ∷ k) p n = ground (arith, n)

  named_lem : named (some (k, quote_dot_env v)) ≡ some (k, v)
  unfolding named
  named_lem =
      rw
        (
          trim-IsTrimmed k (spaceless-IsTrimmed k name.spaceless),
          name.present,
          unquote_env-quote_dot_env v value,
        )
        refl

  -- A written line is read as the assignment that was written.
  pub parse_line_lem : parse_line line ≡ some (k, v)
  unfolding parse_line
  parse_line_lem =
      rw
        (
          line_keeps_cr,
          plain_assignment line (trim-IsTrimmed line line-IsTrimmed) line_present line_no_comment (
              strip_prefix-none (codes "export ") k (quote_dot_env v) export_has_space
                export_has_no_equals name.spaceless),
          cut-first b'=' k (quote_dot_env v) name.no_equals,
        )
        named_lem
