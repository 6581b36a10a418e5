-- ===== src/Dotenv/RoundTrip.antt =====
-- `parseDotEnv` reads back what `writeDotEnvFile` writes: agent/internal/deploy/dotenv.go.
use cron_compose.Prelude.{
  ℕ, bytes_eq, ◌==◌, ==_iff, ◌≡◌, refl, sym, ap, subst, ◌∙◌, Bool, true, false, List, [], ◌∷◌, ◌++◌,
  none, some, if◌then◌else◌, Bytes, nat_beq, arith, Bool-cases, inl, inr, All,
}
use cron_compose.Prelude.Map.{get, put, get-put}
use cron_compose.Prelude.Strings.{
  is_space, any, trim, trim_left_by, trim_right_by, cons_kept, strip_prefix, split, expand,
  sort_texts, insert_text,
}
use cron_compose.Dotenv.Trim.{trim-IsTrimmed, spaceless-IsTrimmed, any-append, split-line}
use cron_compose.Dotenv.Quote.{IsReadable}
use cron_compose.Dotenv.Line.{IsName, line, parse_line_lem}
use cron_compose.Dotenv.{
  is_special, escape, quote_dot_env, parse_line, assignment, set_line, parse_lines, parse_dot_env,
  written_keys, value_of, write_lines, heading, content_of, dot_env_content,
}

abbrev pub is_newline : ℕ → Bool
is_newline c = nat_beq c 10

-- A value that fits on one line and is read back as it was written.
abbrev pub IsWritable : Bytes → Type 0
IsWritable v = (any is_newline v ≡ false) × IsReadable v

abbrev pub elem : Bytes → List Bytes → Bool
elem k [] = false
elem k (j ∷ ks) = if j == k then true else elem k ks

abbrev pub keys : List (Bytes × Bytes) → List Bytes
keys [] = []
keys ((k, v) ∷ env) = k ∷ keys env

spaceless_no_newline : (k : Bytes) → any is_space k ≡ false → any is_newline k ≡ false
unfolding any is_space
spaceless_no_newline [] h = refl
spaceless_no_newline (c ∷ k) h = ground (arith, h, spaceless_no_newline k)

any-expand :
    (a b : ℕ) (s : Bytes)
    → is_newline b ≡ false
    → is_newline a ≡ false
    → any is_newline s ≡ false
    → any is_newline (expand a b a s) ≡ false
unfolding any expand
any-expand a b [] hb ha h = refl
any-expand a b (c ∷ s) hb ha h = ground (arith, hb, ha, h, any-expand a b s)

any-quote_dot_env :
    (v : Bytes) → any is_newline v ≡ false → any is_newline (quote_dot_env v) ≡ false
unfolding quote_dot_env any
any-quote_dot_env [] h = refl
any-quote_dot_env (c ∷ s) h = elim (Bool-cases (any is_special (c ∷ s))) [
  | inl special ↦
      rw (special, any-append is_newline (escape (c ∷ s)) (b'"' ∷ []))
        (ground (
          arith,
          any-expand b'"' 92 (expand 92 92 92 (c ∷ s)) refl refl
              (any-expand 92 92 (c ∷ s) refl refl h),
        ))
  | inr plain ↦ rw plain h
]

module _ (k v : Bytes) (name : IsName k) (value : IsWritable v) where
  line_no_newline : any is_newline (line k v name value.1) ≡ false
  unfolding any
  line_no_newline =
      rw (any-append is_newline k (b'=' ∷ quote_dot_env v), spaceless_no_newline k name.spaceless)
        (any-quote_dot_env v value.0)

elem-insert : (k s : Bytes) (ts : List Bytes) → elem k (insert_text s ts) ≡ elem k (s ∷ ts)
unfolding insert_text
elem-insert k s [] = refl
elem-insert k s (t ∷ ts) = ground (arith, elem-insert k s ts)

elem-sort : (k : Bytes) (ss : List Bytes) → elem k (sort_texts ss) ≡ elem k ss
unfolding sort_texts
elem-sort k [] = refl
elem-sort k (s ∷ ss) = elem-insert k s (sort_texts ss) ∙ ground (arith, elem-sort k ss)

empty_line : parse_line [] ≡ none
unfolding parse_line assignment trim trim_left_by trim_right_by
empty_line = refl

heading_line : parse_line heading ≡ none
unfolding parse_line assignment trim trim_left_by trim_right_by cons_kept strip_prefix is_space
heading_line = refl

parse_lines_set :
    (l : Bytes) (ls : List Bytes) (k v : Bytes) (out : List (Bytes × Bytes))
    → parse_line l ≡ some (k, v)
    → parse_lines (l ∷ ls) out ≡ parse_lines ls (put k v out)
unfolding parse_lines set_line
parse_lines_set l ls k v out e = ap (λ o. parse_lines ls (set_line o out)) e

nothing :
    (out : List (Bytes × Bytes)) (key : Bytes)
    → get key (parse_lines (split 10 []) out) ≡ get key out
unfolding parse_lines set_line split
nothing out key = ap (λ o. get key (set_line o out)) empty_line

parse_lines_skip :
    (l : Bytes) (ls : List Bytes) (out : List (Bytes × Bytes))
    → parse_line l ≡ none
    → parse_lines (l ∷ ls) out ≡ parse_lines ls out
unfolding parse_lines set_line
parse_lines_skip l ls out e = ap (λ o. parse_lines ls (set_line o out)) e

heading_no_newline : any is_newline heading ≡ false
unfolding any
heading_no_newline = refl

module _ (env : List (Bytes × Bytes)) where
  get-write_lines :
      (ks : List Bytes) (out : List (Bytes × Bytes)) (key : Bytes)
      → ((k : Bytes) → elem k ks ≡ true → IsName k × IsWritable (value_of k env))
      → get key (parse_lines (split 10 (write_lines env ks)) out)
        ≡ (if elem key ks then some (value_of key env) else get key out)
  unfolding write_lines
  get-write_lines [] out key safe = nothing out key
  get-write_lines (k ∷ ks) out key safe =
      let v = value_of k env in
      let (name, value) = safe k (ground (arith, ==_iff k k)) in
      rw
        (
          split-line 10 (k ++ (b'=' ∷ quote_dot_env v)) (write_lines env ks)
              (line_no_newline k v name value),
          parse_lines_set (k ++ (b'=' ∷ quote_dot_env v)) (split 10 (write_lines env ks)) k v out
              (parse_line_lem k v name value.1),
        )
        (ground (
          arith,
          get-write_lines ks (put k v out) key λ j e. safe j (ground (arith, e)),
          get-put k key v out,
          ==_iff k key,
        ))

  reads :
      (ks : List Bytes) (key : Bytes)
      → ((k : Bytes) → elem k ks ≡ true → IsName k × IsWritable (value_of k env))
      → get key (parse_dot_env (heading ++ (10 ∷ write_lines env ks)))
        ≡ (if elem key ks then some (value_of key env) else none)
  unfolding parse_dot_env get
  reads ks key safe =
      rw
        (
          split-line 10 heading (write_lines env ks) heading_no_newline,
          parse_lines_skip heading (split 10 (write_lines env ks)) [] heading_line,
        )
        (get-write_lines ks [] key safe)

-- Names and values that are read back.
abbrev pub IsPlain : Bytes × Bytes → Type 0
IsPlain (k, v) = IsName k × IsWritable v

written_keys_lem : (env : List (Bytes × Bytes)) → All IsPlain env → written_keys env ≡ keys env
unfolding written_keys
written_keys_lem [] h = refl
written_keys_lem ((k, v) ∷ env) ((name, value), h) =
    rw
      (
        trim-IsTrimmed k (spaceless-IsTrimmed k name.spaceless),
        name.present,
        written_keys_lem env h,
      )
      refl

get-keys :
    (k : Bytes) (env : List (Bytes × Bytes))
    → get k env ≡ (if elem k (keys env) then some (value_of k env) else none)
unfolding get
get-keys k [] = refl
get-keys k ((j, v) ∷ env) = ground (arith, get-keys k env)

value_here :
    (j k v : Bytes) (env : List (Bytes × Bytes)) → (j == k) ≡ true → v ≡ value_of k ((j, v) ∷ env)
unfolding get
value_here j k v env same = ground (arith, same)

value_later :
    (j k v : Bytes) (env : List (Bytes × Bytes))
    → (j == k) ≡ false
    → value_of k env ≡ value_of k ((j, v) ∷ env)
unfolding get
value_later j k v env other = ground (arith, other)

plain_at :
    (k : Bytes) (env : List (Bytes × Bytes))
    → All IsPlain env
    → elem k (keys env) ≡ true
    → IsName k × IsWritable (value_of k env)
plain_at k [] h e = ground (arith, e)
plain_at k ((j, v) ∷ env) (p, h) e = elim (Bool-cases (j == k)) [
  | inl same ↦
      subst (λ x. IsName k × IsWritable x) (value_here j k v env same)
        (subst (λ x. IsName x × IsWritable v) ((==_iff j k).0 same) p)
  | inr other ↦
      subst (λ x. IsName k × IsWritable x) (value_later j k v env other)
        (plain_at k env h (ground (arith, e, other)))
]

-- `writeDotEnvFile` on variables with names without white space and `=`, not like comments, and with
-- values without line breaks, which are quoted or have no white space at their ends, writes a file
-- unless there are none, and `parseDotEnv` reads from it these variables and no others.
pub parse_dot_env-content :
    (e : Bytes × Bytes) (env : List (Bytes × Bytes))
    → All IsPlain (e ∷ env)
    → (content : Bytes) × (dot_env_content (e ∷ env) ≡ some content)
      × ((k : Bytes) → get k (parse_dot_env content) ≡ get k (e ∷ env))
unfolding dot_env_content content_of
parse_dot_env-content e env h =
    let all = e ∷ env in
    let sorted = sort_texts (keys all) in
    (
      heading ++ (10 ∷ write_lines all sorted),
      rw (written_keys_lem all h) refl,
      λ k.
          reads all sorted k (λ j m. plain_at j all h (sym (elem-sort j (keys all)) ∙ m))
          ∙ (ap (λ b. if b then some (value_of k all) else none) (elem-sort k (keys all))
              ∙ sym (get-keys k all)),
    )
