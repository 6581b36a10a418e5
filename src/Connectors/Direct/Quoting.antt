-- ===== src/Connectors/Direct/Quoting.antt =====
-- `shellJoin` of agent/internal/connectors/exec.go against the way in which a POSIX shell cuts a
-- command into words.
use cron_compose.Prelude.{
  ℕ, Bool, ◌||◌, ◌&&◌, leb, ◌≡◌, refl, ◌∙◌, ap, List, [], ◌∷◌, ◌++◌, append_assoc, append-nil,
  Option, none, some, Bytes, nat_eq, ◌==◌, ==_iff, if◌then◌else◌, Bool-cases, inl, inr,
}
use cron_compose.Connectors.Direct.{escape_quotes, shell_quote, shell_args, shell_join}

-- Where the shell stands: outside of quotes, in single quotes, or behind a backslash.
pub data Lexing : Type 0 where
  outside single backslash : Lexing

-- The word that is being read with one more character, and the words before the rest.
abbrev pub add_char : Option Bytes → ℕ → Option Bytes
add_char none c = some (c ∷ [])
add_char (some w) c = some (w ++ c ∷ [])

abbrev pub started : Option Bytes → Option Bytes
started none = some []
started (some w) = some w

abbrev pub before : Option Bytes → Option (List Bytes) → Option (List Bytes)
before w none = none
before none (some ws) = some ws
before (some w) (some ws) = some (w ∷ ws)

-- The characters that mean themselves outside of quotes. All others, such as ; & | $ ` ( < # * ? ~ = and
-- the line break, are or can be operators, expansions, comments or patterns.
unfoldable pub is_plain : ℕ → Bool
is_plain c =
    (leb b'a' c && leb c b'z')
    || (leb b'A' c && leb c b'Z')
    || (leb b'0' c && leb c b'9')
    || c == b'_'
    || c == b'-'
    || c == b'.'
    || c == b'/'
    || c == b':'
    || c == b','

-- The words of a command of nothing but words; `none` if something outside of quotes is not to be taken
-- as it stands, if a quote is open at the end, or if a backslash hides the end of a line.
unfoldable pub shell_words : Lexing → Option Bytes → Bytes → Option (List Bytes)
unfolding is_plain
shell_words outside w [] = before w (some [])
shell_words single w [] = none
shell_words backslash w [] = none
shell_words single w (c ∷ s) =
    let rest = shell_words single (add_char w c) s in
    let closed = shell_words outside w s in if c == b'\'' then closed else rest
shell_words backslash w (c ∷ s) =
    let rest = shell_words outside (add_char w c) s in if c == b'\n' then none else rest
shell_words outside w (c ∷ s) =
    let quoted = shell_words single (started w) s in
    let escaped = shell_words backslash w s in
    let next = before w (shell_words outside none s) in
    let rest = shell_words outside (add_char w c) s in
    if c == b'\''
    then quoted
    else (if c == b'\\'
        then escaped
        else (if c == 32 then next else (if is_plain c then rest else none)))

single-escape_quotes :
    (s w rest : Bytes)
    → shell_words single (some w) (escape_quotes s ++ b'\'' ∷ rest)
      ≡ shell_words outside (some (w ++ s)) rest
unfolding shell_words escape_quotes
single-escape_quotes [] w rest = rw append-nil refl
single-escape_quotes (c ∷ s) w rest = elim (Bool-cases (c == b'\'')) [
  | inl e ↦
      let e' : c ≡ b'\'' = (==_iff c b'\'').0 e in
      rw e' (
        single-escape_quotes s (w ++ b'\'' ∷ []) rest
        ∙ ap (λ v. shell_words outside (some v) rest) (append_assoc w (b'\'' ∷ []) s))
  | inr e ↦
      rw (e, e)
        (single-escape_quotes s (w ++ c ∷ []) rest
          ∙ ap (λ v. shell_words outside (some v) rest) (append_assoc w (c ∷ []) s))
]

outside-shell_args :
    (args : List Bytes) (w : Bytes)
    → shell_words outside (some w) (shell_args args) ≡ some (w ∷ args)
unfolding shell_words shell_args shell_quote
outside-shell_args [] w = refl
outside-shell_args (a ∷ args) w =
    rw (append_assoc (escape_quotes a) (b'\'' ∷ []) (shell_args args)) (
      ap (before (some w))
        (single-escape_quotes a [] (shell_args args) ∙ outside-shell_args args a))

-- A shell reads what shellJoin gives as the name and each argument, one word each, whatever characters
-- they have: nothing in them is left outside of quotes as an operator, an expansion or a pattern.
pub shell_words-shell_join :
    (name : Bytes) (args : List Bytes)
    → shell_words outside none (shell_join name args) ≡ some (name ∷ args)
unfolding shell_words shell_join shell_quote
shell_words-shell_join name args =
    rw (append_assoc (escape_quotes name) (b'\'' ∷ []) (shell_args args))
      (single-escape_quotes name [] (shell_args args) ∙ outside-shell_args args name)
