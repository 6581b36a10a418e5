-- ===== src/Connectors/Braces.antt =====
-- `balancedBraces` of agent/internal/connectors/text.go: the check of a fragment of configuration that
-- the tool itself cannot check. Text is its bytes.
pub mod Balance
use cron_compose.Prelude.{
  ℕ, zero, suc, ◌+◌, Bool, true, false, List, [], ◌∷◌, Option, none, some, Bytes, nat_eq, ◌==◌,
  if◌then◌else◌,
}

-- `unexpected` has the line and `unclosed` the number of blocks.
pub data BraceError : Type 0 where
  unexpected : ℕ → BraceError
  unterminated : BraceError
  unclosed : ℕ → BraceError

-- Where the loop stands: outside, in a comment, in a quoted string with its quote, or behind a
-- backslash there.
pub data Mode : Type 0 where
  plain comment : Mode
  quoted escaped : ℕ → Mode

pub record Scan : Type 0 where
  pub depth : ℕ
  pub line : ℕ
  pub mode : Mode

pub data Next : Type 0 where
  stop : BraceError → Next
  go : Scan → Next

-- A character of a quoted string.
unfoldable pub in_quotes : ℕ → ℕ → Mode
in_quotes q c = if c == b'\\' then escaped q else (if c == q then plain else quoted q)

abbrev closes : Scan → ℕ → Next
closes st zero = stop (unexpected st.line)
closes st (suc d) = go (record st { depth = d })

-- A character outside of strings and comments.
unfoldable pub outside : ℕ → Scan → Next
outside c st =
    if c == b'\''
    then go (record st { mode = quoted c })
    else (if c == b'"'
        then go (record st { mode = quoted c })
        else (if c == b'#'
            then go (record st { mode = comment })
            else (if c == b'{'
                then go (record st { depth = suc st.depth })
                else (if c == b'}' then closes st st.depth else go st))))

abbrev after_newline : Mode → Mode
after_newline comment = plain
after_newline plain = plain
after_newline (quoted q) = quoted q
after_newline (escaped q) = quoted q

-- The character behind a backslash is passed over, also where it ends a line.
abbrev line_after : Mode → ℕ → ℕ
line_after (escaped q) n = n
line_after (quoted q) n = n + 1
line_after comment n = n + 1
line_after plain n = n + 1

abbrev in_mode : Mode → ℕ → Scan → Next
in_mode plain c st = outside c st
in_mode comment c st = go st
in_mode (quoted q) c st = go (record st { mode = in_quotes q c })
in_mode (escaped q) c st = go (record st { mode = quoted q })

-- One round of the loop.
unfoldable pub scan_step : ℕ → Scan → Next
unfolding outside in_quotes
scan_step c st =
    if c == 10
    then go (record st { line = line_after st.mode st.line; mode = after_newline st.mode })
    else in_mode st.mode c st

abbrev unclosed_at : ℕ → Option BraceError
unclosed_at zero = none
unclosed_at (suc d) = some (unclosed (suc d))

-- What is said at the end of the text.
abbrev at_end : Mode → ℕ → Option BraceError
at_end (quoted q) d = some unterminated
at_end (escaped q) d = some unterminated
at_end plain d = unclosed_at d
at_end comment d = unclosed_at d

unfoldable pub scan : Bytes → Scan → Option BraceError
unfolding scan_step
scan [] st = at_end st.mode st.depth
scan (c ∷ s) st = elim (scan_step c st) [ stop e ↦ some e | go st' ↦ scan s st' ]

unfoldable pub balanced_braces : Bytes → Option BraceError
unfolding scan
balanced_braces s = scan s (record { depth = 0; line = 1; mode = plain })
