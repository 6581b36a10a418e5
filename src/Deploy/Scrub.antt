-- ===== src/Deploy/Scrub.antt =====
-- agent/internal/deploy/ansi.go: what is stripped from the output of an installer. Text is its bytes.
use cron_compose.Prelude.{
  ℕ, Bool, true, false, not, ◌||◌, ◌&&◌, [], ◌∷◌, Bytes, nat_eq, ◌==◌, if◌then◌else◌, leb, nat_beq,
}

abbrev esc : ℕ
esc = 27

-- Where the loop of `stripANSI` stands: in text, behind an escape, in a control sequence, in an
-- operating system command, or behind an escape there.
pub data Strip : Type 0 where
  text escaped csi osc osc_escaped : Strip

-- `unicode.IsLetter` of a byte taken as a code point.
unfoldable pub is_letter : ℕ → Bool
is_letter c =
    (leb b'A' c && leb c b'Z')
    || (leb b'a' c && leb c b'z')
    || nat_beq c 170
    || nat_beq c 181
    || nat_beq c 186
    || (leb 192 c && leb c 255 && not (nat_beq c 215 || nat_beq c 247))

unfoldable pub strip_step : ℕ → Strip → Strip
strip_step c text = if c == esc then escaped else text
strip_step c escaped = if c == b'[' then csi else (if c == b']' then osc else text)
strip_step c csi = if is_letter c || c == b'@' then text else csi
strip_step c osc = if c == 7 then text else (if c == esc then osc_escaped else osc)
strip_step c osc_escaped =
    if c == b'\\' then text else (if c == 7 then text else (if c == esc then osc_escaped else osc))

-- What is kept of a byte.
unfoldable pub kept : ℕ → Strip → Bytes → Bytes
kept c text rest = if c == esc then rest else c ∷ rest
kept c escaped rest = rest
kept c csi rest = rest
kept c osc rest = rest
kept c osc_escaped rest = rest

unfoldable pub strip_from : Strip → Bytes → Bytes
unfolding strip_step kept
strip_from m [] = []
strip_from m (c ∷ s) = kept c m (strip_from (strip_step c m) s)

unfoldable pub strip_ansi : Bytes → Bytes
unfolding strip_from
strip_ansi s = strip_from text s

unfoldable pub without_cr : Bytes → Bytes
without_cr [] = []
without_cr (c ∷ s) = let rest = without_cr s in if c == 13 then rest else c ∷ rest

-- The UTF-8 of white space, as the bytes that are still to come.
pub data Spacing : Type 0 where
  at_start c2 e1 e1_9a e2 e2_80 e2_81 e3 e3_80 no_space : Spacing

unfoldable pub spacing_step : ℕ → Spacing → Spacing
spacing_step c at_start =
    if (leb 9 c && leb c 13) || c == 32
    then at_start
    else (if c == 194
        then c2
        else (if c == 225
            then e1
            else (if c == 226 then e2 else (if c == 227 then e3 else no_space))))
spacing_step c c2 = if c == 133 || c == 160 then at_start else no_space
spacing_step c e1 = if c == 154 then e1_9a else no_space
spacing_step c e1_9a = if c == 128 then at_start else no_space
spacing_step c e2 = if c == 128 then e2_80 else (if c == 129 then e2_81 else no_space)
spacing_step c e2_80 =
    if (leb 128 c && leb c 138) || c == 168 || c == 169 || c == 175 then at_start else no_space
spacing_step c e2_81 = if c == 159 then at_start else no_space
spacing_step c e3 = if c == 128 then e3_80 else no_space
spacing_step c e3_80 = if c == 128 then at_start else no_space
spacing_step c no_space = no_space

unfoldable pub is_blank_from : Spacing → Bytes → Bool
unfolding spacing_step
is_blank_from at_start [] = true
is_blank_from _ [] = false
is_blank_from m (c ∷ s) = is_blank_from (spacing_step c m) s

-- `strings.TrimSpace(s) == ""`.
unfoldable pub is_blank : Bytes → Bool
unfolding is_blank_from
is_blank s = is_blank_from at_start s

-- The text from its first character on that is no white space; `best` is the rest behind the white
-- space so far.
unfoldable pub trim_left_from : Spacing → Bytes → Bytes → Bytes
unfolding spacing_step
trim_left_from at_start best [] = []
trim_left_from _ best [] = best
trim_left_from m best (c ∷ s) = elim (spacing_step c m) [
  | no_space ↦ best
  | at_start ↦ trim_left_from at_start s s
  | other ↦ trim_left_from other best s
]

unfoldable pub trim_right_bytes : Bytes → Bytes
trim_right_bytes [] = []
trim_right_bytes (c ∷ s) =
    let rest = c ∷ trim_right_bytes s in if is_blank (c ∷ s) then [] else rest

-- `strings.TrimSpace` on the bytes of a text.
unfoldable pub trim_bytes : Bytes → Bytes
unfolding trim_left_from trim_right_bytes
trim_bytes s = trim_right_bytes (trim_left_from at_start s s)

unfoldable pub spinner_only : Bytes → Bool
spinner_only [] = true
spinner_only (c ∷ s) =
    (c == b'|' || c == b'/' || c == b'-' || c == b'\\' || c == 32 || c == 9 || c == 10)
    && spinner_only s

unfoldable pub scrub_log : Bytes → Bytes
unfolding strip_ansi without_cr
scrub_log data' =
    let s = without_cr (strip_ansi data') in if is_blank s || spinner_only s then [] else s
