-- ===== src/Prelude/Strings.antt =====
-- What the program takes from Go's package strings, on texts as code points.
use Prim.Native.Nat.{ℕ}
use mathlib.Core.Bool.{Bool, true, false, ◌||◌, ◌&&◌}
use mathlib.Core.Option.{Option, none, some}
use mathlib.Core.List.{List, [], ◌∷◌}
use cron_compose.Prelude.Tests.{if◌then◌else◌, nat_beq, leb}
use cron_compose.Prelude.Keys.{Bytes}

-- `unicode.IsSpace`.
unfoldable pub is_space : ℕ → Bool
is_space c =
    nat_beq c 32
    || (leb 9 c && leb c 13)
    || nat_beq c 133
    || nat_beq c 160
    || nat_beq c 5760
    || (leb 8192 c && leb c 8202)
    || nat_beq c 8232
    || nat_beq c 8233
    || nat_beq c 8239
    || nat_beq c 8287
    || nat_beq c 12288

module _ (q : ℕ → Bool) where
  unfoldable pub any : Bytes → Bool
  any [] = false
  any (c ∷ s) = q c || any s

  unfoldable pub trim_left_by : Bytes → Bytes
  trim_left_by [] = []
  trim_left_by (c ∷ s) = if q c then trim_left_by s else c ∷ s

  unfoldable pub cons_kept : ℕ → Bytes → Bytes
  cons_kept c [] = if q c then [] else c ∷ []
  cons_kept c (d ∷ s) = c ∷ d ∷ s

  unfoldable pub trim_right_by : Bytes → Bytes
  unfolding cons_kept
  trim_right_by [] = []
  trim_right_by (c ∷ s) = cons_kept c (trim_right_by s)

-- `TrimSpace`.
unfoldable pub trim : Bytes → Bytes
trim s = trim_right_by is_space (trim_left_by is_space s)

-- `strings.TrimPrefix`, `none` if `HasPrefix` is false.
unfoldable pub strip_prefix : Bytes → Bytes → Option Bytes
strip_prefix [] s = some s
strip_prefix (c ∷ p) [] = none
strip_prefix (c ∷ p) (d ∷ s) = if nat_beq c d then strip_prefix p s else none

unfoldable pub on_head : ℕ → List Bytes → List Bytes
on_head c [] = (c ∷ []) ∷ []
on_head c (s ∷ parts) = (c ∷ s) ∷ parts

-- `strings.Split` at one character.
unfoldable pub split : ℕ → Bytes → List Bytes
unfolding on_head
split sep [] = [] ∷ []
split sep (c ∷ s) = let parts = split sep s in if nat_beq c sep then [] ∷ parts else on_head c parts

unfoldable pub before_cut : ℕ → Option (Bytes × Bytes) → Option (Bytes × Bytes)
before_cut c none = none
before_cut c (some (k, v)) = some (c ∷ k, v)

-- `strings.Cut` at one character, `none` if it is not there.
unfoldable pub cut : ℕ → Bytes → Option (Bytes × Bytes)
unfolding before_cut
cut sep [] = none
cut sep (c ∷ s) = let rest = cut sep s in if nat_beq c sep then some ([], s) else before_cut c rest

-- `strings.ReplaceAll` of one character by two, and of two by one.
unfoldable pub expand : ℕ → ℕ → ℕ → Bytes → Bytes
expand old new1 new2 [] = []
expand old new1 new2 (c ∷ s) =
    let rest = expand old new1 new2 s in if nat_beq c old then new1 ∷ new2 ∷ rest else c ∷ rest

unfoldable pub contract : ℕ → ℕ → ℕ → Bytes → Bytes
contract old1 old2 new [] = []
contract old1 old2 new (c ∷ []) = c ∷ []
contract old1 old2 new (c ∷ d ∷ s) =
    let short = contract old1 old2 new s in
    let long = contract old1 old2 new (d ∷ s) in
    if nat_beq c old1 && nat_beq d old2 then new ∷ short else c ∷ long

-- What stands before the first of two characters in a row, `none` if they are not there.
unfoldable pub before_pair : ℕ → ℕ → Bytes → Option Bytes
before_pair a b [] = none
before_pair a b (c ∷ []) = none
before_pair a b (c ∷ d ∷ s) =
    let rest = before_pair a b (d ∷ s) in
    if nat_beq c a && nat_beq d b
    then some []
    else elim rest [ none ↦ none | some p ↦ some (c ∷ p) ]

-- The last character, `none` of the empty text.
unfoldable pub last : Bytes → Option ℕ
last [] = none
last (c ∷ s) = elim (last s) [ none ↦ some c | some d ↦ some d ]

-- All but the last character.
unfoldable pub init : Bytes → Bytes
init [] = []
init (c ∷ []) = []
init (c ∷ d ∷ s) = c ∷ init (d ∷ s)

-- Go's `<=` on strings.
unfoldable pub text_leb : Bytes → Bytes → Bool
text_leb [] t = true
text_leb (c ∷ s) [] = false
text_leb (c ∷ s) (d ∷ t) = if nat_beq c d then text_leb s t else leb c d

unfoldable pub insert_text : Bytes → List Bytes → List Bytes
insert_text s [] = s ∷ []
insert_text s (t ∷ ts) = if text_leb s t then s ∷ t ∷ ts else t ∷ insert_text s ts

-- `sort.Strings`.
unfoldable pub sort_texts : List Bytes → List Bytes
unfolding insert_text
sort_texts [] = []
sort_texts (s ∷ ss) = insert_text s (sort_texts ss)
