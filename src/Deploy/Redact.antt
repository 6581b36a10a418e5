-- ===== src/Deploy/Redact.antt =====
-- `redact` of agent/internal/deploy/giturl.go: a text that is logged does not have the token.
use cron_compose.Prelude.{
  ℕ, zero, suc, ◌-◌, ◌≡◌, ◌≢◌, refl, Bool, true, false, ◌||◌, ◌&&◌, [], ◌∷◌, ◌++◌, length, Bytes,
  nat_eq, bytes_eq, ◌==◌, if◌then◌else◌, nat_beq, arith, Bool-cases, inl, inr,
}
use cron_compose.Prelude.Strings.{any}

unfoldable pub starts_with : Bytes → Bytes → Bool
starts_with [] s = true
starts_with (c ∷ p) [] = false
starts_with (c ∷ p) (d ∷ s) = nat_beq c d && starts_with p s

-- `strings.Contains` for a text that is not empty.
unfoldable pub contains : Bytes → Bytes → Bool
contains p [] = starts_with p []
contains p (c ∷ s) = starts_with p (c ∷ s) || contains p s

-- `strings.ReplaceAll` for an old text that is not empty; the first argument counts the characters of
-- the last match that are still to be passed over.
unfoldable pub replace_from : ℕ → Bytes → Bytes → Bytes → Bytes
replace_from skip old new [] = []
replace_from (suc k) old new (c ∷ s) = replace_from k old new s
replace_from zero old new (c ∷ s) =
    let matched = new ++ replace_from (length old - 1) old new s in
    let rest = c ∷ replace_from zero old new s in if starts_with old (c ∷ s) then matched else rest

abbrev pub stars : Bytes
stars = b'*' ∷ b'*' ∷ b'*' ∷ []

unfoldable pub redact : Bytes → Bytes → Bytes
redact s token = if token == [] || s == [] then s else replace_from 0 token stars s

-- The character of the replacement.
abbrev pub is_star : ℕ → Bool
is_star c = nat_beq c b'*'

-- What begins the redacted text, and has no star, began the text.
starts_with-replace_from :
    (p token s : Bytes)
    → any is_star p ≡ false
    → starts_with p (replace_from 0 token stars s) ≡ true
    → starts_with p s ≡ true
unfolding starts_with replace_from any
starts_with-replace_from [] token s h e = refl
starts_with-replace_from (x ∷ p) token [] h e = e
starts_with-replace_from (x ∷ p) token (c ∷ s) h e =
    ground (arith, h, e, starts_with-replace_from p token s)

contains-replace_from :
    (k : ℕ) (x : ℕ) (token s : Bytes)
    → (nat_beq x b'*' || any is_star token) ≡ false
    → contains (x ∷ token) (replace_from k (x ∷ token) stars s) ≡ false
unfolding contains starts_with replace_from any
contains-replace_from k x token [] h = refl
contains-replace_from (suc k) x token (c ∷ s) h = contains-replace_from k x token s h
contains-replace_from zero x token (c ∷ s) h = elim (Bool-cases (starts_with (x ∷ token) (c ∷ s))) [
  | inl e ↦ rw e (ground (arith, h, contains-replace_from (suc (length token) - 1) x token s h))
  | inr e ↦ rw e (
      ground (
        arith,
        h,
        e,
        contains-replace_from zero x token s h,
        starts_with-replace_from token (x ∷ token) s,
      ))
]

-- A redacted text does not contain the token, if the token is not empty and has no star.
pub contains-redact :
    (s token : Bytes)
    → token ≢ []
    → any is_star token ≡ false
    → contains token (redact s token) ≡ false
unfolding redact contains starts_with any
contains-redact s [] n h = absurd (n refl)
contains-redact [] (x ∷ token) n h = refl
contains-redact (c ∷ s) (x ∷ token) n h = contains-replace_from 0 x token (c ∷ s) h
