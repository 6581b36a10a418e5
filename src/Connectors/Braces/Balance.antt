-- ===== src/Connectors/Braces/Balance.antt =====
-- `balancedBraces` of agent/internal/connectors/text.go accepts exactly the texts whose braces nest.
use cron_compose.Prelude.{
  ℕ, zero, suc, ◌+◌, ◌≤◌, ◌≡◌, ◌↔◌, refl, ap, ==_iff, Bool-cases, inl, inr, Bool, true, false, List,
  [], ◌∷◌, ◌++◌, Option, none, some, Bytes, nat_eq, ◌==◌, if◌then◌else◌, arith,
}
use cron_compose.Connectors.Braces.{
  BraceError, Mode, plain, comment, quoted, escaped, Scan, Next, stop, go, in_quotes, closes,
  outside, scan_step, at_end, scan, balanced_braces,
}

-- How the lexical mode goes on over a character.
unfoldable pub lex : Mode → ℕ → Mode
unfolding in_quotes
lex plain c =
    if c == b'\''
    then quoted c
    else (if c == b'"' then quoted c else (if c == b'#' then comment else plain))
lex comment c = if c == 10 then plain else comment
lex (quoted q) c =
    if c == 10
    then quoted q
    else (if c == b'\\' then escaped q else (if c == q then plain else quoted q))
lex (escaped q) c = quoted q

abbrev with_brace : Mode → ℕ → List Bool → List Bool
with_brace plain c bs = if c == b'{' then true ∷ bs else (if c == b'}' then false ∷ bs else bs)
with_brace comment c bs = bs
with_brace (quoted q) c bs = bs
with_brace (escaped q) c bs = bs

-- The braces outside of strings and comments; `true` opens.
unfoldable pub braces : Mode → Bytes → List Bool
braces m [] = []
braces m (c ∷ s) = with_brace m c (braces (lex m c) s)

abbrev is_quoted : Mode → Bool
is_quoted plain = false
is_quoted comment = false
is_quoted (quoted q) = true
is_quoted (escaped q) = true

-- Whether the text ends inside a string.
unfoldable pub ends_quoted : Mode → Bytes → Bool
ends_quoted m [] = is_quoted m
ends_quoted m (c ∷ s) = ends_quoted (lex m c) s

abbrev pub opening : List Bool → ℕ
opening [] = 0
opening (true ∷ bs) = suc (opening bs)
opening (false ∷ bs) = opening bs

abbrev pub closing : List Bool → ℕ
closing [] = 0
closing (true ∷ bs) = closing bs
closing (false ∷ bs) = suc (closing bs)

-- With `d` blocks open before: nowhere more closing braces than open blocks, and in all as many.
pub record Nests (d : ℕ) (bs : List Bool) : Type 0 where
  pub prefixes : (p q : List Bool) → bs ≡ p ++ q → closing p ≤ d + opening p
  pub total : closing bs ≡ d + opening bs

tail_of : List Bool → List Bool
tail_of [] = []
tail_of (b ∷ bs) = bs

tails : (a b : Bool) (xs ys : List Bool) → a ∷ xs ≡ b ∷ ys → xs ≡ ys
unfolding tail_of
tails a b xs ys e = ap tail_of e

Nests-nil : (d : ℕ) → (d ≡ 0) ↔ Nests d []
Nests-nil d = (λ e. record { prefixes = at_nil; total = omega arith }, λ n. omega (arith, n.total))
  where
    at_nil : (p q : List Bool) → [] ≡ p ++ q → closing p ≤ d + opening p
    at_nil [] q e = omega arith
    at_nil (b ∷ p) q e = cc

Nests-open : (d : ℕ) (bs : List Bool) → Nests (suc d) bs ↔ Nests d (true ∷ bs)
Nests-open d bs = (
  λ n. record { prefixes = opened n; total = omega (arith, n.total) },
  λ n. record {
    prefixes = λ p q e. omega (arith, n.prefixes (true ∷ p) q (ap (λ xs. true ∷ xs) e));
    total = omega (arith, n.total);
  },
)
  where
    opened : Nests (suc d) bs → (p q : List Bool) → true ∷ bs ≡ p ++ q → closing p ≤ d + opening p
    opened n [] q e = omega arith
    opened n (true ∷ p) q e = omega (arith, n.prefixes p q (tails true true bs (p ++ q) e))
    opened n (false ∷ p) q e = cc

Nests-close : (d : ℕ) (bs : List Bool) → Nests d bs ↔ Nests (suc d) (false ∷ bs)
Nests-close d bs = (
  λ n. record { prefixes = closed n; total = omega (arith, n.total) },
  λ n. record {
    prefixes = λ p q e. omega (arith, n.prefixes (false ∷ p) q (ap (λ xs. false ∷ xs) e));
    total = omega (arith, n.total);
  },
)
  where
    closed : Nests d bs → (p q : List Bool) → false ∷ bs ≡ p ++ q → closing p ≤ suc d + opening p
    closed n [] q e = omega arith
    closed n (false ∷ p) q e = omega (arith, n.prefixes p q (tails false false bs (p ++ q) e))
    closed n (true ∷ p) q e = cc

Nests-under : (bs : List Bool) → ¬ Nests 0 (false ∷ bs)
Nests-under bs n = omega (arith, n.prefixes (false ∷ []) bs refl)

-- What the text from here on has to satisfy.
abbrev Fits : ℕ → Mode → Bytes → Type 0
Fits d m s = (ends_quoted m s ≡ false) × Nests d (braces m s)

at_end-Fits : (d : ℕ) (m : Mode) → (at_end m d ≡ none) ↔ Fits d m []
unfolding braces ends_quoted
at_end-Fits zero plain = (λ e. (refl, (Nests-nil 0).0 refl), λ f. refl)
at_end-Fits (suc d) plain = (λ e. cc, λ f. absurd (omega (arith, (Nests-nil (suc d)).1 f.1)))
at_end-Fits zero comment = (λ e. (refl, (Nests-nil 0).0 refl), λ f. refl)
at_end-Fits (suc d) comment = (λ e. cc, λ f. absurd (omega (arith, (Nests-nil (suc d)).1 f.1)))
at_end-Fits d (quoted q) = (λ e. cc, λ f. ground (arith, f.0))
at_end-Fits d (escaped q) = (λ e. cc, λ f. ground (arith, f.0))

same : {A : Type 0} → A ↔ A
same = (λ a. a, λ a. a)

onto : {A B C : Type 0} → (B ↔ C) → (A × B) ↔ (A × C)
onto h = (λ p. (p.0, h.0 p.1), λ p. (p.0, h.1 p.1))

-- What the rest of the text has to satisfy after one round.
abbrev FitsNext : Next → Bytes → Type 0
FitsNext (stop e) s = ⊥
FitsNext (go st) s = Fits st.depth st.mode s

closing_brace :
    (d n : ℕ) (s : Bytes)
    → FitsNext (closes (record { depth = d; line = n; mode = plain }) d) s
      ↔ (ends_quoted plain s ≡ false) × Nests d (false ∷ braces plain s)
closing_brace zero n s = (λ e. absurd e, λ f. Nests-under (braces plain s) f.1)
closing_brace (suc d) n s = onto (Nests-close d (braces plain s))

plain_step :
    (c : ℕ) (s : Bytes) (d n : ℕ)
    → FitsNext (scan_step c (record { depth = d; line = n; mode = plain })) s ↔ Fits d plain (c ∷ s)
unfolding scan_step outside ends_quoted braces lex
plain_step c s d n = elim (Bool-cases (c == 10)) [
  | inl e ↦ let e' : c ≡ 10 = (==_iff c 10).0 e in rw e' same
  | inr e1 ↦ elim (Bool-cases (c == b'\'')) [
    | inl e ↦ let e' : c ≡ b'\'' = (==_iff c b'\'').0 e in rw e' same
    | inr e2 ↦ elim (Bool-cases (c == b'"')) [
      | inl e ↦ let e' : c ≡ b'"' = (==_iff c b'"').0 e in rw e' same
      | inr e3 ↦ elim (Bool-cases (c == b'#')) [
        | inl e ↦ let e' : c ≡ b'#' = (==_iff c b'#').0 e in rw e' same
        | inr e4 ↦ elim (Bool-cases (c == b'{')) [
          | inl e ↦
              let e' : c ≡ b'{' = (==_iff c b'{').0 e in
              rw e' (onto (Nests-open d (braces plain s)))
          | inr e5 ↦ elim (Bool-cases (c == b'}')) [
            | inl e ↦ let e' : c ≡ b'}' = (==_iff c b'}').0 e in rw e' (closing_brace d n s)
            | inr e6 ↦ rw (e1, e2, e3, e4, e5, e6) same
          ]
        ]
      ]
    ]
  ]
]

other_step :
    (m : Mode) (c : ℕ) (s : Bytes) (d n : ℕ)
    → FitsNext (scan_step c (record { depth = d; line = n; mode = m })) s ↔ Fits d m (c ∷ s)
unfolding scan_step ends_quoted braces lex
other_step plain c s d n = plain_step c s d n
other_step comment c s d n = elim (Bool-cases (c == 10)) [ inl e ↦ rw e same | inr e ↦ rw e same ]
other_step (quoted q) c s d n = elim (Bool-cases (c == 10)) [
  | inl e ↦ rw e same
  | inr e ↦ rw e same
]
other_step (escaped q) c s d n = elim (Bool-cases (c == 10)) [
  | inl e ↦ rw e same
  | inr e ↦ rw e same
]

scan-Fits : (s : Bytes) (st : Scan) → (scan s st ≡ none) ↔ Fits st.depth st.mode s
unfolding scan
scan-Fits [] st = at_end-Fits st.depth st.mode
scan-Fits (c ∷ s) st =
    by_next (scan-Fits s) (scan_step c st) (other_step st.mode c s st.depth st.line)
  where
    by_next :
        ((st' : Scan) → (scan s st' ≡ none) ↔ Fits st'.depth st'.mode s)
        → (o : Next) → FitsNext o s ↔ Fits st.depth st.mode (c ∷ s)
        → (elim o as (λ _. Option BraceError) [ stop e ↦ some e | go st' ↦ scan s st' ] ≡ none)
          ↔ Fits st.depth st.mode (c ∷ s)
    by_next ih (stop e) h = (λ n. cc, λ f. absurd (h.1 f))
    by_next ih (go st') h = (λ n. h.0 ((ih st').0 n), λ f. (ih st').1 (h.1 f))

-- A text is accepted exactly if it does not end inside a quoted string, and of its braces outside of
-- strings and comments no beginning has more closing than opening ones, and all of them as many
-- closing as opening ones.
pub balanced_braces_lem :
    (s : Bytes)
    → (balanced_braces s ≡ none) ↔ (ends_quoted plain s ≡ false) × Nests 0 (braces plain s)
unfolding balanced_braces
balanced_braces_lem s = scan-Fits s (record { depth = 0; line = 1; mode = plain })
