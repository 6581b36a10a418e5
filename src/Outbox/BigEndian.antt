-- ===== src/Outbox/BigEndian.antt =====
-- The outbox keys of agent/internal/outbox/outbox.go: `binary.BigEndian.PutUint64` and `Uint64`,
-- and the byte order in which the bucket's cursor walks them.
use cron_compose.Prelude.{
  ℕ, zero, suc, ◌+◌, ◌*◌, ◌/◌, ◌%◌, ◌^◌, ◌<◌, ◌≡◌, refl, sym, ◌∙◌, Bool, true, false, ◌&&◌, ◌||◌,
  [], ◌∷◌, ◌++◌, length, length-append, arith, ltb, nat_beq, Bytes, bytes_beq,
}
use native.Mathlib.Nat.{pow-suc}

-- `binary.BigEndian` at a width of `w` bytes, the most significant byte first.
unfoldable pub be_bytes : ℕ → ℕ → Bytes
be_bytes zero n = []
be_bytes (suc w) n = be_bytes w (n / 256) ++ (n % 256) ∷ []

abbrev be_value_from : ℕ → Bytes → ℕ
be_value_from acc [] = acc
be_value_from acc (b ∷ bs) = be_value_from (acc * 256 + b) bs

unfoldable pub be_value : Bytes → ℕ
be_value bs = be_value_from 0 bs

-- `bytes.Compare(a, b) < 0`, the order of the cursor.
unfoldable pub bytes_ltb : Bytes → Bytes → Bool
bytes_ltb [] [] = false
bytes_ltb [] (y ∷ ys) = true
bytes_ltb (x ∷ xs) [] = false
bytes_ltb (x ∷ xs) (y ∷ ys) = ltb x y || (nat_beq x y && bytes_ltb xs ys)

be_value_from-append :
    (acc : ℕ) (xs : Bytes) (b : ℕ)
    → be_value_from acc (xs ++ b ∷ []) ≡ be_value_from acc xs * 256 + b
be_value_from-append acc [] b = refl
be_value_from-append acc (x ∷ xs) b = be_value_from-append (acc * 256 + x) xs b

be_value-be_bytes_below : (w n : ℕ) → n < 256 ^ w → be_value_from 0 (be_bytes w n) ≡ n
unfolding be_bytes
be_value-be_bytes_below zero n h = omega arith
be_value-be_bytes_below (suc w) n h =
    be_value_from-append 0 (be_bytes w (n / 256)) (n % 256)
    ∙ omega (arith, be_value-be_bytes_below w (n / 256) (omega (arith, pow-suc 256 w)))

-- What was written as a key is read back from it.
pub be_value-be_bytes : (w n : ℕ) → n < 256 ^ w → be_value (be_bytes w n) ≡ n
unfolding be_value
be_value-be_bytes w n h = be_value-be_bytes_below w n h

length-be_bytes : (w n : ℕ) → length (be_bytes w n) ≡ w
unfolding be_bytes
length-be_bytes zero n = refl
length-be_bytes (suc w) n =
    omega
      (arith, length-append (be_bytes w (n / 256)) ((n % 256) ∷ []), length-be_bytes w (n / 256))

-- Texts of one length are compared by what stands before the last byte, then by that byte.
bytes_ltb-append :
    (xs ys : Bytes) (a b : ℕ)
    → length xs ≡ length ys
    → bytes_ltb (xs ++ a ∷ []) (ys ++ b ∷ []) ≡ (bytes_ltb xs ys || (bytes_beq xs ys && ltb a b))
unfolding bytes_ltb
bytes_ltb-append [] [] a b h = ground arith
bytes_ltb-append [] (y ∷ ys) a b h = absurd (omega arith)
bytes_ltb-append (x ∷ xs) [] a b h = absurd (omega arith)
bytes_ltb-append (x ∷ xs) (y ∷ ys) a b h = ground (arith, bytes_ltb-append xs ys a b (omega arith))

bytes_beq-append :
    (xs ys : Bytes) (a b : ℕ)
    → length xs ≡ length ys
    → bytes_beq (xs ++ a ∷ []) (ys ++ b ∷ []) ≡ (bytes_beq xs ys && nat_beq a b)
bytes_beq-append [] [] a b h = ground arith
bytes_beq-append [] (y ∷ ys) a b h = absurd (omega arith)
bytes_beq-append (x ∷ xs) [] a b h = absurd (omega arith)
bytes_beq-append (x ∷ xs) (y ∷ ys) a b h = ground (arith, bytes_beq-append xs ys a b (omega arith))

-- Equal keys are the keys of equal numbers.
pub bytes_beq-be_bytes :
    (w m n : ℕ) → m < 256 ^ w → n < 256 ^ w → bytes_beq (be_bytes w m) (be_bytes w n) ≡ nat_beq m n
unfolding be_bytes
bytes_beq-be_bytes zero m n h k = ground arith
bytes_beq-be_bytes (suc w) m n h k =
    bytes_beq-append (be_bytes w (m / 256)) (be_bytes w (n / 256)) (m % 256) (n % 256)
      (length-be_bytes w _ ∙ sym (length-be_bytes w _))
    ∙ ground (
      arith,
      bytes_beq-be_bytes w (m / 256) (n / 256) (omega (arith, pow-suc 256 w))
          (omega (arith, pow-suc 256 w)),
    )

-- The byte order of two keys of one width is the order of the numbers.
pub bytes_ltb-be_bytes :
    (w m n : ℕ) → m < 256 ^ w → n < 256 ^ w → bytes_ltb (be_bytes w m) (be_bytes w n) ≡ ltb m n
unfolding be_bytes
bytes_ltb-be_bytes zero m n h k = unfold bytes_ltb in ground arith
bytes_ltb-be_bytes (suc w) m n h k =
    bytes_ltb-append (be_bytes w (m / 256)) (be_bytes w (n / 256)) (m % 256) (n % 256)
      (length-be_bytes w _ ∙ sym (length-be_bytes w _))
    ∙ ground (
      arith,
      bytes_ltb-be_bytes w (m / 256) (n / 256) (omega (arith, pow-suc 256 w))
          (omega (arith, pow-suc 256 w)),
      bytes_beq-be_bytes w (m / 256) (n / 256) (omega (arith, pow-suc 256 w))
          (omega (arith, pow-suc 256 w)),
    )
