-- ===== src/Gateway/Versions/Order.antt =====
-- `VersionNewer` and `VersionsEqual` of control-plane/internal/agentgw/update.go as relations.
use cron_compose.Prelude.{
  ℕ, bytes_eq, ==_iff, ◌+◌, ◌%◌, ◌^◌, ◌||◌, ◌≡◌, refl, sym, ◌∙◌, Bool, true, false, List, [], ◌∷◌,
  if◌then◌else◌, Bytes, arith, ltb,
}
use cron_compose.Gateway.Versions.{
  normalize_version, versions_equal, parse_version_parts, newer_parts, version_newer,
}

key : ℕ → ℕ
key a = (a + 2 ^ 63) % 2 ^ 64

-- One round on the keys of the segments.
abbrev by_key : ℕ → ℕ → Bool → Bool
by_key x y rest = if ltb x y then true else (if ltb y x then false else rest)

by_key-transitive :
    (x y z : ℕ) (p q r : Bool)
    → (p ≡ true → q ≡ true → r ≡ true)
    → by_key x y p ≡ true
    → by_key y z q ≡ true
    → by_key x z r ≡ true
by_key-transitive x y z p q r f h k = ground (arith, h, k, f)

by_key-connected :
    (x y z : ℕ) (p q r : Bool)
    → (r ≡ true → (p || q) ≡ true)
    → by_key x z r ≡ true
    → (by_key x y p || by_key y z q) ≡ true
by_key-connected x y z p q r f h = ground (arith, h, f)

irreflexive_parts : (a : List ℕ) → newer_parts a a ≡ false
unfolding newer_parts
irreflexive_parts [] = refl
irreflexive_parts (x ∷ a) = ground (arith, irreflexive_parts a)

none_newer_than_itself : newer_parts [] [] ≡ false
unfolding newer_parts
none_newer_than_itself = refl

transitive_parts :
    (a b c : List ℕ) → newer_parts a b ≡ true → newer_parts b c ≡ true → newer_parts a c ≡ true
unfolding newer_parts key
transitive_parts [] [] c h k = k
transitive_parts [] (y ∷ b) [] h k = absurd (
    ground (
      arith,
      by_key-transitive (key 0) (key y) (key 0) (newer_parts [] b) (newer_parts b []) false
          (λ u w. sym none_newer_than_itself ∙ transitive_parts [] b [] u w) h k,
    ))
transitive_parts [] (y ∷ b) (z ∷ c) h k =
    by_key-transitive (key 0) (key y) (key z) _ _ _ (transitive_parts [] b c) h k
transitive_parts (x ∷ a) [] [] h k = h
transitive_parts (x ∷ a) [] (z ∷ c) h k =
    by_key-transitive (key x) (key 0) (key z) _ _ _ (transitive_parts a [] c) h k
transitive_parts (x ∷ a) (y ∷ b) [] h k =
    by_key-transitive (key x) (key y) (key 0) _ _ _ (transitive_parts a b []) h k
transitive_parts (x ∷ a) (y ∷ b) (z ∷ c) h k =
    by_key-transitive (key x) (key y) (key z) _ _ _ (transitive_parts a b c) h k

connected_parts :
    (a b c : List ℕ) → newer_parts a c ≡ true → (newer_parts a b || newer_parts b c) ≡ true
unfolding newer_parts key
connected_parts [] [] c h = h
connected_parts [] (y ∷ b) [] h = absurd (ground (arith, h))
connected_parts [] (y ∷ b) (z ∷ c) h =
    by_key-connected (key 0) (key y) (key z) _ _ _ (connected_parts [] b c) h
connected_parts (x ∷ a) [] [] h = ground (arith, h)
connected_parts (x ∷ a) [] (z ∷ c) h =
    by_key-connected (key x) (key 0) (key z) _ _ _ (connected_parts a [] c) h
connected_parts (x ∷ a) (y ∷ b) [] h =
    by_key-connected (key x) (key y) (key 0) _ _ _ (connected_parts a b []) h
connected_parts (x ∷ a) (y ∷ b) (z ∷ c) h =
    by_key-connected (key x) (key y) (key z) _ _ _ (connected_parts a b c) h

-- A version newer than a newer one is newer.
pub version_newer_transitive :
    (a b c : Bytes) → version_newer a b ≡ true → version_newer b c ≡ true → version_newer a c ≡ true
unfolding version_newer
version_newer_transitive a b c =
    transitive_parts (parse_version_parts (normalize_version a))
      (parse_version_parts (normalize_version b)) (parse_version_parts (normalize_version c))

-- Where one version is newer than another, any third one is newer than the older or older than the
-- newer of the two.
pub version_newer_connected :
    (a b c : Bytes) → version_newer a c ≡ true → (version_newer a b || version_newer b c) ≡ true
unfolding version_newer
version_newer_connected a b c =
    connected_parts (parse_version_parts (normalize_version a))
      (parse_version_parts (normalize_version b)) (parse_version_parts (normalize_version c))

-- Of two versions that VersionsEqual takes for the same, neither is newer.
pub equal_versions :
    (a b : Bytes)
    → versions_equal a b ≡ true
    → (version_newer a b ≡ false) × (version_newer b a ≡ false)
unfolding version_newer versions_equal
equal_versions a b h =
    let e = (==_iff (normalize_version a) (normalize_version b)).0 h in
    (
      rw e (irreflexive_parts (parse_version_parts (normalize_version b))),
      rw e (irreflexive_parts (parse_version_parts (normalize_version b))),
    )
