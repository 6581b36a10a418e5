-- ===== src/Gateway/Versions/Offer.antt =====
-- `UpdatePolicy.For` of control-plane/internal/agentgw/update.go: what an agent is offered.
use cron_compose.Prelude.{
  bytes_eq, ◌==◌, beq_refl, ◌≡◌, ◌⊎◌, refl, subst, Bool, true, false, not, ◌||◌, [], ◌++◌, none,
  some, if◌then◌else◌, Bytes, arith, Bool-cases, inl, inr,
}
use cron_compose.Prelude.Text.{codes}
use cron_compose.Prelude.Strings.{trim}
use cron_compose.Gateway.Versions.{
  UpdatePolicy, UpdateAgent, normalize_version, versions_equal, active, source, checksum_for,
  url_for, source_update, binary_update, update_for,
}

-- An update that `For` sends: it is to the release of an active policy, which is not the agent's
-- version; it builds from the repository, or is a download with the checksum that the policy has for
-- the platform, which is not empty; and an agent on its version is sent nothing more.
pub record Offers (p : UpdatePolicy) (version os arch : Bytes) (u : UpdateAgent) : Type 0 where
  pub activated : active p ≡ true
  pub target : u.target_version ≡ p.version
  pub needed : versions_equal version u.target_version ≡ false
  pub content :
      ((source p ≡ true) × (u.download_url ≡ codes "https://github.com/" ++ trim p.repo))
      ⊎ ((u.download_url ≡ url_for p os arch)
          × (u.sha256 ≡ checksum_for p os arch)
          × ((u.sha256 == []) ≡ false))
  pub settled : (os' arch' : Bytes) → update_for p u.target_version os' arch' ≡ none

module _ (p : UpdatePolicy) (version os arch : Bytes) where
  nothing_more : (v : Bytes) → v ≡ p.version → (os' arch' : Bytes) → update_for p v os' arch' ≡ none
  unfolding update_for versions_equal
  nothing_more v e os' arch' = rw (e, beq_refl (normalize_version p.version)) (by_active (active p))
    where
      by_active :
          (a : Bool)
          → (if not a || true
              then none
              else (if source p
                  then some (source_update p)
                  else binary_update p os' arch' (checksum_for p os' arch')))
            ≡ none
      by_active true = refl
      by_active false = refl

  Offers-source :
      active p ≡ true
      → versions_equal version p.version ≡ false
      → source p ≡ true
      → Offers p version os arch (source_update p)
  unfolding source_update
  Offers-source a n s = record {
    activated = a;
    target = refl;
    needed = n;
    content = inl (s, refl);
    settled = nothing_more p.version refl;
  }

  Offers-binary :
      (u : UpdateAgent)
      → active p ≡ true
      → versions_equal version p.version ≡ false
      → binary_update p os arch (checksum_for p os arch) ≡ some u
      → Offers p version os arch u
  unfolding binary_update
  Offers-binary u a n e = elim (Bool-cases (checksum_for p os arch == [])) [
    | inl missing ↦ absurd (ground (arith, e, missing))
    | inr there ↦
        subst (λ x. Offers p version os arch x) (same there)
          (record {
            activated = a;
            target = refl;
            needed = n;
            content = inr (refl, refl, there);
            settled = nothing_more p.version refl;
          })
  ]
    where
      download : UpdateAgent
      download = record {
        target_version = p.version;
        download_url = url_for p os arch;
        sha256 = checksum_for p os arch;
        restart = p.restart;
      }

      same : (checksum_for p os arch == []) ≡ false → download ≡ u
      same there = ground (arith, e, there)

  -- Whatever `For` sends is to the release of an active policy, which is not the agent's version. It
  -- builds from the repository, or is a download with the checksum that the policy has for the
  -- platform, which is not empty. An agent on that version is sent nothing more.
  pub update_for-Offers :
      (u : UpdateAgent) → update_for p version os arch ≡ some u → Offers p version os arch u
  unfolding update_for
  update_for-Offers u e =
      by_tests (active p) refl (versions_equal version p.version) refl (source p) refl e
    where
      by_tests :
          (a : Bool)
          → active p ≡ a
          → (n : Bool) → versions_equal version p.version ≡ n
          → (s : Bool) → source p ≡ s
          → (if not a || n
              then none
              else (if s
                  then some (source_update p)
                  else binary_update p os arch (checksum_for p os arch)))
            ≡ some u
          → Offers p version os arch u
      by_tests true a false n true s e =
          subst (λ x. Offers p version os arch x) (ground (arith, e)) (Offers-source a n s)
      by_tests true a false n false s e = Offers-binary u a n e
      by_tests false a n' n s' s e = absurd (ground (arith, e))
      by_tests true a true n s' s e = absurd (ground (arith, e))
