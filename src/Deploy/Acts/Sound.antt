-- ===== src/Deploy/Acts/Sound.antt =====
-- A run of acts of a deploy is sound if it reports every failure, and by itself neither makes a release
-- live nor takes one away.
use cron_compose.Prelude.{
  ◌≡◌, ◌≢◌, refl, Bool, true, false, List, [], ◌∷◌, Option, none, some, Bytes, All, arith,
  if◌then◌else◌,
}
use cron_compose.Deploy.Acts.{
  Act, Did, Run, Host, perform, nothing, fail_with, settled, settle, and_then, with_error, each,
  join_errors, each_joined,
}
use cron_compose.Deploy.Acts.Histories.{
  is_swap, needs_release, is_spotless, is_live, is_guarded, is_careful,
}

pub record Sound {E : Type 0} (f : Run E) : Type 0 where
  pub tells : (h : List Did) → is_spotless h ≡ true → (f h).0 ≡ none → is_spotless (f h).1 ≡ true
  pub stays : (h : List Did) → is_live h ≡ true → is_live (f h).1 ≡ true
  pub guards : (h : List Did) → is_live h ≡ true → is_guarded h ≡ true → is_guarded (f h).1 ≡ true
  pub keeps : (h : List Did) → is_careful h ≡ true → is_careful (f h).1 ≡ true

-- A run that does nothing that needs a live release.
abbrev pub IsQuiet : {E : Type 0} → Run E → Type 0
IsQuiet f = (h : List Did) → is_guarded h ≡ true → is_guarded (f h).1 ≡ true

pub nothing-Sound : {E : Type 0} → Sound (nothing {E = E})
nothing-Sound = record {
  tells = λ h s e. s;
  stays = λ h l. l;
  guards = λ h l g. g;
  keeps = λ h c. c;
}

pub fail_with-Sound : {E : Type 0} → (e : Option E) → Sound (fail_with e)
fail_with-Sound e = record {
  tells = λ h s n. s;
  stays = λ h l. l;
  guards = λ h l g. g;
  keeps = λ h c. c;
}

pub perform-Sound : (host : Host) (a : Act) → is_swap a ≡ false → Sound (perform host a)
unfolding perform is_spotless is_live is_guarded is_careful
perform-Sound host a n = record {
  tells = λ h s e. ground (arith, s, e);
  stays = λ h l. ground (arith, l);
  guards = λ h l g. ground (arith, l, g);
  keeps = λ h c. ground (arith, n, c);
}

pub perform-IsQuiet : (host : Host) (a : Act) → needs_release a ≡ false → IsQuiet (perform host a)
unfolding perform is_guarded
perform-IsQuiet host a n h g = ground (arith, n, g)

-- A run that never succeeds.
abbrev pub Fails : {E : Type 0} → Run E → Type 0
Fails f = (h : List Did) → (f h).0 ≢ none

pub if-Fails :
    {E : Type 0} → (b : Bool) (f g : Run E) → Fails f → Fails g → Fails (if b then f else g)
if-Fails true f g s t = s
if-Fails false f g s t = t

-- A handler of errors that never turns one into success.
pub record Handles {E F : Type 0} (handle : E → Run F) : Type 0 where
  pub sound : (e : E) → Sound (handle e)
  pub fails : (e : E) → Fails (handle e)

module _ {E F : Type 0} (handle : E → Run F) (next : Run F) where
  settled-tells :
      (r : Option E × List Did)
      → Handles handle
      → Sound next
      → (r.0 ≡ none → is_spotless r.1 ≡ true)
      → (settled handle next r).0 ≡ none
      → is_spotless (settled handle next r).1 ≡ true
  settled-tells (none, h) k t s e = t.tells h (s refl) e
  settled-tells (some x, h) k t s e = absurd (k.fails x h e)

  settled-stays :
      (r : Option E × List Did)
      → Handles handle
      → Sound next
      → is_live r.1 ≡ true
      → is_live (settled handle next r).1 ≡ true
  settled-stays (none, h) k t l = t.stays h l
  settled-stays (some x, h) k t l = (k.sound x).stays h l

  settled-guards :
      (r : Option E × List Did)
      → Handles handle
      → Sound next
      → is_live r.1 ≡ true
      → is_guarded r.1 ≡ true
      → is_guarded (settled handle next r).1 ≡ true
  settled-guards (none, h) k t l g = t.guards h l g
  settled-guards (some x, h) k t l g = (k.sound x).guards h l g

  settled-keeps :
      (r : Option E × List Did)
      → Handles handle
      → Sound next
      → is_careful r.1 ≡ true
      → is_careful (settled handle next r).1 ≡ true
  settled-keeps (none, h) k t c = t.keeps h c
  settled-keeps (some x, h) k t c = (k.sound x).keeps h c

  pub settle-Sound :
      (f : Run E) → Sound f → Handles handle → Sound next → Sound (settle f handle next)
  unfolding settle
  settle-Sound f s k t = record {
    tells = λ h u e. settled-tells (f h) k t (λ n. s.tells h u n) e;
    stays = λ h l. settled-stays (f h) k t (s.stays h l);
    guards = λ h l g. settled-guards (f h) k t (s.stays h l) (s.guards h l g);
    keeps = λ h c. settled-keeps (f h) k t (s.keeps h c);
  }

  settled-Fails :
      (r : Option E × List Did)
      → ((e : E) → Fails (handle e))
      → Fails next
      → (settled handle next r).0 ≢ none
  settled-Fails (none, h) k t = t h
  settled-Fails (some x, h) k t = k x h

  pub settle-Fails :
      (f : Run E) → ((e : E) → Fails (handle e)) → Fails next → Fails (settle f handle next)
  unfolding settle
  settle-Fails f k t h = settled-Fails (f h) k t

  settled-IsQuiet :
      (r : Option E × List Did)
      → ((e : E) → IsQuiet (handle e))
      → IsQuiet next
      → is_guarded r.1 ≡ true
      → is_guarded (settled handle next r).1 ≡ true
  settled-IsQuiet (none, h) k t g = t h g
  settled-IsQuiet (some x, h) k t g = k x h g

  pub settle-IsQuiet :
      (f : Run E)
      → IsQuiet f
      → ((e : E) → IsQuiet (handle e))
      → IsQuiet next
      → IsQuiet (settle f handle next)
  unfolding settle
  settle-IsQuiet f s k t h g = settled-IsQuiet (f h) k t (s h g)

pub fail_with-Handles : {E F : Type 0} → (told : E → F) → Handles (λ e. fail_with (some (told e)))
fail_with-Handles told = record {
  sound = λ e. fail_with-Sound (some (told e));
  fails = λ e h n. cc;
}

module _ {E F : Type 0} (told : E → F) (f : Run E) (next : Run F) where
  pub and_then-Sound : Sound f → Sound next → Sound (and_then told f next)
  unfolding and_then
  and_then-Sound s t =
      settle-Sound (λ e. fail_with (some (told e))) next f s (fail_with-Handles told) t

  pub and_then-Fails : Fails next → Fails (and_then told f next)
  unfolding and_then
  and_then-Fails t = settle-Fails (λ e. fail_with (some (told e))) next f (λ e h n. cc) t

  pub and_then-IsQuiet : IsQuiet f → IsQuiet next → IsQuiet (and_then told f next)
  unfolding and_then
  and_then-IsQuiet s t = settle-IsQuiet (λ e. fail_with (some (told e))) next f s (λ e h g. g) t

-- A run that depends on what was done before.
pub reading-Sound :
    {E : Type 0} → (f : List Did → Run E) → ((h : List Did) → Sound (f h)) → Sound (λ h. f h h)
reading-Sound f s = record {
  tells = λ h u e. (s h).tells h u e;
  stays = λ h l. (s h).stays h l;
  guards = λ h l g. (s h).guards h l g;
  keeps = λ h c. (s h).keeps h c;
}

pub if-Sound :
    {E : Type 0} → (b : Bool) (f g : Run E) → Sound f → Sound g → Sound (if b then f else g)
if-Sound true f g s t = s
if-Sound false f g s t = t

-- Renaming an error changes nothing.
pub relabelled-Sound :
    {E F : Type 0}
    → (f : Run E) (g : Run F)
    → ((h : List Did) → ((g h).0 ≡ none → (f h).0 ≡ none) × ((g h).1 ≡ (f h).1))
    → Sound f
    → Sound g
relabelled-Sound f g same s = record {
  tells = λ h u e. rw (same h).1 (s.tells h u ((same h).0 e));
  stays = λ h l. rw (same h).1 (s.stays h l);
  guards = λ h l k. rw (same h).1 (s.guards h l k);
  keeps = λ h c. rw (same h).1 (s.keeps h c);
}

module _ {A : Type 0} (f : A → Run Bytes) where
  -- No error is left out of the list.
  with_error-none :
      (o : Option Bytes) (es : List Bytes) → join_errors (with_error o es) ≡ none → o ≡ none
  with_error-none none es e = refl
  with_error-none (some x) es e = cc

  with_error-rest :
      (o : Option Bytes) (es : List Bytes)
      → join_errors (with_error o es) ≡ none
      → join_errors es ≡ none
  with_error-rest none es e = e
  with_error-rest (some x) es e = cc

  pub each_joined-Sound : ((a : A) → Sound (f a)) → (xs : List A) → Sound (each_joined f xs)
  unfolding each_joined each
  each_joined-Sound s [] = record {
    tells = λ h u e. u;
    stays = λ h l. l;
    guards = λ h l g. g;
    keeps = λ h c. c;
  }
  each_joined-Sound s (a ∷ xs) =
      let t = each_joined-Sound s xs in
      record {
        tells = λ h u e.
            let r = each f xs (f a h).1 in
            t.tells (f a h).1 ((s a).tells h u (with_error-none (f a h).0 r.0 e))
              (with_error-rest (f a h).0 r.0 e);
        stays = λ h l. t.stays (f a h).1 ((s a).stays h l);
        guards = λ h l g. t.guards (f a h).1 ((s a).stays h l) ((s a).guards h l g);
        keeps = λ h c. t.keeps (f a h).1 ((s a).keeps h c);
      }

  pub each_joined-IsQuiet :
      {Q : A → Type 0}
      → ((a : A) → Q a → IsQuiet (f a))
      → (xs : List A) → All Q xs
      → IsQuiet (each_joined f xs)
  unfolding each_joined each
  each_joined-IsQuiet q [] all h g = g
  each_joined-IsQuiet q (a ∷ xs) all h g = each_joined-IsQuiet q xs all.1 (f a h).1 (q a all.0 h g)
