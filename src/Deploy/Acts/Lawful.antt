-- ===== src/Deploy/Acts/Lawful.antt =====
-- Runs of a deploy that may make a release live: they report every failure, nothing in them needs a
-- live release before there is one, and a careful one makes a release live only behind successes.
use cron_compose.Prelude.{◌≡◌, refl, Bool, true, false, List, Option, none, some, if◌then◌else◌}
use cron_compose.Deploy.Acts.{Did, Run, fail_with, settled, settle, and_then}
use cron_compose.Deploy.Acts.Histories.{is_spotless, is_live, is_guarded, is_careful}
use cron_compose.Deploy.Acts.Sound.{Sound, IsQuiet, Fails, settle-IsQuiet, fail_with-Sound}

pub record Lawful {E : Type 0} (f : Run E) : Type 0 where
  pub tells : (h : List Did) → is_spotless h ≡ true → (f h).0 ≡ none → is_spotless (f h).1 ≡ true
  pub quiet : IsQuiet f
  pub lives : (h : List Did) → (f h).0 ≡ none → is_live (f h).1 ≡ true

abbrev pub Careful : {E : Type 0} → Run E → Type 0
Careful f = (h : List Did) → is_spotless h ≡ true → is_careful h ≡ true → is_careful (f h).1 ≡ true

module _ {E F : Type 0} (handle : E → Run F) (next : Run F) where
  told-settled :
      (r : Option E × List Did)
      → ((e : E) → Fails (handle e))
      → Lawful next
      → (r.0 ≡ none → is_spotless r.1 ≡ true)
      → (settled handle next r).0 ≡ none
      → is_spotless (settled handle next r).1 ≡ true
  told-settled (none, h) k t s e = t.tells h (s refl) e
  told-settled (some x, h) k t s e = absurd (k x h e)

  live-settled :
      (r : Option E × List Did)
      → ((e : E) → Fails (handle e))
      → Lawful next
      → (settled handle next r).0 ≡ none
      → is_live (settled handle next r).1 ≡ true
  live-settled (none, h) k t e = t.lives h e
  live-settled (some x, h) k t e = absurd (k x h e)

  pub settle-Lawful :
      (f : Run E)
      → Sound f
      → IsQuiet f
      → ((e : E) → IsQuiet (handle e))
      → ((e : E) → Fails (handle e))
      → Lawful next
      → Lawful (settle f handle next)
  unfolding settle
  settle-Lawful f s q k n t = record {
    tells = λ h u e. told-settled (f h) n t (λ o. s.tells h u o) e;
    quiet = settle-IsQuiet handle next f q k t.quiet;
    lives = λ h e. live-settled (f h) n t e;
  }

  settled-Careful :
      (r : Option E × List Did)
      → ((e : E) → Sound (handle e))
      → Careful next
      → (r.0 ≡ none → is_spotless r.1 ≡ true)
      → is_careful r.1 ≡ true
      → is_careful (settled handle next r).1 ≡ true
  settled-Careful (none, h) k t s c = t h (s refl) c
  settled-Careful (some x, h) k t s c = (k x).keeps h c

  pub settle-Careful :
      (f : Run E)
      → Sound f
      → ((e : E) → Sound (handle e))
      → Careful next
      → Careful (settle f handle next)
  unfolding settle
  settle-Careful f s k t h u c = settled-Careful (f h) k t (λ o. s.tells h u o) (s.keeps h c)

module _ {E F : Type 0} (told : E → F) (f : Run E) (next : Run F) where
  pub and_then-Lawful : Sound f → IsQuiet f → Lawful next → Lawful (and_then told f next)
  unfolding and_then
  and_then-Lawful s q t =
      settle-Lawful (λ e. fail_with (some (told e))) next f s q (λ e h g. g) (λ e h n. cc) t

  pub and_then-Careful : Sound f → Careful next → Careful (and_then told f next)
  unfolding and_then
  and_then-Careful s t =
      settle-Careful (λ e. fail_with (some (told e))) next f s
        (λ e. fail_with-Sound (some (told e))) t

pub reading-Lawful :
    {E : Type 0} → (f : List Did → Run E) → ((h : List Did) → Lawful (f h)) → Lawful (λ h. f h h)
reading-Lawful f s = record {
  tells = λ h u e. (s h).tells h u e;
  quiet = λ h g. (s h).quiet h g;
  lives = λ h e. (s h).lives h e;
}

pub if-Lawful :
    {E : Type 0} → (b : Bool) (f g : Run E) → Lawful f → Lawful g → Lawful (if b then f else g)
if-Lawful true f g s t = s
if-Lawful false f g s t = t

pub if-Careful :
    {E : Type 0} → (b : Bool) (f g : Run E) → Careful f → Careful g → Careful (if b then f else g)
if-Careful true f g s t = s
if-Careful false f g s t = t

pub fail_with-Lawful : {E : Type 0} → (e : E) → Lawful (fail_with (some e))
fail_with-Lawful e = record { tells = λ h s n. s; quiet = λ h g. g; lives = λ h n. cc }

-- What follows a run that has made a release live.
module _ {E F : Type 0} (told : E → F) (next : Run F) (s : Sound next) where
  abbrev behind : Option E × List Did → Option F × List Did
  behind r = settled (λ e. fail_with (some (told e))) next r

  behind-tells :
      (r : Option E × List Did)
      → (r.0 ≡ none → is_spotless r.1 ≡ true)
      → (behind r).0 ≡ none
      → is_spotless (behind r).1 ≡ true
  behind-tells (none, h) u e = s.tells h (u refl) e
  behind-tells (some x, h) u e = cc

  behind-guards :
      (r : Option E × List Did)
      → (r.0 ≡ none → is_live r.1 ≡ true)
      → is_guarded r.1 ≡ true
      → is_guarded (behind r).1 ≡ true
  behind-guards (none, h) l g = s.guards h (l refl) g
  behind-guards (some x, h) l g = g

  behind-stays :
      (r : Option E × List Did)
      → (r.0 ≡ none → is_live r.1 ≡ true)
      → (behind r).0 ≡ none
      → is_live (behind r).1 ≡ true
  behind-stays (none, h) l e = s.stays h (l refl)
  behind-stays (some x, h) l e = cc

  behind-keeps : (r : Option E × List Did) → is_careful r.1 ≡ true → is_careful (behind r).1 ≡ true
  behind-keeps (none, h) c = s.keeps h c
  behind-keeps (some x, h) c = c

  pub behind-Lawful : (f : Run E) → Lawful f → Lawful (and_then told f next)
  unfolding and_then settle
  behind-Lawful f k = record {
    tells = λ h u e. behind-tells (f h) (λ o. k.tells h u o) e;
    quiet = λ h g. behind-guards (f h) (λ o. k.lives h o) (k.quiet h g);
    lives = λ h e. behind-stays (f h) (λ o. k.lives h o) e;
  }

  pub behind-Careful : (f : Run E) → Careful f → Careful (and_then told f next)
  unfolding and_then settle
  behind-Careful f k h u c = behind-keeps (f h) (k h u c)
