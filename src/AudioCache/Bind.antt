-- ===== src/AudioCache/Bind.antt =====
-- What holds behind a bind of two operations of the cache.
use bloop_client_framework.Base.{Result, ok, err, ◌≡◌, sym, subst}
use bloop_client_framework.Protocol.{Protocol}
use bloop_client_framework.AudioCache.{Disk, AudioCacheError, Machine, Cached, ◌>>=◌}

module _ {P : Protocol} {D : Disk P} {S : Type 0} where
  -- What holds behind an operation that succeeds, and behind one that fails.
  pub bind-fine :
      {A B : Type 0} (m : Cached P D S A) (f : A → Cached P D S B) (s : Machine P D S)
      (Q : Result B (AudioCacheError P D) × Machine P D S → Type 0) {a : A} {t : Machine P D S}
      → m s ≡ (ok a, t)
      → Q (f a t)
      → Q ((m >>= f) s)
  bind-fine m f s Q e h =
      subst (λ x. Q (elim x.0 [ ok a ↦ f a x.1 | err e ↦ (err e, x.1) ])) (sym e) h

  pub bind-failed :
      {A B : Type 0} (m : Cached P D S A) (f : A → Cached P D S B) (s : Machine P D S)
      (Q : Result B (AudioCacheError P D) × Machine P D S → Type 0) {x : AudioCacheError P D}
      {t : Machine P D S}
      → m s ≡ (err x, t)
      → Q (err x, t)
      → Q ((m >>= f) s)
  bind-failed m f s Q e h =
      subst (λ x. Q (elim x.0 [ ok a ↦ f a x.1 | err e ↦ (err e, x.1) ])) (sym e) h

  pub bind-either :
      {A B : Type 0} (m : Cached P D S A) (f : A → Cached P D S B) (s : Machine P D S)
      (Q : Result B (AudioCacheError P D) × Machine P D S → Type 0)
      → ((a : A) → Q (f a (m s).1))
      → ((x : AudioCacheError P D) → Q (err x, (m s).1))
      → Q ((m >>= f) s)
  bind-either {A} {B} m f s Q h k = split (m s).0
    where
      split :
          (r : Result A (AudioCacheError P D))
          → Q (elim r as (λ _. Result B (AudioCacheError P D) × Machine P D S) [
            | ok a ↦ f a (m s).1
            | err e ↦ (err e, (m s).1)
          ])
      split (ok a) = h a
      split (err x) = k x
