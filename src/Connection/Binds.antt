-- ===== src/Connection/Binds.antt =====
-- How a chain of fallible steps ends: `?` in src/connection.rs.
use bloop_client_framework.Base.{Result, ok, err, ◌≡◌, refl, ◌∙◌, ap}
use bloop_client_framework.Connection.{Io, ◌>>=◌}
use bloop_client_framework.Outside.{Trace}
use bloop_client_framework.Protocol.{Protocol}

module _ {P : Protocol} {A B X : Type 0} where
  -- A bind that succeeds, and one whose first part does.
  pub bind-eq-ok :
      (m : Io P A X) (f : A → Io P B X) (s : Trace P) {b : B} {u : Trace P}
      → (m >>= f) s ≡ (ok b, u)
      → (a : A) × (t : Trace P) × (m s ≡ (ok a, t)) × (f a t ≡ (ok b, u))
  bind-eq-ok m f s e = split (m s) refl e
    where
      split :
          (x : Result A X × Trace P) {b : B} {u : Trace P}
          → m s ≡ x
          → elim x.0 as (λ _. Result B X × Trace P) [ ok a ↦ f a x.1 | err e ↦ (err e, x.1) ]
            ≡ (ok b, u)
          → (a : A) × (t : Trace P) × (m s ≡ (ok a, t)) × (f a t ≡ (ok b, u))
      split (ok a, t) h k = (a, t, h, k)
      split (err x, t) h k = absurd cc

  -- What holds behind a bind, with what its first part came to.
  pub bind-cases :
      (m : Io P A X) (f : A → Io P B X) (s : Trace P) (Q : Result B X × Trace P → Type 0)
      → ((a : A) (t : Trace P) → m s ≡ (ok a, t) → Q (f a t))
      → ((x : X) (t : Trace P) → m s ≡ (err x, t) → Q (err x, t))
      → Q ((m >>= f) s)
  bind-cases m f s Q h k = split (m s) refl
    where
      split :
          (x : Result A X × Trace P)
          → m s ≡ x
          → Q (elim x.0 as (λ _. Result B X × Trace P) [ ok a ↦ f a x.1 | err e ↦ (err e, x.1) ])
      split (ok a, t) e = h a t e
      split (err x, t) e = k x t e

  pub ok-bind :
      (m : Io P A X) (f : A → Io P B X) (s : Trace P) {a : A} {t : Trace P}
      → m s ≡ (ok a, t)
      → (m >>= f) s ≡ f a t
  ok-bind m f s {a} {t} e =
      ap
        (λ x.
          let r : Result B X × Trace P = elim x.0 [ ok a ↦ f a x.1 | err e ↦ (err e, x.1) ] in r)
        e

  pub ok-bind-eq :
      (m : Io P A X) (f : A → Io P B X) (s : Trace P) (a : A) (t : Trace P)
      {x : Result B X × Trace P}
      → m s ≡ (ok a, t)
      → f a t ≡ x
      → (m >>= f) s ≡ x
  ok-bind-eq m f s a t e h = ok-bind m f s e ∙ h
