-- ===== src/Connection/Limits.antt =====
-- The payload limits of a connection: a tight one until the client is authenticated.
use bloop_client_framework.Base.{ℕ, Bool, true, false, Result, ok, err, ◌≡◌, refl}
use bloop_client_framework.Connection.{
  Connection, ConnectOptions, ConnectOutcome, connected, invalid_credentials, Io, ◌>>=◌, done,
  connect, within_timeout, open_stream, negotiate_version, authenticate, fresh, connect_opened,
  connect_negotiated, authenticated_outcome,
}
use bloop_client_framework.Outside.{ConnectionConfig, Trace, Env}
use bloop_client_framework.Protocol.{Protocol}

-- What holds of the value, where there is one.
abbrev pub Ensures {ℓ} : {A X : Type 0} → (A → Type ℓ) → Result A X → Type ℓ
Ensures Q (ok a) = Q a
Ensures Q (err _) = Unit

abbrev pub HasLimit : {P : Protocol} → ℕ → ConnectOutcome P → Type 0
HasLimit limit (connected c) = c.max_payload_len ≡ limit
HasLimit limit invalid_credentials = Unit

module _ {P : Protocol} {A B X : Type 0} (Q : B → Type 0) where
  Ensures-case :
      (r : Result A X) (f : A → Io P B X) (after : Trace P)
      → ((a : A) (t : Trace P) → Ensures Q (f a t).0)
      → Ensures Q
          (let s : Result B X × Trace P = elim r [ ok a ↦ f a after | err e ↦ (err e, after) ] in
            s).0
  Ensures-case (ok a) f after h = h a after
  Ensures-case (err e) f after h = tt

  pub Ensures-bind :
      (m : Io P A X) (f : A → Io P B X) (trace : Trace P)
      → ((a : A) (t : Trace P) → Ensures Q (f a t).0)
      → Ensures Q ((m >>= f) trace).0
  Ensures-bind m f trace h = Ensures-case (m trace).0 f (m trace).1 h

module _ (P : Protocol) (E : Env P) (config : ConnectionConfig) (options : ConnectOptions) where
  abbrev Q : ConnectOutcome P → Type 0
  Q = HasLimit options.max_payload_len

  authenticated_outcome-HasLimit :
      (c : Connection P) (authenticated : Bool)
      → Q (authenticated_outcome P E options c authenticated)
  unfolding authenticated_outcome
  authenticated_outcome-HasLimit c true = refl
  authenticated_outcome-HasLimit c false = tt

  -- An established connection reads payloads up to the configured limit.
  pub connect-HasLimit :
      (trace : Trace P)
      → Ensures (HasLimit options.max_payload_len) (connect P E config options trace).0
  unfolding connect connect_opened connect_negotiated
  connect-HasLimit trace =
      Ensures-bind Q (within_timeout P E options.io_timeout (open_stream P E config))
        (λ s. connect_opened P E config options s.1 (fresh P s.0)) trace
        λ s t.
          Ensures-bind Q (negotiate_version P E (fresh P s.0))
            (λ n.
              connect_negotiated P E config options s.1 (record (fresh P s.0) { capabilities = n }))
            t
            λ n u.
              Ensures-bind Q
                (authenticate P E (record (fresh P s.0) { capabilities = n }) config s.1)
                (λ a. done (
                  ok (
                    authenticated_outcome P E options (record (fresh P s.0) { capabilities = n })
                      a)))
                u
                λ a v. authenticated_outcome-HasLimit (record (fresh P s.0) { capabilities = n }) a
