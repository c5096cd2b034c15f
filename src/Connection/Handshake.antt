-- ===== src/Connection/Handshake.antt =====
-- `connect` of src/connection.rs: what an attempt that ends without an error has gone through.
use bloop_client_framework.Base.{
  arith, ℕ, Bool, true, false, Result, ok, err, ◌≡◌, ◌↔◌, refl, sym, ◌∙◌, ap, subst,
}
use bloop_client_framework.Connection.{
  ConnectOptions, Connection, ConnectOutcome, connected, invalid_credentials, fresh, done,
  handshake_result, authentication_result, negotiate_version, authenticate, within_timeout,
  open_stream, authenticated_outcome, connect_negotiated, connect_opened, connect,
}
use bloop_client_framework.Outside.{Stream, ConnectionConfig, Trace, Env}
use bloop_client_framework.Protocol.{Protocol}
use bloop_client_framework.Request.{RequestError, error, decode_response}
use bloop_client_framework.Connection.Binds.{bind-eq-ok, ok-bind}
use bloop_client_framework.Connection.Exchanged.{Exchanged, frame-eq-ok, ok-frame}

module _ (P : Protocol) (E : Env P) where
  -- The two answers.
  pub handshake_result-eq-ok :
      (r : Result (ℕ × P.Capabilities) (RequestError P)) {capabilities : P.Capabilities}
      → handshake_result P E r ≡ ok capabilities
      → r ≡ ok (3, capabilities)
  unfolding handshake_result
  handshake_result-eq-ok r e = ground arith

  handshake_result-ok :
      (capabilities : P.Capabilities)
      → handshake_result P E (ok (3, capabilities)) ≡ ok capabilities
  unfolding handshake_result
  handshake_result-ok capabilities = refl

  -- What the answer to the authentication means.
  abbrev pub Decides : ConnectOptions → Connection P → P.RawMessage → ConnectOutcome P → Type 0
  Decides options c raw (connected d) =
      (decode_response P P.decode_authentication_accepted raw ≡ ok tt)
      × (d ≡ record c { max_payload_len = options.max_payload_len })
  Decides options c raw invalid_credentials =
      (e : P.ErrorResponse) × (decode_response P P.decode_authentication_accepted raw
        ≡ err (error e))
      × (P.is_invalid_credentials e ≡ true)

  authentication_result-true :
      (r : Result (Unit {0}) (RequestError P)) → authentication_result P E r ≡ ok true → r ≡ ok tt
  unfolding authentication_result
  authentication_result-true r e = ground arith

  authentication_result-false :
      (r : Result (Unit {0}) (RequestError P))
      → authentication_result P E r ≡ ok false
      → (e : P.ErrorResponse) × (r ≡ err (error e)) × (P.is_invalid_credentials e ≡ true)
  unfolding authentication_result
  authentication_result-false (err (error e)) h = (e, refl, ground arith)
  authentication_result-false (ok u) h = absurd cc
  authentication_result-false (err x) h = absurd cc

  decided :
      (options : ConnectOptions) (c : Connection P) (raw : P.RawMessage) (b : Bool)
      {o : ConnectOutcome P}
      → authentication_result P E (decode_response P P.decode_authentication_accepted raw) ≡ ok b
      → authenticated_outcome P E options c b ≡ o
      → Decides options c raw o
  unfolding authenticated_outcome
  decided options c raw true e h =
      subst (Decides options c raw) h (authentication_result-true _ e, refl)
  decided options c raw false e h =
      subst (Decides options c raw) h (authentication_result-false _ e)

  Decides-outcome :
      (options : ConnectOptions) (c : Connection P) (raw : P.RawMessage) (o : ConnectOutcome P)
      → Decides options c raw o
      → (b : Bool) × (authentication_result P E
            (decode_response P P.decode_authentication_accepted raw)
          ≡ ok b)
        × (authenticated_outcome P E options c b ≡ o)
  unfolding authenticated_outcome authentication_result
  Decides-outcome options c raw (connected d) (accepted, same) =
      (true, rw accepted refl, ap connected (sym same))
  Decides-outcome options c raw invalid_credentials (e, refused, invalid) =
      (false, rw (refused, authentication_result, invalid) refl, refl)

module _ (P : Protocol) (E : Env P) (config : ConnectionConfig) (options : ConnectOptions) where
  -- An attempt with this outcome: a stream is opened in time, the server accepts version 3 and
  -- declares its capabilities, and it answers to the credentials.
  pub record Handshaken (o : ConnectOutcome P) (before after : Trace P) : Type 0 where
    pub stream : Stream
    pub ip : P.IpAddr
    pub capabilities : P.Capabilities
    pub greeting : P.RawMessage
    pub welcome : P.RawMessage
    pub credentials : P.RawMessage
    pub verdict : P.RawMessage
    pub secured : Trace P
    pub negotiated : Trace P
    pub opens :
        within_timeout P E options.io_timeout (open_stream P E config) before
        ≡ (ok (stream, ip), secured)
    pub greets : P.encode_client_handshake 3 3 ≡ ok greeting
    pub negotiates : Exchanged P E (fresh P stream) greeting welcome secured negotiated
    pub accepts : decode_response P P.decode_server_handshake welcome ≡ ok (3, capabilities)
    pub identifies :
        P.encode_authentication config.client_id config.client_secret ip ≡ ok credentials
    pub authenticates :
        Exchanged P E
          (record (fresh P stream) { capabilities = capabilities })
          credentials
          verdict
          negotiated
          after
    pub decides :
        Decides P E options (record (fresh P stream) { capabilities = capabilities }) verdict o

  Handshaken-connect :
      (o : ConnectOutcome P) (before after : Trace P)
      → connect P E config options before ≡ (ok o, after)
      → Handshaken o before after
  unfolding connect connect_opened connect_negotiated negotiate_version authenticate
  Handshaken-connect o before after e =
      let ((stream, ip), secured, opens, e₁) =
        bind-eq-ok (within_timeout P E options.io_timeout (open_stream P E config))
          (λ s. connect_opened P E config options s.1 (fresh P s.0)) before e in
      let (capabilities, negotiated, h, e₂) =
        bind-eq-ok (negotiate_version P E (fresh P stream))
          (λ n.
            connect_negotiated P E config options ip (record (fresh P stream) { capabilities = n }))
          secured e₁ in
      let (b, finished, k, e₃) =
        bind-eq-ok
          (authenticate P E (record (fresh P stream) { capabilities = capabilities }) config ip)
          (λ a. done (
            ok (
              authenticated_outcome P E options
                (record (fresh P stream) { capabilities = capabilities }) a)))
          negotiated e₂ in
      let (greeting, welcome, greets, accepts, negotiates) =
        frame-eq-ok P E (fresh P stream) _ _ h in
      let (credentials, verdict, identifies, judges, authenticates) =
        frame-eq-ok P E (record (fresh P stream) { capabilities = capabilities }) _ _ k in
      record {
        stream = stream;
        ip = ip;
        capabilities = capabilities;
        greeting = greeting;
        welcome = welcome;
        credentials = credentials;
        verdict = verdict;
        secured = secured;
        negotiated = negotiated;
        opens = opens;
        greets = greets;
        negotiates = negotiates;
        accepts = handshake_result-eq-ok P E _ accepts;
        identifies = identifies;
        authenticates =
            subst
              (Exchanged P E (record (fresh P stream) { capabilities = capabilities }) credentials
                verdict negotiated)
              (ap (λ x. x.1) e₃) authenticates;
        decides =
            decided P E options (record (fresh P stream) { capabilities = capabilities }) verdict b
              judges (cc (ap (λ x. x.0) e₃));
      }

  connect_of_Handshaken :
      (o : ConnectOutcome P) (before after : Trace P)
      → Handshaken o before after
      → connect P E config options before ≡ (ok o, after)
  unfolding connect connect_opened connect_negotiated negotiate_version authenticate
  connect_of_Handshaken o before after x =
      let c : Connection P = record (fresh P x.stream) { capabilities = x.capabilities } in
      let (b, judges, outcome) = Decides-outcome P E options c x.verdict o x.decides in
      ok-bind (within_timeout P E options.io_timeout (open_stream P E config))
        (λ s. connect_opened P E config options s.1 (fresh P s.0)) before x.opens
      ∙ ok-bind (negotiate_version P E (fresh P x.stream))
          (λ n.
            connect_negotiated P E config options x.ip
              (record (fresh P x.stream) { capabilities = n }))
          x.secured
          (ok-frame P E (fresh P x.stream)
            (λ raw. handshake_result P E (decode_response P P.decode_server_handshake raw)) x.greets
            (rw x.accepts (handshake_result-ok P E x.capabilities)) x.negotiates)
      ∙ ok-bind (authenticate P E c config x.ip)
          (λ a. done (ok (authenticated_outcome P E options c a))) x.negotiated
          (ok-frame P E c
            (λ raw.
              authentication_result P E (decode_response P P.decode_authentication_accepted raw))
            x.identifies judges x.authenticates)
      ∙ ap (λ o'. (ok o', after)) outcome

  -- Exactly when an attempt ends with an outcome: a stream was opened within the timeout, the server
  -- accepted version 3 on it and declared its capabilities, the credentials were sent to it, and its
  -- answer decodes as their acceptance, for a connection with those capabilities and the configured
  -- limit, or as their rejection; behind the opening the trace has these two exchanges only, of which
  -- each awaits a frame of at most 1024 bytes of payload.
  pub connect-Handshaken :
      (o : ConnectOutcome P) (before after : Trace P)
      → (connect P E config options before ≡ (ok o, after)) ↔ Handshaken o before after
  connect-Handshaken o before after =
      (Handshaken-connect o before after, connect_of_Handshaken o before after)
