-- ===== src/Connection/Exchanged.antt =====
-- `request_raw` that brought an answer, in src/connection.rs.
use bloop_client_framework.Base.{
  ◌∷◌, none, Result, ok, err, ◌≡◌, refl, sym, ◌∙◌, ap, subst, Option-cases, inl, inr,
}
use bloop_client_framework.Connection.{
  ConnectError, encode_failed, Connection, ◌>>=◌, done, map_err, write, read, request_raw,
  request_frame, exchange, frame,
}
use bloop_client_framework.Request.{disconnected, encode, decode_response}
use bloop_client_framework.Outside.{wrote, awaited, Trace, Env}
use bloop_client_framework.Protocol.{Protocol}
use bloop_client_framework.Connection.Binds.{bind-eq-ok, ok-bind}

module _ (P : Protocol) (E : Env P) where
  -- A message that was handed over, and the answer to it, with the trace before and after.
  pub record Exchanged (c : Connection P) (message raw : P.RawMessage) (before after : Trace P)
      : Type 0 where
    pub sent : E.write_frame before c.stream message ≡ none
    pub answered :
        E.read_frame (wrote c.stream message ∷ before) c.stream c.max_payload_len ≡ ok raw
    pub events : after ≡ awaited c.stream c.max_payload_len ∷ wrote c.stream message ∷ before

  pub request_raw-eq-ok :
      (c : Connection P) (message : P.RawMessage) {raw : P.RawMessage} {before after : Trace P}
      → request_raw P E c message before ≡ (ok raw, after)
      → Exchanged c message raw before after
  unfolding request_raw write read
  request_raw-eq-ok c message {raw} {before} {after} e =
      elim (Option-cases (E.write_frame before c.stream message)) [
        | inr (x, failed) ↦ absurd (cc (rw (failed, request_raw, write) at e))
        | inl sent ↦
            let same = (rw (sent, request_raw, write, read) at e) in
            record { sent = sent; answered = ap (λ x. x.0) same; events = sym (ap (λ x. x.1) same) }
      ]

  map_err-eq-ok :
      {X : Type 0} (g : P.FrameError → X) (x : Result P.RawMessage P.FrameError × Trace P)
      {raw : P.RawMessage} {after : Trace P}
      → ◌≡◌ {A = Result P.RawMessage X × Trace P} (map_err g x.0, x.1) (ok raw, after)
      → x ≡ (ok raw, after)
  map_err-eq-ok g (ok raw', t) e = cc
  map_err-eq-ok g (err x, t) e = absurd cc

  pub request_frame-eq-ok :
      (c : Connection P) (message : P.RawMessage) {raw : P.RawMessage} {before after : Trace P}
      → request_frame P E c message before ≡ (ok raw, after)
      → Exchanged c message raw before after
  request_frame-eq-ok c message e = request_raw-eq-ok c message (map_err-eq-ok frame _ e)

  pub exchange-eq-ok :
      (c : Connection P) (message : P.RawMessage) {raw : P.RawMessage} {before after : Trace P}
      → exchange P E c message before ≡ (ok raw, after)
      → Exchanged c message raw before after
  unfolding exchange
  exchange-eq-ok c message e = request_raw-eq-ok c message (map_err-eq-ok (λ _. disconnected) _ e)

  -- An encoded message, its exchange, and the decoding of the answer: `custom` and `ping`.
  pub answer-eq-ok :
      {M : Type 0} (c : Connection P) (encoded : Result P.RawMessage P.EncodeError)
      (decode : P.RawMessage → Result M P.MessageSetError) {m : M} {before after : Trace P}
      → (done (map_err encode encoded) >>= λ message.
            exchange P E c message >>= λ raw. done (decode_response P decode raw))
          before
        ≡ (ok m, after)
      → (message : P.RawMessage) × (raw : P.RawMessage) × (encoded ≡ ok message)
        × Exchanged c message raw before after
        × (decode_response P decode raw ≡ ok m)
  answer-eq-ok c (err x) decode e = absurd cc
  answer-eq-ok c (ok message) decode e =
      let (raw, t, got, decodes) =
        bind-eq-ok (exchange P E c message) (λ raw. done (decode_response P decode raw)) _ e in
      (
        message,
        raw,
        refl,
        subst (Exchanged c message raw _) (ap (λ x. x.1) decodes) (exchange-eq-ok c message got),
        ap (λ x. x.0) decodes,
      )

  pub Exchanged-request_frame :
      (c : Connection P) (message : P.RawMessage) {raw : P.RawMessage} {before after : Trace P}
      → Exchanged c message raw before after
      → request_frame P E c message before ≡ (ok raw, after)
  unfolding request_raw write read
  Exchanged-request_frame c message x =
      rw (x.sent, x.answered, x.events, request_raw, write, read) refl

  -- An encoded message and its exchange, whose answer is then decoded.
  pub frame-eq-ok :
      {A : Type 0} (c : Connection P) (encoded : Result P.RawMessage P.EncodeError)
      (f : P.RawMessage → Result A (ConnectError P E)) {a : A} {before after : Trace P}
      → (done (map_err encode_failed encoded) >>= λ message.
            request_frame P E c message >>= λ raw. done (f raw))
          before
        ≡ (ok a, after)
      → (message : P.RawMessage) × (raw : P.RawMessage) × (encoded ≡ ok message)
        × (f raw ≡ ok a)
        × Exchanged c message raw before after
  frame-eq-ok c (err x) f e = absurd cc
  frame-eq-ok c (ok message) f e =
      let (raw, t, exchange, decodes) =
        bind-eq-ok (request_frame P E c message) (λ raw. done (f raw)) _ e in
      (
        message,
        raw,
        refl,
        ap (λ x. x.0) decodes,
        subst (Exchanged c message raw _) (ap (λ x. x.1) decodes)
            (request_frame-eq-ok c message exchange),
      )

  pub ok-frame :
      {A : Type 0} (c : Connection P) {encoded : Result P.RawMessage P.EncodeError}
      (f : P.RawMessage → Result A (ConnectError P E)) {message raw : P.RawMessage} {a : A}
      {before after : Trace P}
      → encoded ≡ ok message
      → f raw ≡ ok a
      → Exchanged c message raw before after
      → (done (map_err encode_failed encoded) >>= λ message.
            request_frame P E c message >>= λ raw. done (f raw))
          before
        ≡ (ok a, after)
  ok-frame c f {message} {before = before} e d x = rw e (
      ok-bind (request_frame P E c message) (λ raw. done (f raw)) before
        (Exchanged-request_frame c message x)
      ∙ rw d refl)
