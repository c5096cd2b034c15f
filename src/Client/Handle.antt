-- ===== src/Client/Handle.antt =====
-- src/client.rs: `BloopClient`, the handle. The channel to the task, which queues a command or not
-- and brings the answer or is dropped, is a parameter.
use bloop_client_framework.Base.{
  ℕ, ◌+◌, ◌≤◌, min, leb, Bool, false, arith, List, Option, none, some, ◌==◌, ==_iff, if◌then◌else◌,
  Bytes, Result, ok, err, ◌≡◌, refl, Bool-cases, inl, inr,
}
use bloop_client_framework.Outside.{ConnectionConfig}
use bloop_client_framework.Protocol.{Protocol}
use bloop_client_framework.Request.{RequestError, disconnected, shutdown, encode, decode_response}
use bloop_client_framework.Client.{Command, configure, request}

pub data SendTimeoutError : Type 0 where
  closed timed_out : SendTimeoutError

pub data PreloadOutcome (P : Protocol) : Type 0 where
  matching : PreloadOutcome P
  mismatch : P.DataHash → List P.AchievementRecord → PreloadOutcome P

-- When the channel takes a command, or refuses it, in milliseconds.
pub data Sending : Type 0 where
  refused_at queued_at : ℕ → Sending
  waits : Sending

-- When `time::timeout` ends, for a future that ends, or not.
abbrev pub timeout_end : ℕ → Option ℕ → ℕ
timeout_end limit none = limit
timeout_end limit (some t) = min limit t

-- When the call ends, and whether its command was sent; `answered` is how long the answer takes
-- behind the sending, if it comes, or the sender is dropped.
unfoldable pub shutdown_client : Sending → Option ℕ → ℕ × Bool
shutdown_client (refused_at t) answered = (timeout_end 5000 (some t), false)
shutdown_client waits answered = (timeout_end 5000 none, false)
shutdown_client (queued_at t) none = (timeout_end 5000 none, leb t 5000)
shutdown_client (queued_at t) (some d) = (timeout_end 5000 (some (t + d)), leb t 5000)

-- The call returns within five seconds, whatever the task does.
shutdown_client-bounded :
    (s : Sending) (answered : Option ℕ) → (shutdown_client s answered).0 ≤ 5000
unfolding shutdown_client
shutdown_client-bounded (refused_at t) answered = ground arith
shutdown_client-bounded waits answered = omega arith
shutdown_client-bounded (queued_at t) none = omega arith
shutdown_client-bounded (queued_at t) (some d) = ground arith

-- `IntoSubsystem::run`: when the subsystem ends, if its shutdown is ever requested.
unfoldable pub run_subsystem : Option ℕ → Sending → Option ℕ → Option ℕ
unfolding shutdown_client
run_subsystem none s answered = none
run_subsystem (some requested) s answered = some (requested + (shutdown_client s answered).0)

-- Once its shutdown is requested, the subsystem ends within five seconds, whatever the task does.
run_subsystem-bounded :
    (requested : ℕ) (s : Sending) (answered : Option ℕ)
    → (ended : ℕ) × (run_subsystem (some requested) s answered ≡ some ended)
      × (ended ≤ requested + 5000)
unfolding run_subsystem
run_subsystem-bounded requested s answered =
    let bound = shutdown_client-bounded s answered in
    (requested + (shutdown_client s answered).0, refl, omega arith)

-- The `?` operator.
module _ {A B E : Type 0} where
  infixl 5 ◌>>=◌
  abbrev pub ◌>>=◌ : Result A E → (A → Result B E) → Result B E
  ok a >>= f = f a
  err e >>= f = err e

abbrev pub map_encode :
    {P : Protocol} {A : Type 0} → Result A P.EncodeError → Result A (RequestError P)
map_encode (ok a) = ok a
map_encode (err e) = err (encode e)

-- What `send_request` makes of the queue's answer and of the task's.
abbrev pub send_outcome :
    {P : Protocol}
    → Option SendTimeoutError
    → Option (Result P.RawMessage (RequestError P))
    → Result P.RawMessage (RequestError P)
send_outcome (some closed) _ = err shutdown
send_outcome (some timed_out) _ = err disconnected
send_outcome none none = err shutdown
send_outcome none (some r) = r

module _ (P : Protocol) (queue : Command P → Option SendTimeoutError)
    (answer : ℕ → Option (Result P.RawMessage (RequestError P))) (response : ℕ) where
  open P use {
    RawMessage, EncodeError, MessageSetError, message_type, NfcUid, Uuid, DataHash,
    AchievementRecord, encode_bloop, encode_retrieve_audio, encode_preload_check,
    decode_bloop_accepted, decode_audio_data, preload_match_opcode, decode_preload_match,
    decode_preload_mismatch,
  }

  -- `response` names the sender of this call.
  unfoldable pub send_request : RawMessage → Result RawMessage (RequestError P)
  send_request message = send_outcome (queue (request message response)) (answer response)

  unfoldable pub request_raw : RawMessage → Result RawMessage (RequestError P)
  unfolding send_request
  request_raw message = send_request message

  unfoldable pub configure_client : Option ConnectionConfig → Result (Unit {0}) (RequestError P)
  configure_client config = elim (queue (configure config)) [ none ↦ ok tt | some _ ↦ err shutdown ]

  unfoldable pub custom :
      {M : Type 0}
      → Result RawMessage EncodeError
      → (RawMessage → Result M MessageSetError)
      → Result M (RequestError P)
  unfolding send_request
  custom encoded decode =
      map_encode encoded >>= λ message. send_request message >>= λ raw. decode_response P decode raw

  unfoldable pub bloop : NfcUid → Result (List AchievementRecord) (RequestError P)
  unfolding custom
  bloop nfc_uid = custom (encode_bloop nfc_uid) decode_bloop_accepted

  unfoldable pub retrieve_audio : Uuid → Result Bytes (RequestError P)
  unfolding custom
  retrieve_audio achievement_id = custom (encode_retrieve_audio achievement_id) decode_audio_data

  preload_outcome : RawMessage → Result (PreloadOutcome P) (RequestError P)
  preload_outcome raw =
      if message_type raw == preload_match_opcode
      then (decode_response P decode_preload_match raw >>= λ _. ok matching)
      else (decode_response P decode_preload_mismatch raw >>= λ m. ok (mismatch m.0 m.1))

  unfoldable pub preload_check : Option DataHash → Result (PreloadOutcome P) (RequestError P)
  unfolding send_request preload_outcome
  preload_check audio_manifest_hash =
      map_encode (encode_preload_check audio_manifest_hash) >>= λ message.
      send_request message >>= preload_outcome

  matching_outcome :
      (raw : RawMessage)
      → preload_outcome raw ≡ ok matching
      → (message_type raw ≡ preload_match_opcode)
        × (decode_response P decode_preload_match raw ≡ ok tt)
  unfolding preload_outcome
  matching_outcome raw e = elim (Bool-cases (message_type raw == preload_match_opcode)) [
    | inl same ↦
        ((==_iff _ _).0 same, matched (decode_response P decode_preload_match raw) (rw same at e))
    | inr other ↦
        absurd (mismatched (decode_response P decode_preload_mismatch raw) (rw other at e))
  ]
    where
      matching_ok : Result (PreloadOutcome P) (RequestError P)
      matching_ok = ok matching

      mismatch_ok : DataHash → List AchievementRecord → Result (PreloadOutcome P) (RequestError P)
      mismatch_ok hash records = ok (mismatch hash records)

      matched :
          (r : Result (Unit {0}) (RequestError P))
          → (r >>= λ _. matching_ok) ≡ matching_ok
          → r ≡ ok tt
      matched (ok u) h = refl
      matched (err x) h = absurd cc

      mismatched :
          (r : Result (DataHash × List AchievementRecord) (RequestError P))
          → (r >>= λ m. mismatch_ok m.0 m.1) ≡ matching_ok
          → ⊥
      mismatched (ok m) h = cc
      mismatched (err x) h = cc

  -- The cache is reported as up to date only if the task answered with a frame that has the opcode of
  -- a match and decodes as one.
  pub preload_check-eq-matching :
      (hash : Option DataHash)
      → preload_check hash ≡ ok matching
      → (message : RawMessage) × (raw : RawMessage) × (encode_preload_check hash ≡ ok message)
        × (queue (request message response) ≡ none)
        × (answer response ≡ some (ok raw))
        × (message_type raw ≡ preload_match_opcode)
        × (decode_response P decode_preload_match raw ≡ ok tt)
  unfolding preload_check
  preload_check-eq-matching hash e = sent (encode_preload_check hash) refl e
    where
      answered_by :
          (q : Option SendTimeoutError) (a : Option (Result RawMessage (RequestError P)))
          → (send_outcome q a >>= preload_outcome) ≡ ok matching
          → (raw : RawMessage) × (q ≡ none)
            × (a ≡ some (ok raw))
            × (message_type raw ≡ preload_match_opcode)
            × (decode_response P decode_preload_match raw ≡ ok tt)
      answered_by (some closed) a e = absurd cc
      answered_by (some timed_out) a e = absurd cc
      answered_by none none e = absurd cc
      answered_by none (some (err x)) e = absurd cc
      answered_by none (some (ok raw)) e =
          let (opcode, decodes) = matching_outcome raw e in (raw, refl, refl, opcode, decodes)

      sent :
          (encoded : Result RawMessage EncodeError)
          → encode_preload_check hash ≡ encoded
          → (map_encode encoded >>= λ message. send_request message >>= preload_outcome)
            ≡ ok matching
          → (message : RawMessage) × (raw : RawMessage) × (encode_preload_check hash ≡ ok message)
            × (queue (request message response) ≡ none)
            × (answer response ≡ some (ok raw))
            × (message_type raw ≡ preload_match_opcode)
            × (decode_response P decode_preload_match raw ≡ ok tt)
      sent (err x) same e = absurd cc
      sent (ok message) same e =
          let (raw, queued, got, opcode, decodes) =
            answered_by (queue (request message response)) (answer response)
              (unfold send_request in e) in
          (message, raw, same, queued, got, opcode, decodes)
