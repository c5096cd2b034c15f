-- ===== src/AudioCache/Online.antt =====
-- The cache in normal operation, where the provider is the handle of the client in src/client.rs, and
-- so the channel, the task and its connection.
use bloop_client_framework.Base.{
  ℕ, List, length, true, false, if◌then◌else◌, Option, none, some, Bytes, Result, ok, err, ◌≡◌,
  refl, sym, ◌∙◌, ap, subst, if-cases, Result-cases, inl, inr, ◌⊎◌,
}
use bloop_client_framework.Protocol.{Protocol}
use bloop_client_framework.Request.{RequestError, decode_response}
use bloop_client_framework.Outside.{Trace, Env}
use bloop_client_framework.Connection.{Connection}
use bloop_client_framework.Connection.Exchanged.{Exchanged}
use bloop_client_framework.Client.{request}
use bloop_client_framework.Client.Handle.{custom, retrieve_audio, send_request}
use bloop_client_framework.Client.Call.{
  queue_of, answer_in, receive_count, reached, carried_out, send_request-direct,
}
use bloop_client_framework.Client.Call.Success.{
  direct-eq-ok, bind-eq-ok, unequal, send_request-accepts,
}
use bloop_client_framework.Client.System.{System, Turn, accepts, take_turns}
use bloop_client_framework.AudioCache.{
  Disk, AudioCacheError, AudioCache, Machine, path_for, ensure_inner,
}
use bloop_client_framework.AudioCache.Ensure.{IsEnsured, ensure_inner-IsEnsured}

-- What happens around a call: the turns while the send waits for room in the channel, and those between
-- the send and the receipt of the request, by how many commands are ahead of it.
pub record Schedule (P : Protocol) : Type 0 where
  pub waiting : List (Turn P)
  pub ahead : ℕ → List (Turn P)
  pub in_turn : (n : ℕ) → receive_count (ahead n) ≡ n

module _ (P : Protocol) (E : Env P) (k : ℕ) (schedule : Schedule P) where
  -- The system when the wait of `send_timeout` is over: there is room, or the send fails.
  abbrev pub waited : System P → System P
  waited s = take_turns P E schedule.waiting s

  -- When the task comes to the request.
  abbrev pub served : P.RawMessage → System P → System P
  served message s =
      reached P E (schedule.ahead (length (waited s).queue)) (request message k) (waited s)

  -- And when it has answered it.
  abbrev pub received_by : P.RawMessage → System P → System P
  received_by message s =
      carried_out P E (schedule.ahead (length (waited s).queue)) (request message k) (waited s)

  -- The system behind the call of a handle: nothing is sent of a message that does not encode, and
  -- nothing waits for the answer to a request that was not sent; `k` names the sender.
  abbrev pub called_with : Result P.RawMessage P.EncodeError → System P → System P
  called_with (ok message) s = if accepts (waited s) then received_by message s else waited s
  called_with (err _) s = s

  abbrev pub called : P.Uuid → System P → System P
  called id s = called_with (P.encode_retrieve_audio id) s

  -- And what the call returns.
  unfoldable pub provide : P.Uuid → System P → Result Bytes (RequestError P) × System P
  provide id s = (
    retrieve_audio P (queue_of (waited s)) (answer_in (called id s).world.trace) k id,
    called id s,
  )

  -- A call that was answered: it got into the channel, and the task, up and connected when it came to
  -- the call, exchanged the message for a frame that holds the audio.
  pub record Called (id : P.Uuid) (content : Bytes) (s : System P) : Type 0 where
    pub message : P.RawMessage
    pub raw : P.RawMessage
    pub connection : Connection P
    pub after : Trace P
    pub encodes : P.encode_retrieve_audio id ≡ ok message
    pub queued : accepts (waited s) ≡ true
    pub up : (served message s).world.task.is_shutdown ≡ false
    pub connected : (served message s).world.task.connection ≡ some connection
    pub exchanges : Exchanged P E connection message raw (served message s).world.trace after
    pub decodes : decode_response P P.decode_audio_data raw ≡ ok content

  called-received_by :
      (message : P.RawMessage) (s : System P)
      → accepts (waited s) ≡ true
      → called_with (ok message) s ≡ received_by message s
  called-received_by message s queued =
      if-cases (λ (t : System P). t ≡ received_by message s) (accepts (waited s))
        (received_by message s) (waited s) (λ _. refl) λ full. absurd (cc (queued, full))

  provide-Called :
      (id : P.Uuid) (content : Bytes) (s : System P)
      → (provide id s).0 ≡ ok content
      → Called id content s
  unfolding provide retrieve_audio custom
  provide-Called id content s e = elim (Result-cases (P.encode_retrieve_audio id)) [
    | inr (x, failed) ↦ absurd (unequal (rw (failed, provide, retrieve_audio, custom) at e))
    | inl (message, encodes) ↦
        let (raw, answered, decodes) =
          bind-eq-ok
            (send_request P (queue_of (waited s))
              (answer_in (called_with (ok message) s).world.trace) k message)
            (decode_response P P.decode_audio_data)
            (rw (encodes, provide, retrieve_audio, custom) at e) in
        let queued =
          send_request-accepts k message (waited s) (called_with (ok message) s) answered in
        let (up, (c, after, connected, exchanges)) =
          direct-eq-ok P E message (served message s).world (
            sym (
              send_request-direct P E (waited s) (schedule.ahead (length (waited s).queue)) k
                message queued (schedule.in_turn _))
            ∙ sent message s raw queued answered) in
        record {
          message = message;
          raw = raw;
          connection = c;
          after = after;
          encodes = encodes;
          queued = queued;
          up = up;
          connected = connected;
          exchanges = exchanges;
          decodes = decodes;
        }
  ]
    where
      sent :
          (message : P.RawMessage) (s : System P) (raw : P.RawMessage)
          → accepts (waited s) ≡ true
          → send_request P
              (queue_of (waited s))
              (answer_in (called_with (ok message) s).world.trace)
              k
              message
            ≡ ok raw
          → send_request P
              (queue_of (waited s))
              (answer_in (received_by message s).world.trace)
              k
              message
            ≡ ok raw
      sent message s raw queued h =
          subst
            (λ t. send_request P (queue_of (waited s)) (answer_in t.world.trace) k message ≡ ok raw)
            (called-received_by message s queued) h

  module _ (D : Disk P) where
    -- What a call of the cache means there.
    abbrev pub IsProvided :
        P.Uuid
        → D.FilePath
        → Machine P D (System P)
        → Result (Option D.FilePath) (AudioCacheError P D) × Machine P D (System P)
        → Type 0
    IsProvided id path s (ok none, t) = ⊥
    IsProvided id path s (ok (some q), t) =
        (q ≡ path)
        × (content : Bytes) × (t.files path ≡ some content)
        × (((s.files path ≡ some content) × (t.provider ≡ s.provider))
            ⊎ ((s.files path ≡ none) × Called id content s.provider))
    IsProvided id path s (err _, t) =
        (p : D.FilePath) → D.is_download p ≡ false → t.files p ≡ s.files p

    IsEnsured-IsProvided :
        (id : P.Uuid) (path : D.FilePath) (s : Machine P D (System P))
        (x : Result (Option D.FilePath) (AudioCacheError P D) × Machine P D (System P))
        → IsEnsured P D provide id path s x
        → IsProvided id path s x
    IsEnsured-IsProvided id path s (ok none, t) h = h
    IsEnsured-IsProvided id path s (ok (some q), t) (same, _, content, there, inl kept) =
        (same, content, there, inl kept)
    IsEnsured-IsProvided id path s (ok (some q), t) (same, _, content, there, inr (missing, got)) =
        (
          same,
          content,
          there,
          inr (missing, provide-Called id content s.provider (ap (λ r. r.0) got)),
        )
    IsEnsured-IsProvided id path s (err _, t) h = h

    -- In normal operation, in whatever environment, and whatever turns are taken around the call, in the
    -- wait for room in the channel and, once the request is sent, until the task comes to it: a call for
    -- a record with an audio file has, if it succeeds, found the file, and sent nothing to the task, or,
    -- where there was none, written the audio that the frame holds for which the task, up and connected
    -- when it came to the request, exchanged it; if it fails it changed no file but a temporary one.
    pub ensure_inner-IsProvided :
        (cache : AudioCache P D) (r : P.AchievementRecord) (path : D.FilePath)
        (s : Machine P D (System P))
        → path_for P D provide cache r ≡ some path
        → IsProvided (P.record_id r) path s (ensure_inner P D provide cache r s)
    ensure_inner-IsProvided cache r path s e =
        IsEnsured-IsProvided (P.record_id r) path s _
          (ensure_inner-IsEnsured P D provide cache r path s e)
