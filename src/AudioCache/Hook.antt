-- ===== src/AudioCache/Hook.antt =====
-- The cache inside an on-connect hook, where the provider is the `Session` of src/connection.rs.
use bloop_client_framework.Base.{
  false, Option, none, some, Bytes, Result, ok, err, ◌≡◌, inl, inr, ◌⊎◌,
}
use bloop_client_framework.Protocol.{Protocol}
use bloop_client_framework.Request.{decode_response}
use bloop_client_framework.Outside.{Trace, Env}
use bloop_client_framework.Connection.{Connection}
use bloop_client_framework.Connection.Exchanged.{Exchanged, answer-eq-ok}
use bloop_client_framework.Connection.Session.{custom, retrieve_audio}
use bloop_client_framework.AudioCache.{
  Disk, AudioCacheError, AudioCache, Machine, path_for, ensure_inner,
}
use bloop_client_framework.AudioCache.Ensure.{IsEnsured, ensure_inner-IsEnsured}

module _ (P : Protocol) (E : Env P) (c : Connection P) where
  -- A request that was answered: the exchange of an encoded message, and what its answer decodes to.
  pub record Retrieved (id : P.Uuid) (content : Bytes) (before after : Trace P) : Type 0 where
    pub message : P.RawMessage
    pub raw : P.RawMessage
    pub encodes : P.encode_retrieve_audio id ≡ ok message
    pub exchanges : Exchanged P E c message raw before after
    pub decodes : decode_response P P.decode_audio_data raw ≡ ok content

  retrieve_audio-Retrieved :
      (id : P.Uuid) (content : Bytes) (before after : Trace P)
      → retrieve_audio P E c id before ≡ (ok content, after)
      → Retrieved id content before after
  unfolding retrieve_audio custom
  retrieve_audio-Retrieved id content before after e =
      let (message, raw, encodes, exchanges, decodes) =
        answer-eq-ok P E c (P.encode_retrieve_audio id) P.decode_audio_data e in
      record {
        message = message;
        raw = raw;
        encodes = encodes;
        exchanges = exchanges;
        decodes = decodes;
      }

  module _ (D : Disk P) where
    -- What a successful call in a hook means.
    abbrev pub IsServed :
        P.Uuid
        → D.FilePath
        → Machine P D (Trace P)
        → Result (Option D.FilePath) (AudioCacheError P D) × Machine P D (Trace P)
        → Type 0
    IsServed id path s (ok none, t) = ⊥
    IsServed id path s (ok (some q), t) =
        (q ≡ path)
        × (content : Bytes) × (t.files path ≡ some content)
        × (((s.files path ≡ some content) × (t.provider ≡ s.provider))
            ⊎ ((s.files path ≡ none) × Retrieved id content s.provider t.provider))
    IsServed id path s (err _, t) =
        (p : D.FilePath) → D.is_download p ≡ false → t.files p ≡ s.files p

    IsEnsured-IsServed :
        (id : P.Uuid) (path : D.FilePath) (s : Machine P D (Trace P))
        (x : Result (Option D.FilePath) (AudioCacheError P D) × Machine P D (Trace P))
        → IsEnsured P D (retrieve_audio P E c) id path s x
        → IsServed id path s x
    IsEnsured-IsServed id path s (ok none, t) h = h
    IsEnsured-IsServed id path s (ok (some q), t) (same, _, content, there, inl kept) =
        (same, content, there, inl kept)
    IsEnsured-IsServed id path s (ok (some q), t) (same, _, content, there, inr (missing, got)) = (
      same,
      content,
      there,
      inr (missing, retrieve_audio-Retrieved id content s.provider t.provider got),
    )
    IsEnsured-IsServed id path s (err _, t) h = h

    -- In a hook, a call for a record with an audio file has, if it succeeds, found the file, with
    -- nothing sent, or, where there was none, written the audio that the answer holds which the server
    -- gave on this connection to one request for that audio, with no other traffic; if it fails it
    -- changed no file but a temporary one.
    pub ensure_inner-IsServed :
        (cache : AudioCache P D) (r : P.AchievementRecord) (path : D.FilePath)
        (s : Machine P D (Trace P))
        → path_for P D (retrieve_audio P E c) cache r ≡ some path
        → IsServed (P.record_id r) path s (ensure_inner P D (retrieve_audio P E c) cache r s)
    ensure_inner-IsServed cache r path s e =
        IsEnsured-IsServed (P.record_id r) path s _
          (ensure_inner-IsEnsured P D (retrieve_audio P E c) cache r path s e)
