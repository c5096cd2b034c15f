-- ===== src/AudioCache/Complete.antt =====
-- When a `sync` succeeds, and which records it skips.
use bloop_client_framework.Base.{
  false, List, [], ◌∷◌, ◌++◌, Option, Bytes, Result, ok, err, IsIn, IsIn-append-cases, ◌≡◌, ◌⊎◌,
  refl, sym, subst, inl, inr,
}
use bloop_client_framework.Protocol.{Protocol}
use bloop_client_framework.Request.{
  RequestError, error, encode, unexpected_response, malformed, disconnected, shutdown,
}
use bloop_client_framework.AudioCache.{
  Disk, AudioCacheError, request, io, AudioCache, Machine, ensure_inner, record_outcome,
  ensure_records, sync,
}
use bloop_client_framework.AudioCache.Stale.Fine.{IsFine, stepped}
use bloop_client_framework.AudioCache.Stale.Download.{download-cases, ensure_inner-cases}
use bloop_client_framework.AudioCache.Stale.Sweep.{sync-cases}

module _ (P : Protocol) (D : Disk P) {S : Type 0}
    (retrieve_audio : P.Uuid → S → Result Bytes (RequestError P) × S) where
  -- The audio, or a refusal by the server that leaves the connection open.
  abbrev pub IsAnswer : Result Bytes (RequestError P) → Type 0
  IsAnswer (ok _) = Unit
  IsAnswer (err (error e)) = P.is_fatal e ≡ false
  IsAnswer (err _) = ⊥

  -- The server refused the audio of an achievement.
  abbrev pub Refused : P.Uuid → Type 0
  Refused id = (state : S) × (e : P.ErrorResponse) × ((retrieve_audio id state).0 ≡ err (error e))

  -- A call that succeeds, or is refused.
  abbrev Serves :
      P.AchievementRecord
      → Result (Option D.FilePath) (AudioCacheError P D) × Machine P D S
      → Type 0
  Serves r (ok _, t) = Unit
  Serves r (err (request (error e)), t) = (P.is_fatal e ≡ false) × Refused (P.record_id r)
  Serves r (err _, t) = ⊥

  refused-Serves :
      (r : P.AchievementRecord) (state : S) (x : RequestError P) (t : Machine P D S)
      → (retrieve_audio (P.record_id r) state).0 ≡ err x
      → IsAnswer (err x)
      → Serves r (err (request x), t)
  refused-Serves r state (error e) t h mild = (mild, (state, e, h))
  refused-Serves r state disconnected t h mild = absurd mild
  refused-Serves r state shutdown t h mild = absurd mild
  refused-Serves r state (encode _) t h mild = absurd mild
  refused-Serves r state (unexpected_response _) t h mild = absurd mild
  refused-Serves r state (malformed _) t h mild = absurd mild

  -- The provider always answers.
  abbrev pub Answers : Type 0
  Answers = (id : P.Uuid) (state : S) → IsAnswer (retrieve_audio id state).0

  ensure_inner-Serves :
      (c : AudioCache P D) (r : P.AchievementRecord) (s : Machine P D S)
      → IsFine D
      → Answers
      → Serves r (ensure_inner P D retrieve_audio c r s)
  ensure_inner-Serves c r s fine answers =
      ensure_inner-cases P D retrieve_audio c r s (Serves r) fine (λ _. tt) (λ path _ _. tt)
        λ path _ _.
          download-cases P D retrieve_audio c r path (stepped s) (Serves r) fine (λ data' _. tt)
            λ x h.
              refused-Serves r s.provider x _ h
                (subst IsAnswer h (answers (P.record_id r) s.provider))

  -- A sync that succeeds, and skipped only refused records besides the ones given.
  abbrev pub IsComplete :
      List P.Uuid
      → List P.AchievementRecord
      → Result (List P.Uuid) (AudioCacheError P D) × Machine P D S
      → Type 0
  IsComplete skipped records (ok all, t) =
      (id : P.Uuid)
      → IsIn id all
      → IsIn id skipped
        ⊎ ((r : P.AchievementRecord) × IsIn r records × (id ≡ P.record_id r) × Refused id)
  IsComplete skipped records (err _, t) = ⊥

  record_outcome-Serves :
      (r : P.AchievementRecord) (skipped : List P.Uuid)
      (x : Result (Option D.FilePath) (AudioCacheError P D)) (t : Machine P D S)
      → Serves r (x, t)
      → (skipped' : List P.Uuid) × (record_outcome P D retrieve_audio r skipped x ≡ ok skipped')
        × ((id : P.Uuid) → IsIn id skipped' → IsIn id skipped ⊎ ((id ≡ P.record_id r) × Refused id))
  unfolding record_outcome
  record_outcome-Serves r skipped (ok _) t h = (skipped, refl, λ id m. inl m)
  record_outcome-Serves r skipped (err (request (error e))) t (mild, refused) = (
    skipped ++ P.record_id r ∷ [],
    rw mild refl,
    λ id m. elim (IsIn-append-cases id skipped (P.record_id r ∷ []) m) [
      | inl before ↦ inl before
      | inr (inl same) ↦ inr (same, subst Refused (sym same) refused)
      | inr (inr m') ↦ absurd m'
    ],
  )
  record_outcome-Serves r skipped (err (io _)) t h = absurd h
  record_outcome-Serves r skipped (err (request disconnected)) t h = absurd h
  record_outcome-Serves r skipped (err (request shutdown)) t h = absurd h
  record_outcome-Serves r skipped (err (request (encode _))) t h = absurd h
  record_outcome-Serves r skipped (err (request (unexpected_response _))) t h = absurd h
  record_outcome-Serves r skipped (err (request (malformed _))) t h = absurd h

  IsComplete-first :
      (r : P.AchievementRecord) (records : List P.AchievementRecord)
      (skipped skipped' : List P.Uuid)
      (x : Result (List P.Uuid) (AudioCacheError P D) × Machine P D S)
      → ((id : P.Uuid) → IsIn id skipped' → IsIn id skipped ⊎ ((id ≡ P.record_id r) × Refused id))
      → IsComplete skipped' records x
      → IsComplete skipped (r ∷ records) x
  IsComplete-first r records skipped skipped' (err e, t) h k = k
  IsComplete-first r records skipped skipped' (ok all, t) h k = λ id m. elim (k id m) [
    | inr (q, among, same, refused) ↦ inr (q, inr among, same, refused)
    | inl m' ↦ elim (h id m') [
      | inl before ↦ inl before
      | inr (same, refused) ↦ inr (r, inl refl, same, refused)
    ]
  ]

  ensure_records-IsComplete :
      (c : AudioCache P D) (records : List P.AchievementRecord) (skipped : List P.Uuid)
      (s : Machine P D S)
      → IsFine D
      → Answers
      → IsComplete skipped records (ensure_records P D retrieve_audio c records skipped s)
  unfolding ensure_records
  ensure_records-IsComplete c [] skipped s fine answers = λ id m. inl m
  ensure_records-IsComplete c (r ∷ records) skipped s fine answers =
      let (skipped', e, grows) =
        record_outcome-Serves r skipped (ensure_inner P D retrieve_audio c r s).0
          (ensure_inner P D retrieve_audio c r s).1 (ensure_inner-Serves c r s fine answers) in
      rw (e, ensure_records)
        (IsComplete-first r records skipped skipped' _ grows (
          ensure_records-IsComplete c records skipped' (ensure_inner P D retrieve_audio c r s).1
            fine answers))

  -- Where every operation on the file system succeeds, and the provider answers every request with the
  -- audio or a refusal that is not fatal: a sync succeeds, from whatever state of the cache, and every
  -- ID that it returns as skipped is that of one of the records, whose audio the provider refused.
  pub sync-IsComplete :
      (c : AudioCache P D) (records : List P.AchievementRecord) (s : Machine P D S)
      → IsFine D
      → Answers
      → IsComplete [] records (sync P D retrieve_audio c records s)
  sync-IsComplete c records s fine answers =
      sync-cases P D retrieve_audio c records s (IsComplete [] records) fine
        λ t _. ensure_records-IsComplete c records [] t fine answers
