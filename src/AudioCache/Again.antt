-- ===== src/AudioCache/Again.antt =====
-- A `sync` of a cache that has all audio already.
use bloop_client_framework.Base.{
  false, List, [], ◌∷◌, is_some, Option, Bytes, Result, ok, err, All, IsIn, ◌≡◌, refl, sym, ◌∙◌, ap,
  subst, inl, inr,
}
use bloop_client_framework.Protocol.{Protocol}
use bloop_client_framework.Request.{RequestError}
use bloop_client_framework.AudioCache.{
  Disk, AudioCacheError, AudioCache, Machine, ensure_inner, record_outcome, ensure_records,
  expected_paths, is_garbage, sync,
}
use bloop_client_framework.AudioCache.Ensure.{path_for-is_download}
use bloop_client_framework.AudioCache.Sync.{IsCached, IsSettled, IsSynced, sync-IsSynced}
use bloop_client_framework.AudioCache.Stale.{contains-expected_paths, expected-is_garbage}
use bloop_client_framework.AudioCache.Stale.Fine.{IsFine}
use bloop_client_framework.AudioCache.Stale.Download.{ensure_inner-cases}
use bloop_client_framework.AudioCache.Stale.Sweep.{Swept, sync-cases}

module _ (P : Protocol) (D : Disk P) {S : Type 0}
    (retrieve_audio : P.Uuid → S → Result Bytes (RequestError P) × S) where
  open D use {FilePath}

  -- Every record has its audio in the cache.
  abbrev pub HasAll : AudioCache P D → List P.AchievementRecord → Machine P D S → Type 0
  HasAll c records s =
      (r : P.AchievementRecord) → IsIn r records → IsCached P D retrieve_audio c r s

  -- A call that succeeds, asks the provider nothing, and leaves all files as they are.
  abbrev pub IsIdle :
      {A : Type 0} → Machine P D S → Result A (AudioCacheError P D) × Machine P D S → Type 0
  IsIdle s (ok _, t) = (t.provider ≡ s.provider) × (t.files ≡ s.files)
  IsIdle s (err _, t) = ⊥

  ensure_inner-IsIdle :
      (c : AudioCache P D) (r : P.AchievementRecord) (s : Machine P D S)
      → IsFine D
      → IsCached P D retrieve_audio c r s
      → IsIdle s (ensure_inner P D retrieve_audio c r s)
  ensure_inner-IsIdle c r s fine cached =
      ensure_inner-cases P D retrieve_audio c r s (IsIdle s) fine (λ _. (refl, refl))
        (λ path _ _. (refl, refl)) λ path e missing. absurd (cc (missing, (cached path e).0))

  -- A sync that skips nothing, asks nothing, and keeps the files that are no garbage.
  abbrev pub IsQuiet :
      List FilePath
      → Machine P D S
      → Result (List P.Uuid) (AudioCacheError P D) × Machine P D S
      → Type 0
  IsQuiet expected s (ok skipped, t) =
      (skipped ≡ [])
      × (t.provider ≡ s.provider)
      × ((p : FilePath) → is_garbage P D retrieve_audio expected p ≡ false → t.files p ≡ s.files p)
  IsQuiet expected s (err _, t) = ⊥

  ensure_records-IsQuiet :
      (c : AudioCache P D) (records : List P.AchievementRecord) (expected : List FilePath)
      (s t : Machine P D S)
      → IsFine D
      → Swept P D retrieve_audio expected s t
      → HasAll c records t
      → IsQuiet expected s (ensure_records P D retrieve_audio c records [] t)
  unfolding ensure_records record_outcome
  ensure_records-IsQuiet c [] expected s t fine swept all = (refl, swept.unasked, swept.kept)
  ensure_records-IsQuiet c (r ∷ records) expected s t fine swept all =
      behind (ensure_inner P D retrieve_audio c r t)
        (ensure_inner-IsIdle c r t fine (all r (inl refl)))
        λ u. ensure_records-IsQuiet c records expected s u fine
    where
      behind :
          (x : Result (Option FilePath) (AudioCacheError P D) × Machine P D S)
          → IsIdle t x
          → ((u : Machine P D S)
              → Swept P D retrieve_audio expected s u
              → HasAll c records u
              → IsQuiet expected s (ensure_records P D retrieve_audio c records [] u))
          → IsQuiet expected s
              (elim (record_outcome P D retrieve_audio r [] x.0)
                as (λ _. Result (List P.Uuid) (AudioCacheError P D) × Machine P D S) [
                  | ok skipped' ↦ ensure_records P D retrieve_audio c records skipped' x.1
                  | err e ↦ (err e, x.1)
                ])
      behind (err e, u) h later = absurd h
      behind (ok o, u) (unasked, same) later =
          later u
            (record {
              unasked = unasked ∙ swept.unasked;
              kept = λ p h. ap (λ f. f p) same ∙ swept.kept p h;
            })
            λ q m path e. (
              ap is_some (ap (λ f. f path) same) ∙ (all q (inr m) path e).0,
              (all q (inr m) path e).1,
            )

  HasAll-Swept :
      (c : AudioCache P D) (records : List P.AchievementRecord) (s t : Machine P D S)
      → Swept P D retrieve_audio (expected_paths P D retrieve_audio c records) s t
      → HasAll c records s
      → HasAll c records t
  HasAll-Swept c records s t swept all r m path e =
      let final = path_for-is_download P D retrieve_audio c r e in
      (
        ap is_some (
              swept.kept path (
                expected-is_garbage P D retrieve_audio (expected_paths P D retrieve_audio c records)
                  path (contains-expected_paths P D retrieve_audio c r records path m e) final))
            ∙ (all r m path e).0,
        final,
      )

  -- Where no operation on the file system fails, and the cache has the audio of every record: a sync
  -- succeeds, skips nothing, asks the provider nothing, and keeps every file that is no garbage.
  pub sync-IsQuiet :
      (c : AudioCache P D) (records : List P.AchievementRecord) (s : Machine P D S)
      → IsFine D
      → HasAll c records s
      → IsQuiet
          (expected_paths P D retrieve_audio c records)
          s
          (sync P D retrieve_audio c records s)
  sync-IsQuiet c records s fine all =
      sync-cases P D retrieve_audio c records s
        (IsQuiet (expected_paths P D retrieve_audio c records) s) fine
        λ t swept.
          ensure_records-IsQuiet c records (expected_paths P D retrieve_audio c records) s t fine
            swept (HasAll-Swept c records s t swept all)

  settled-HasAll :
      (c : AudioCache P D) (records : List P.AchievementRecord) (t : Machine P D S)
      → All (IsSettled P D retrieve_audio c [] t) records
      → HasAll c records t
  settled-HasAll c [] t all r m = absurd m
  settled-HasAll c (q ∷ records) t (first, rest) r (inr m) = settled-HasAll c records t rest r m
  settled-HasAll c (q ∷ records) t (inr cached, rest) r (inl same) =
      subst (λ x. IsCached P D retrieve_audio c x t) (sym same) cached
  settled-HasAll c (q ∷ records) t (inl skipped, rest) r (inl same) = absurd skipped

  -- Where no operation on the file system fails: behind a sync that succeeded and skipped nothing, from
  -- whatever state, another sync with the same records succeeds and skips nothing, asks the provider
  -- nothing, and keeps every file that is no garbage.
  pub sync_again :
      (c : AudioCache P D) (records : List P.AchievementRecord) (s t : Machine P D S)
      → IsFine D
      → sync P D retrieve_audio c records s ≡ (ok [], t)
      → IsQuiet
          (expected_paths P D retrieve_audio c records)
          t
          (sync P D retrieve_audio c records t)
  sync_again c records s t fine e = sync-IsQuiet c records t fine (
      settled-HasAll c records t (
        subst (IsSynced P D retrieve_audio c records) e
          (sync-IsSynced P D retrieve_audio c records s)))
