-- ===== src/AudioCache/Stale.antt =====
-- What a `sync` leaves of the files that no record refers to, where no operation fails.
pub mod Fine
pub mod Download
pub mod Removal
pub mod Adding
pub mod Sweep
use bloop_client_framework.Base.{
  ℕ, ◌+◌, ◌%◌, Bool, true, false, not, ◌&&◌, ◌||◌, List, [], ◌∷◌, Option, none, some, if◌then◌else◌,
  is_some, Bytes, Result, ok, err, IsIn, ◌≡◌, ◌≢◌, ◌⊎◌, inl, inr, refl, sym, ◌∙◌, ap, subst,
  Bool-cases, Option-cases, Result-cases,
}
use bloop_client_framework.Protocol.{Protocol}
use bloop_client_framework.Request.{RequestError}
use bloop_client_framework.AudioCache.{
  Disk, AudioCacheError, request, AudioCache, Machine, Cached, ◌>>=◌, ◌>>◌, give, put, inspect,
  write_file, rename, remove_file, retrieve, next_temp_path, path_for, download, ensure_path,
  ensure_inner, contains, expected_paths, is_garbage, remove_garbage, record_outcome,
  ensure_records, list_directory, sync,
}
use bloop_client_framework.AudioCache.Ensure.{path_for-is_download}
use bloop_client_framework.AudioCache.Steps.{put-same, put-other, apart}
use bloop_client_framework.AudioCache.Bind.{bind-fine, bind-failed, bind-either}
use bloop_client_framework.AudioCache.Stale.Fine.{
  IsFine, stepped, inspect-fine, remove_file-fine, write_file-fine, rename-fine, retrieve-eq-ok,
  retrieve-eq-err, list_directory-fine, put-present, put-removed,
}
use bloop_client_framework.AudioCache.Stale.Removal.{Cleaned, remove_garbage-Cleaned}
use bloop_client_framework.AudioCache.Stale.Adding.{Adds, ensure_records-Adds}

module _ (P : Protocol) (D : Disk P) {S : Type 0}
    (retrieve_audio : P.Uuid → S → Result Bytes (RequestError P) × S) where
  open D use {FilePath, path_eq, is_download, failure}

  pub contains-expected_paths :
      (c : AudioCache P D) (r : P.AchievementRecord) (records : List P.AchievementRecord)
      (p : FilePath)
      → IsIn r records
      → path_for P D retrieve_audio c r ≡ some p
      → contains P D retrieve_audio (expected_paths P D retrieve_audio c records) p ≡ true
  contains-expected_paths c r [] p m e = absurd m
  contains-expected_paths c r (q ∷ records) p (inl same) e =
      rw
        (
          sym (ap (path_for P D retrieve_audio c) same) ∙ e,
          (D.path_eq_iff p p).1 refl,
          expected_paths,
          contains,
        )
        refl
  contains-expected_paths c r (q ∷ records) p (inr m) e =
      elim (Option-cases (path_for P D retrieve_audio c q)) [
        | inl no_audio ↦ rw (no_audio, expected_paths) (contains-expected_paths c r records p m e)
        | inr (path, e') ↦
            rw (e', expected_paths, contains, contains-expected_paths c r records p m e)
              (either (path_eq path p))
      ]
    where
      either : (b : Bool) → (b || true) ≡ true
      either true = refl
      either false = refl

  pub expected-is_garbage :
      (expected : List FilePath) (p : FilePath)
      → contains P D retrieve_audio expected p ≡ true
      → is_download p ≡ false
      → is_garbage P D retrieve_audio expected p ≡ false
  unfolding is_garbage
  expected-is_garbage expected p h k = rw (h, k) (neither (D.is_mp3 p))
    where
      neither : (b : Bool) → (b && false || false) ≡ false
      neither true = refl
      neither false = refl

  present_is_no_garbage :
      (c : AudioCache P D) (records : List P.AchievementRecord) (s : Machine P D S) (p : FilePath)
      → IsFine D
      → ((n : ℕ) (files : FilePath → Option Bytes)
          → is_some (files p) ≡ true
          → IsIn p (D.read_dir n files c.base_path))
      → is_some ((sync P D retrieve_audio c records s).1.files p) ≡ true
      → is_garbage P D retrieve_audio (expected_paths P D retrieve_audio c records) p ≡ false
  unfolding sync Cleaned Adds
  present_is_no_garbage c records s p fine listed =
      bind-fine (inspect P D retrieve_audio λ files. tt)
        (λ _. list_directory P D retrieve_audio c >>= behind_list) s Clean
        (inspect-fine P D retrieve_audio (λ files. tt) s fine)
        (bind-fine (list_directory P D retrieve_audio c) behind_list (stepped s) Clean
          (list_directory-fine P D retrieve_audio c (stepped s) fine)
          (bind-either (remove_garbage P D retrieve_audio expected entries)
            (λ _. ensure_records P D retrieve_audio c records []) listing Clean
            (λ _ there.
              elim (ensure_records-Adds P D retrieve_audio c records [] swept fine p there) [
                | inl before ↦ clean before
                | inr (r, m, e) ↦
                    expected-is_garbage expected p (contains-expected_paths c r records p m e)
                      (path_for-is_download P D retrieve_audio c r e)
              ])
            (λ _. clean)))
    where
      Clean : {A : Type 0} → A × Machine P D S → Type 0
      Clean x =
          is_some (x.1.files p) ≡ true
          → is_garbage P D retrieve_audio (expected_paths P D retrieve_audio c records) p ≡ false

      expected : List FilePath
      expected = expected_paths P D retrieve_audio c records

      entries : List FilePath
      entries = D.read_dir (s.operations + 1) s.files c.base_path

      behind_list : List FilePath → Cached P D S (List P.Uuid)
      behind_list paths =
          remove_garbage P D retrieve_audio expected paths
          >> ensure_records P D retrieve_audio c records []

      listing : Machine P D S
      listing = stepped (stepped s)

      swept : Machine P D S
      swept = (remove_garbage P D retrieve_audio expected entries listing).1

      clean : is_some (swept.files p) ≡ true → is_garbage P D retrieve_audio expected p ≡ false
      clean there =
          let (before, fresh) =
            remove_garbage-Cleaned P D retrieve_audio expected entries listing fine p there in
          fresh (listed (s.operations + 1) s.files before)

  -- Where every operation on the file system succeeds, and a file of the directory is listed when it
  -- is there: behind a sync, whatever the provider answers, the file is gone if it is garbage, that is
  -- audio that no record refers to, or a leftover of a download.
  pub sync-is_garbage :
      (c : AudioCache P D) (records : List P.AchievementRecord) (s : Machine P D S) (p : FilePath)
      → IsFine D
      → ((n : ℕ) (files : FilePath → Option Bytes)
          → is_some (files p) ≡ true
          → IsIn p (D.read_dir n files c.base_path))
      → is_garbage P D retrieve_audio (expected_paths P D retrieve_audio c records) p ≡ true
      → (sync P D retrieve_audio c records s).1.files p ≡ none
  sync-is_garbage c records s p fine listed garbage =
      elim (Option-cases ((sync P D retrieve_audio c records s).1.files p)) [
        | inl gone ↦ gone
        | inr (content, there) ↦
            absurd
              (cc (garbage, present_is_no_garbage c records s p fine listed (ap is_some there)))
      ]
