-- ===== src/AudioCache/Keep.antt =====
-- What a `sync` never loses, wherever it fails.
use bloop_client_framework.Base.{
  Bool, true, false, ◌||◌, List, [], ◌∷◌, Option, none, some, if◌then◌else◌, Bytes, Result, ok, err,
  ◌≡◌, ◌≢◌, sym, ◌∙◌, ap, Bool-cases, Option-cases, inl, inr, IsIn, ◌⊎◌, refl,
}
use bloop_client_framework.Protocol.{Protocol}
use bloop_client_framework.Request.{RequestError}
use bloop_client_framework.AudioCache.{
  Disk, AudioCacheError, AudioCache, Machine, Cached, ◌>>=◌, ◌>>◌, inspect, remove_file, path_for,
  ensure_path, ensure_inner, is_garbage, remove_garbage, expected_paths, record_outcome,
  ensure_records, list_directory, sync,
}
use bloop_client_framework.AudioCache.Bind.{bind-either}
use bloop_client_framework.AudioCache.Ensure.{
  IsEnsured, ensure_inner-IsEnsured, path_for-is_download,
}
use bloop_client_framework.AudioCache.Steps.{put-other}
use bloop_client_framework.AudioCache.Stale.{contains-expected_paths, expected-is_garbage}

module _ (P : Protocol) (D : Disk P) {S : Type 0}
    (retrieve_audio : P.Uuid → S → Result Bytes (RequestError P) × S) where
  open D use {FilePath, path_eq, is_download, failure}

  module _ (p : FilePath) (content : Bytes) where
    -- The file is there, with this content.
    abbrev Holds : {A : Type 0} → A × Machine P D S → Type 0
    Holds x = x.1.files p ≡ some content

    IsEnsured-Holds :
        (id : P.Uuid) (path : FilePath) (s : Machine P D S)
        (x : Result (Option FilePath) (AudioCacheError P D) × Machine P D S)
        → is_download p ≡ false
        → s.files p ≡ some content
        → IsEnsured P D retrieve_audio id path s x
        → Holds x
    IsEnsured-Holds id path s (ok none, t) final there h = absurd h
    IsEnsured-Holds id path s (err e, t) final there h = h p final ∙ there
    IsEnsured-Holds id path s (ok (some q), t) final there (_, rest, content', held, before) =
        elim (Bool-cases (path_eq p path)) [
          | inr other ↦ rest p final (λ e. cc (other, (D.path_eq_iff p path).1 e)) ∙ there
          | inl e ↦
              let same : p ≡ path = (D.path_eq_iff p path).0 e in
              let was : s.files path ≡ some content = ap s.files (sym same) ∙ there in
              elim before [
                | inl (kept, _) ↦ ap t.files same ∙ held ∙ sym kept ∙ was
                | inr (missing, _) ↦ absurd (cc (missing, was))
              ]
        ]

    ensure_inner-Holds :
        (c : AudioCache P D) (r : P.AchievementRecord) (s : Machine P D S)
        → is_download p ≡ false
        → s.files p ≡ some content
        → Holds (ensure_inner P D retrieve_audio c r s)
    ensure_inner-Holds c r s final there = elim (Option-cases (path_for P D retrieve_audio c r)) [
      | inl no_audio ↦ unfold ensure_inner ensure_path in rw no_audio there
      | inr (path, e) ↦
          IsEnsured-Holds (P.record_id r) path s _ final there
            (ensure_inner-IsEnsured P D retrieve_audio c r path s e)
    ]

    ensure_records-Holds :
        (c : AudioCache P D) (records : List P.AchievementRecord) (skipped : List P.Uuid)
        (s : Machine P D S)
        → is_download p ≡ false
        → s.files p ≡ some content
        → Holds (ensure_records P D retrieve_audio c records skipped s)
    unfolding ensure_records
    ensure_records-Holds c [] skipped s final there = there
    ensure_records-Holds c (r ∷ records) skipped s final there =
        behind
          (record_outcome P D retrieve_audio r skipped (ensure_inner P D retrieve_audio c r s).0)
          (ensure_inner-Holds c r s final there)
          λ skipped'.
            ensure_records-Holds c records skipped' t final (ensure_inner-Holds c r s final there)
      where
        t : Machine P D S
        t = (ensure_inner P D retrieve_audio c r s).1

        behind :
            (y : Result (List P.Uuid) (AudioCacheError P D))
            → t.files p ≡ some content
            → ((skipped' : List P.Uuid)
                → Holds (ensure_records P D retrieve_audio c records skipped' t))
            → Holds (elim y as (λ _. Result (List P.Uuid) (AudioCacheError P D) × Machine P D S) [
              | ok skipped' ↦ ensure_records P D retrieve_audio c records skipped' t
              | err e ↦ (err e, t)
            ])
        behind (ok skipped') h later = later skipped'
        behind (err e) h later = h

    inspect-Holds :
        {A : Type 0} (f : (FilePath → Option Bytes) → A) (s : Machine P D S)
        → s.files p ≡ some content
        → Holds (inspect P D retrieve_audio f s)
    unfolding inspect
    inspect-Holds f s there = elim (Option-cases (failure s.operations)) [
      | inl fine ↦ rw (fine, inspect) there
      | inr (e, failed) ↦ rw (failed, inspect) there
    ]

    remove_file-Holds :
        (path : FilePath) (s : Machine P D S)
        → p ≢ path
        → s.files p ≡ some content
        → Holds (remove_file P D retrieve_audio path s)
    unfolding remove_file
    remove_file-Holds path s ne there = elim (Option-cases (failure s.operations)) [
      | inl fine ↦
          rw (fine, remove_file) (put-other P D retrieve_audio path p none s.files ne ∙ there)
      | inr (e, failed) ↦ rw (failed, remove_file) there
    ]

    -- Two operations that keep the file.
    bind-Holds :
        {A B : Type 0} (m : Cached P D S A) (f : A → Cached P D S B) (s : Machine P D S)
        → Holds (m s)
        → ((a : A) (t : Machine P D S) → t.files p ≡ some content → Holds (f a t))
        → Holds ((m >>= f) s)
    bind-Holds m f s h k = bind-either m f s Holds (λ a. k a (m s).1 h) λ x. h

    remove_garbage-Holds :
        (expected entries : List FilePath) (s : Machine P D S)
        → is_garbage P D retrieve_audio expected p ≡ false
        → s.files p ≡ some content
        → Holds (remove_garbage P D retrieve_audio expected entries s)
    unfolding remove_garbage
    remove_garbage-Holds expected [] s good there = inspect-Holds (λ files. tt) s there
    remove_garbage-Holds expected (path ∷ paths) s good there =
        bind-Holds (inspect P D retrieve_audio λ files. tt)
          (λ _. if is_garbage P D retrieve_audio expected path then removal else rest) s
          (inspect-Holds (λ files. tt) s there)
          λ _ t there'. elim (Bool-cases (is_garbage P D retrieve_audio expected path)) [
            | inr fresh ↦ rw fresh (remove_garbage-Holds expected paths t good there')
            | inl stale ↦ rw stale (
                bind-Holds (remove_file P D retrieve_audio path) (λ _. rest) t
                  (remove_file-Holds path t
                    (λ same. cc (good, stale, ap (is_garbage P D retrieve_audio expected) same))
                    there')
                  λ _ u there''. remove_garbage-Holds expected paths u good there'')
          ]
      where
        rest : Cached P D S (Unit {0})
        rest = remove_garbage P D retrieve_audio expected paths

        removal : Cached P D S (Unit {0})
        removal = remove_file P D retrieve_audio path >> rest

    lasting_is_final :
        (expected : List FilePath)
        → is_garbage P D retrieve_audio expected p ≡ false
        → is_download p ≡ false
    unfolding is_garbage
    lasting_is_final expected good = elim (Bool-cases (is_download p)) [
      | inr e ↦ e
      | inl e ↦ absurd (either _ (rw e at good))
    ]
      where
        either : (b : Bool) → (b || true) ≡ false → ⊥
        either true h = cc
        either false h = cc

    -- The audio of one of the records, or a file that is neither audio nor a leftover.
    abbrev pub IsLasting : AudioCache P D → List P.AchievementRecord → Type 0
    IsLasting c records =
        ((r : P.AchievementRecord) × IsIn r records × (path_for P D retrieve_audio c r ≡ some p))
        ⊎ ((D.is_mp3 p ≡ false) × (is_download p ≡ false))

    IsLasting-is_garbage :
        (c : AudioCache P D) (records : List P.AchievementRecord)
        → IsLasting c records
        → is_garbage P D retrieve_audio (expected_paths P D retrieve_audio c records) p ≡ false
    unfolding is_garbage
    IsLasting-is_garbage c records (inl (r, m, e)) =
        expected-is_garbage P D retrieve_audio (expected_paths P D retrieve_audio c records) p
          (contains-expected_paths P D retrieve_audio c r records p m e)
          (path_for-is_download P D retrieve_audio c r e)
    IsLasting-is_garbage c records (inr (other, final)) = rw (other, final) refl

    -- From whatever state, whatever the directory lists and the provider answers, and wherever a sync
    -- fails: a file that is the audio of one of the records, or neither audio nor a leftover of a
    -- download, is still there behind the sync, with the same content.
    pub sync-Holds :
        (c : AudioCache P D) (records : List P.AchievementRecord) (s : Machine P D S)
        → IsLasting c records
        → s.files p ≡ some content
        → (sync P D retrieve_audio c records s).1.files p ≡ some content
    unfolding sync list_directory
    sync-Holds c records s lasting there =
        bind-Holds (inspect P D retrieve_audio λ files. tt)
          (λ _. list_directory P D retrieve_audio c >>= behind_list) s
          (inspect-Holds (λ files. tt) s there)
          λ _ t there'.
            bind-Holds (list_directory P D retrieve_audio c) behind_list t
              (inspect-Holds (λ files. D.read_dir t.operations files c.base_path) t there')
              λ entries u there''.
                bind-Holds (remove_garbage P D retrieve_audio expected entries)
                  (λ _. ensure_records P D retrieve_audio c records []) u
                  (remove_garbage-Holds expected entries u good there'')
                  λ _ v there'''.
                    ensure_records-Holds c records [] v (lasting_is_final expected good) there'''
      where
        good : is_garbage P D retrieve_audio (expected_paths P D retrieve_audio c records) p ≡ false
        good = IsLasting-is_garbage c records lasting

        expected : List FilePath
        expected = expected_paths P D retrieve_audio c records

        behind_list : List FilePath → Cached P D S (List P.Uuid)
        behind_list paths =
            remove_garbage P D retrieve_audio expected paths
            >> ensure_records P D retrieve_audio c records []
