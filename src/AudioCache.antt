-- ===== src/AudioCache.antt =====
-- src/audio_cache.rs: the cache of audio files. A file system is a map from paths to contents, whose
-- operations fail as the parameter says; a failed write may leave anything under the path.
pub mod Again
pub mod Bind
pub mod Complete
pub mod Ensure
pub mod Hook
pub mod Keep
pub mod Online
pub mod Stale
pub mod Steps
pub mod Sync
use bloop_client_framework.Base.{
  ℕ, ◌+◌, ◌%◌, Bool, true, false, not, ◌&&◌, ◌||◌, List, [], ◌∷◌, ◌++◌, Option, none, some,
  if◌then◌else◌, is_some, Bytes, Result, ok, err, ◌≡◌, ◌↔◌,
}
use bloop_client_framework.Protocol.{Protocol}
use bloop_client_framework.Request.{RequestError, error}

-- The file system and its paths. Joined are the base path and the formatted names; of an extension
-- the code only asks whether it is "mp3" or "download".
pub record Disk (P : Protocol) : Type 1 where
  pub FilePath : Type 0
  pub path_eq : FilePath → FilePath → Bool
  pub path_eq_iff : (a b : FilePath) → (path_eq a b ≡ true) ↔ (a ≡ b)
  pub audio_path : FilePath → P.Uuid → P.DataHash → FilePath
  pub download_path : FilePath → P.Uuid → ℕ → FilePath
  pub is_mp3 : FilePath → Bool
  pub is_download : FilePath → Bool
  pub audio_path-is_download :
      (base : FilePath) (id : P.Uuid) (hash : P.DataHash)
      → is_download (audio_path base id hash) ≡ false
  pub download_path-is_download :
      (base : FilePath) (id : P.Uuid) (n : ℕ) → is_download (download_path base id n) ≡ true
  pub IoError : Type 0
  -- whether the n-th operation fails, what a failed write leaves, and what a directory lists
  pub failure : ℕ → Option IoError
  pub torn : ℕ → Option Bytes
  pub not_found : IoError
  pub read_dir : ℕ → (FilePath → Option Bytes) → FilePath → List FilePath

pub data AudioCacheError (P : Protocol) (D : Disk P) : Type 0 where
  io : D.IoError → AudioCacheError P D
  request : RequestError P → AudioCacheError P D

pub record AudioCache (P : Protocol) (D : Disk P) : Type 0 where
  pub base_path : D.FilePath

abbrev pub new : {P : Protocol} {D : Disk P} → D.FilePath → AudioCache P D
new base_path = record { base_path = base_path }

-- What an operation of the cache may change: the files, the number of operations so far, the counter
-- `TEMP_COUNTER`, and the state of the provider.
pub record Machine (P : Protocol) (D : Disk P) (S : Type 0) : Type 0 where
  pub files : D.FilePath → Option Bytes
  pub operations : ℕ
  pub temp_counter : ℕ
  pub provider : S

-- A fallible operation of the cache, and the `?` operator.
abbrev pub Cached : (P : Protocol) → Disk P → Type 0 → Type 0 → Type 0
Cached P D S A = Machine P D S → Result A (AudioCacheError P D) × Machine P D S

module _ {P : Protocol} {D : Disk P} {S A B : Type 0} where
  infixl 5 ◌>>=◌
  abbrev pub ◌>>=◌ : Cached P D S A → (A → Cached P D S B) → Cached P D S B
  ◌>>=◌ m f s = let (r, t) = m s in elim r [ ok a ↦ f a t | err e ↦ (err e, t) ]

module _ {P : Protocol} {D : Disk P} {S B : Type 0} where
  infixl 5 ◌>>◌
  abbrev pub ◌>>◌ : Cached P D S (Unit {0}) → Cached P D S B → Cached P D S B
  m >> k = m >>= λ _. k

abbrev pub give : {P : Protocol} {D : Disk P} {S A : Type 0} → A → Cached P D S A
give a s = (ok a, s)

module _ (P : Protocol) (D : Disk P) {S : Type 0}
    (retrieve_audio : P.Uuid → S → Result Bytes (RequestError P) × S) where
  open P use {AchievementRecord, Uuid, record_id, audio_hash, is_fatal}
  open D use {
    FilePath, path_eq, audio_path, download_path, is_mp3, is_download, IoError, failure, torn,
    not_found, read_dir,
  }

  -- The files with one path changed.
  abbrev pub put : FilePath → Option Bytes → (FilePath → Option Bytes) → FilePath → Option Bytes
  put path content files p = if path_eq p path then content else files p

  -- An operation that fails, or reads the files.
  unfoldable pub inspect : {A : Type 0} → ((FilePath → Option Bytes) → A) → Cached P D S A
  inspect f s =
      let t = record s { operations = s.operations + 1 } in
      elim (failure s.operations) [ some e ↦ (err (io e), t) | none ↦ (ok (f s.files), t) ]

  unfoldable pub write_file : FilePath → Bytes → Cached P D S (Unit {0})
  write_file path data' s = elim (failure s.operations) [
    | some e ↦ (
      err (io e),
      record s { operations = s.operations + 1; files = put path (torn s.operations) s.files },
    )
    | none ↦
        (ok tt, record s { operations = s.operations + 1; files = put path (some data') s.files })
  ]

  unfoldable pub rename : FilePath → FilePath → Cached P D S (Unit {0})
  rename old new s =
      let t = record s { operations = s.operations + 1 } in
      elim (failure s.operations) [
        | some e ↦ (err (io e), t)
        | none ↦ elim (s.files old) [
          | none ↦ (err (io not_found), t)
          | some content ↦
              (ok tt, record t { files = put new (some content) (put old none s.files) })
        ]
      ]

  -- `let _ = fs::remove_file(…)`
  unfoldable pub remove_file : FilePath → Cached P D S (Unit {0})
  remove_file path s =
      let t = record s { operations = s.operations + 1 } in
      elim (failure s.operations) [
        | some _ ↦ (ok tt, t)
        | none ↦ (ok tt, record t { files = put path none s.files })
      ]

  unfoldable pub retrieve : Uuid → Cached P D S Bytes
  retrieve id s =
      let (r, after) = retrieve_audio id s.provider in
      let t = record s { provider = after } in
      elim r [ ok data' ↦ (ok data', t) | err e ↦ (err (request e), t) ]

  unfoldable pub next_temp_path : AudioCache P D → AchievementRecord → Cached P D S FilePath
  next_temp_path c r s = (
    ok (download_path c.base_path (record_id r) s.temp_counter),
    record s { temp_counter = (s.temp_counter + 1) % 18446744073709551616 },
  )

  unfoldable pub path_for : AudioCache P D → AchievementRecord → Option FilePath
  path_for c r = elim (audio_hash r) [
    | none ↦ none
    | some hash ↦ some (audio_path c.base_path (record_id r) hash)
  ]

  -- The download of `ensure_inner`, and what follows the test of the path.
  unfoldable pub download :
      AudioCache P D → AchievementRecord → FilePath → Cached P D S (Option FilePath)
  unfolding inspect retrieve next_temp_path write_file rename
  download c r path = do
    inspect λ files. tt
    data' ← retrieve (record_id r)
    temp_path ← next_temp_path c r
    write_file temp_path data'
    rename temp_path path
    give (some path)

  unfoldable pub ensure_path :
      AudioCache P D → AchievementRecord → Option FilePath → Cached P D S (Option FilePath)
  unfolding inspect download
  ensure_path c r none = give none
  ensure_path c r (some path) = do
    exists ← inspect λ files. is_some (files path)
    if exists then give (some path) else download c r path

  unfoldable pub ensure_inner : AudioCache P D → AchievementRecord → Cached P D S (Option FilePath)
  unfolding ensure_path path_for
  ensure_inner c r = ensure_path c r (path_for c r)

  abbrev pub contains : List FilePath → FilePath → Bool
  contains [] path = false
  contains (p ∷ paths) path = path_eq p path || contains paths path

  abbrev pub expected_paths : AudioCache P D → List AchievementRecord → List FilePath
  expected_paths c [] = []
  expected_paths c (r ∷ records) =
      let rest = expected_paths c records in
      elim (path_for c r) [ none ↦ rest | some path ↦ path ∷ rest ]

  -- Stale audio, or a leftover of a download.
  unfoldable pub is_garbage : List FilePath → FilePath → Bool
  is_garbage expected path = is_mp3 path && not (contains expected path) || is_download path

  -- The loop over the entries of the directory; each `next_entry` may fail, the last one too.
  unfoldable pub remove_garbage : List FilePath → List FilePath → Cached P D S (Unit {0})
  unfolding inspect remove_file is_garbage
  remove_garbage expected [] = inspect λ files. tt
  remove_garbage expected (path ∷ paths) =
      let rest = remove_garbage expected paths in
      (inspect λ files. tt) >> (if is_garbage expected path then remove_file path >> rest else rest)

  -- What a record's result makes of the list of those skipped, or of the sync.
  unfoldable pub record_outcome :
      AchievementRecord
      → List Uuid
      → Result (Option FilePath) (AudioCacheError P D)
      → Result (List Uuid) (AudioCacheError P D)
  record_outcome r skipped (ok _) = ok skipped
  record_outcome r skipped (err (request (error e))) =
      if is_fatal e then err (request (error e)) else ok (skipped ++ record_id r ∷ [])
  record_outcome r skipped (err e) = err e

  unfoldable pub ensure_records :
      AudioCache P D → List AchievementRecord → List Uuid → Cached P D S (List Uuid)
  unfolding ensure_inner record_outcome
  ensure_records c [] skipped s = (ok skipped, s)
  ensure_records c (r ∷ records) skipped s =
      let (x, t) = ensure_inner c r s in
      elim (record_outcome r skipped x) [
        | ok skipped' ↦ ensure_records c records skipped' t
        | err e ↦ (err e, t)
      ]

  unfoldable pub list_directory : AudioCache P D → Cached P D S (List FilePath)
  unfolding inspect
  list_directory c s = inspect (λ files. read_dir s.operations files c.base_path) s

  unfoldable pub sync : AudioCache P D → List AchievementRecord → Cached P D S (List Uuid)
  unfolding inspect list_directory remove_garbage ensure_records
  sync c records = do
    inspect λ files. tt
    entries ← list_directory c
    remove_garbage (expected_paths c records) entries
    ensure_records c records []
