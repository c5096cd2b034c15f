-- ===== src/AudioCache/Stale/Fine.antt =====
-- The operations of the file system where they succeed.
use bloop_client_framework.Base.{
  ℕ, ◌+◌, true, Option, none, some, is_some, Bytes, Result, ok, err, ◌≡◌, ◌⊎◌, inl, inr, refl,
  Bool-cases,
}
use bloop_client_framework.Protocol.{Protocol}
use bloop_client_framework.Request.{RequestError}
use bloop_client_framework.AudioCache.{
  Disk, request, AudioCache, Machine, put, inspect, write_file, rename, remove_file, retrieve,
  list_directory,
}

-- Every operation of the file system succeeds.
abbrev pub IsFine : {P : Protocol} → Disk P → Type 0
IsFine D = (n : ℕ) → D.failure n ≡ none

module _ {P : Protocol} {D : Disk P} {S : Type 0} where
  abbrev pub stepped : Machine P D S → Machine P D S
  stepped s = record s { operations = s.operations + 1 }

module _ (P : Protocol) (D : Disk P) {S : Type 0}
    (retrieve_audio : P.Uuid → S → Result Bytes (RequestError P) × S) where
  open D use {FilePath, path_eq, is_download, failure}

  pub inspect-fine :
      {A : Type 0} (f : (FilePath → Option Bytes) → A) (s : Machine P D S)
      → IsFine D
      → inspect P D retrieve_audio f s ≡ (ok (f s.files), stepped s)
  unfolding inspect
  inspect-fine f s fine = rw (fine s.operations, inspect) refl

  pub remove_file-fine :
      (path : FilePath) (s : Machine P D S)
      → IsFine D
      → remove_file P D retrieve_audio path s
        ≡ (ok tt, record (stepped s) { files = put P D retrieve_audio path none s.files })
  unfolding remove_file
  remove_file-fine path s fine = rw (fine s.operations, remove_file) refl

  pub write_file-fine :
      (path : FilePath) (data' : Bytes) (s : Machine P D S)
      → IsFine D
      → write_file P D retrieve_audio path data' s
        ≡ (ok tt, record (stepped s) { files = put P D retrieve_audio path (some data') s.files })
  unfolding write_file
  write_file-fine path data' s fine = rw (fine s.operations, write_file) refl

  pub rename-fine :
      (old new : FilePath) (content : Bytes) (s : Machine P D S)
      → IsFine D
      → s.files old ≡ some content
      → rename P D retrieve_audio old new s ≡ (
        ok tt,
        record (stepped s) {
          files =
              put P D retrieve_audio new (some content) (put P D retrieve_audio old none s.files);
        },
      )
  unfolding rename
  rename-fine old new content s fine there = rw (fine s.operations, there, rename) refl

  pub retrieve-eq-ok :
      (id : P.Uuid) (data' : Bytes) (s : Machine P D S)
      → (retrieve_audio id s.provider).0 ≡ ok data'
      → retrieve P D retrieve_audio id s
        ≡ (ok data', record s { provider = (retrieve_audio id s.provider).1 })
  unfolding retrieve
  retrieve-eq-ok id data' s e = rw (e, retrieve) refl

  pub retrieve-eq-err :
      (id : P.Uuid) (x : RequestError P) (s : Machine P D S)
      → (retrieve_audio id s.provider).0 ≡ err x
      → retrieve P D retrieve_audio id s
        ≡ (err (request x), record s { provider = (retrieve_audio id s.provider).1 })
  unfolding retrieve
  retrieve-eq-err id x s e = rw (e, retrieve) refl

  pub list_directory-fine :
      (c : AudioCache P D) (s : Machine P D S)
      → IsFine D
      → list_directory P D retrieve_audio c s
        ≡ (ok (D.read_dir s.operations s.files c.base_path), stepped s)
  unfolding list_directory
  list_directory-fine c s fine =
      inspect-fine (λ files. D.read_dir s.operations files c.base_path) s fine

  -- A file that is there behind a change of one path was there before, or has that path.
  pub put-present :
      (path p : FilePath) (content : Option Bytes) (files : FilePath → Option Bytes)
      → is_some (put P D retrieve_audio path content files p) ≡ true
      → (is_some (files p) ≡ true) ⊎ ((p ≡ path) × (is_some content ≡ true))
  put-present path p content files h = elim (Bool-cases (path_eq p path)) [
    | inl same ↦ inr ((D.path_eq_iff p path).0 same, rw same at h)
    | inr other ↦ inl (rw other at h)
  ]

  pub put-removed :
      (path p : FilePath) (content : Option Bytes) (files : FilePath → Option Bytes)
      → is_some (put P D retrieve_audio path none (put P D retrieve_audio path content files) p)
        ≡ true
      → is_some (files p) ≡ true
  put-removed path p content files h = elim (Bool-cases (path_eq p path)) [
    | inl same ↦ absurd (cc (rw same at h))
    | inr other ↦ rw other at h
  ]
