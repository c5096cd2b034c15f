-- ===== src/AudioCache/Steps.antt =====
-- What each operation of the cache does to the files, and that it leaves the provider as it is.
use bloop_client_framework.Base.{
  Result-cases, true, false, Option, none, some, Bytes, Result, ok, err, ◌≡◌, ◌≢◌, refl, ◌∙◌, ap,
  Bool-cases, Option-cases, inl, inr,
}
use bloop_client_framework.Protocol.{Protocol}
use bloop_client_framework.Request.{RequestError}
use bloop_client_framework.AudioCache.{
  Disk, AudioCacheError, Machine, put, inspect, write_file, rename, retrieve,
}

module _ (P : Protocol) (D : Disk P) {S : Type 0}
    (retrieve_audio : P.Uuid → S → Result Bytes (RequestError P) × S) where
  open D use {FilePath, path_eq, is_download, failure}

  -- Whatever is no temporary file has the same content.
  abbrev pub Keeps : Machine P D S → Machine P D S → Type 0
  Keeps s t = (p : FilePath) → is_download p ≡ false → t.files p ≡ s.files p

  pub put-same :
      (path : FilePath) (content : Option Bytes) (files : FilePath → Option Bytes)
      → put P D retrieve_audio path content files path ≡ content
  put-same path content files = rw ((D.path_eq_iff path path).1 refl) refl

  pub put-other :
      (path p : FilePath) (content : Option Bytes) (files : FilePath → Option Bytes)
      → p ≢ path
      → put P D retrieve_audio path content files p ≡ files p
  put-other path p content files ne = elim (Bool-cases (path_eq p path)) [
    | inl e ↦ absurd (ne ((D.path_eq_iff p path).0 e))
    | inr e ↦ rw e refl
  ]

  pub apart : {p q : FilePath} → is_download p ≡ false → is_download q ≡ true → p ≢ q
  apart h k e = absurd (cc (h, k, ap is_download e))

  -- Each operation, with what is known of the files behind it.
  pub inspect-cases :
      {A : Type 0} (f : (FilePath → Option Bytes) → A) (s : Machine P D S)
      (Q : Result A (AudioCacheError P D) × Machine P D S → Type 0)
      → ((t : Machine P D S) → t.files ≡ s.files → t.provider ≡ s.provider → Q (ok (f s.files), t))
      → ((e : AudioCacheError P D) (t : Machine P D S) → t.files ≡ s.files → Q (err e, t))
      → Q (inspect P D retrieve_audio f s)
  unfolding inspect
  inspect-cases f s Q h k = elim (Option-cases (failure s.operations)) [
    | inl fine ↦ rw (fine, inspect) (h _ refl refl)
    | inr (e, failed) ↦ rw (failed, inspect) (k _ _ refl)
  ]

  pub retrieve-cases :
      (id : P.Uuid) (s : Machine P D S)
      (Q : Result Bytes (AudioCacheError P D) × Machine P D S → Type 0)
      → ((data' : Bytes) (t : Machine P D S)
          → retrieve_audio id s.provider ≡ (ok data', t.provider)
          → t.files ≡ s.files
          → Q (ok data', t))
      → ((e : AudioCacheError P D) (t : Machine P D S) → t.files ≡ s.files → Q (err e, t))
      → Q (retrieve P D retrieve_audio id s)
  unfolding retrieve
  retrieve-cases id s Q h k = elim (Result-cases (retrieve_audio id s.provider).0) [
    | inl (data', e) ↦
        rw (e, retrieve) (h data' _ (ap (λ r. (r, (retrieve_audio id s.provider).1)) e) refl)
    | inr (x, e) ↦ rw (e, retrieve) (k _ _ refl)
  ]

  pub write_file-cases :
      (path : FilePath) (data' : Bytes) (s : Machine P D S)
      (Q : Result (Unit {0}) (AudioCacheError P D) × Machine P D S → Type 0)
      → is_download path ≡ true
      → ((t : Machine P D S)
          → t.files path ≡ some data'
          → Keeps s t
          → t.provider ≡ s.provider
          → Q (ok tt, t))
      → ((e : AudioCacheError P D) (t : Machine P D S) → Keeps s t → Q (err e, t))
      → Q (write_file P D retrieve_audio path data' s)
  unfolding write_file
  write_file-cases path data' s Q temp h k = elim (Option-cases (failure s.operations)) [
    | inl fine ↦
        rw (fine, write_file)
          (h _ (put-same path (some data') s.files)
            (λ p final. put-other path p _ s.files (apart final temp)) refl)
    | inr (e, failed) ↦
        rw (failed, write_file) (k _ _ λ p final. put-other path p _ s.files (apart final temp))
  ]

  pub rename-cases :
      (old new : FilePath) {content : Bytes} (s : Machine P D S)
      (Q : Result (Unit {0}) (AudioCacheError P D) × Machine P D S → Type 0)
      → is_download old ≡ true
      → s.files old ≡ some content
      → ((t : Machine P D S)
          → t.files new ≡ some content
          → ((p : FilePath) → is_download p ≡ false → p ≢ new → t.files p ≡ s.files p)
          → t.provider ≡ s.provider
          → Q (ok tt, t))
      → ((e : AudioCacheError P D) (t : Machine P D S) → t.files ≡ s.files → Q (err e, t))
      → Q (rename P D retrieve_audio old new s)
  unfolding rename
  rename-cases old new s Q temp there h k = elim (Option-cases (failure s.operations)) [
    | inl fine ↦
        rw (fine, rename)
          (rw there (
            h _ (put-same new (some _) (put P D retrieve_audio old none s.files))
              (λ p final ne.
                put-other new p (some _) (put P D retrieve_audio old none s.files) ne
                ∙ put-other old p none s.files (apart final temp))
              refl))
    | inr (e, failed) ↦ rw (failed, rename) (k _ _ refl)
  ]
