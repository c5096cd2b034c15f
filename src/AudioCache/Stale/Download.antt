-- ===== src/AudioCache/Stale/Download.antt =====
-- A download where no operation on the file system fails.
use bloop_client_framework.Base.{
  ◌+◌, ◌%◌, true, false, Option, none, some, if◌then◌else◌, is_some, Bytes, Result, ok, err, ◌≡◌,
  inl, inr, Bool-cases, Option-cases, Result-cases,
}
use bloop_client_framework.Protocol.{Protocol}
use bloop_client_framework.Request.{RequestError}
use bloop_client_framework.AudioCache.{
  Disk, AudioCacheError, request, AudioCache, Machine, Cached, ◌>>=◌, ◌>>◌, give, put, inspect,
  write_file, rename, retrieve, next_temp_path, path_for, download, ensure_path, ensure_inner,
}
use bloop_client_framework.AudioCache.Steps.{put-same}
use bloop_client_framework.AudioCache.Bind.{bind-fine, bind-failed}
use bloop_client_framework.AudioCache.Stale.Fine.{
  IsFine, stepped, inspect-fine, write_file-fine, rename-fine, retrieve-eq-ok, retrieve-eq-err,
}

module _ (P : Protocol) (D : Disk P) {S : Type 0}
    (retrieve_audio : P.Uuid → S → Result Bytes (RequestError P) × S) where
  open D use {FilePath}

  -- The machine behind the provider's answer, and with the file that it gave.
  abbrev pub asked : P.Uuid → Machine P D S → Machine P D S
  asked id s = record (stepped s) { provider = (retrieve_audio id s.provider).1 }

  abbrev pub counted : P.Uuid → Machine P D S → Machine P D S
  counted id s = record (asked id s) { temp_counter = (s.temp_counter + 1) % 18446744073709551616 }

  abbrev pub moved : P.Uuid → FilePath → FilePath → Bytes → Machine P D S → Machine P D S
  moved id temp path data' s = record (stepped (stepped (counted id s))) {
    files =
        put P D retrieve_audio path (some data')
          (put P D retrieve_audio temp none (put P D retrieve_audio temp (some data') s.files));
  }

  -- A download comes to what the provider answers.
  pub download-cases :
      (c : AudioCache P D) (r : P.AchievementRecord) (path : FilePath) (s : Machine P D S)
      (Q : Result (Option FilePath) (AudioCacheError P D) × Machine P D S → Type 0)
      → IsFine D
      → ((data' : Bytes)
          → (retrieve_audio (P.record_id r) s.provider).0 ≡ ok data'
          → Q (
            ok (some path),
            moved
                (P.record_id r)
                (D.download_path c.base_path (P.record_id r) s.temp_counter)
                path
                data'
                s,
          ))
      → ((x : RequestError P)
          → (retrieve_audio (P.record_id r) s.provider).0 ≡ err x
          → Q (err (request x), asked (P.record_id r) s))
      → Q (download P D retrieve_audio c r path s)
  unfolding download next_temp_path
  download-cases c r path s Q fine h k =
      bind-fine (inspect P D retrieve_audio λ files. tt) behind_inspect s Q
        (inspect-fine P D retrieve_audio (λ files. tt) s fine)
        (elim (Result-cases (retrieve_audio (P.record_id r) s.provider).0) [
          | inl (data', e) ↦
              bind-fine (retrieve P D retrieve_audio (P.record_id r)) behind_retrieve (stepped s) Q
                (retrieve-eq-ok P D retrieve_audio (P.record_id r) data' (stepped s) e)
                (written data' (h data' e))
          | inr (x, e) ↦
              bind-failed (retrieve P D retrieve_audio (P.record_id r)) behind_retrieve (stepped s)
                Q (retrieve-eq-err P D retrieve_audio (P.record_id r) x (stepped s) e) (k x e)
        ])
    where
      temp : FilePath
      temp = D.download_path c.base_path (P.record_id r) s.temp_counter

      behind_write : FilePath → Cached P D S (Option FilePath)
      behind_write t = rename P D retrieve_audio t path >> give (some path)

      behind_retrieve : Bytes → Cached P D S (Option FilePath)
      behind_retrieve data' = next_temp_path P D retrieve_audio c r >>= λ t.
          write_file P D retrieve_audio t data' >> behind_write t

      behind_inspect : Unit {0} → Cached P D S (Option FilePath)
      behind_inspect _ = retrieve P D retrieve_audio (P.record_id r) >>= behind_retrieve

      holding : Bytes → Machine P D S
      holding data' = record (stepped (counted (P.record_id r) s)) {
        files = put P D retrieve_audio temp (some data') s.files;
      }

      written :
          (data' : Bytes)
          → Q (ok (some path), moved (P.record_id r) temp path data' s)
          → Q (behind_retrieve data' (asked (P.record_id r) s))
      written data' q =
          bind-fine (write_file P D retrieve_audio temp data') (λ _. behind_write temp)
            (counted (P.record_id r) s) Q
            (write_file-fine P D retrieve_audio temp data' (counted (P.record_id r) s) fine)
            (bind-fine (rename P D retrieve_audio temp path) (λ _. give (some path)) (holding data')
              Q
              (rename-fine P D retrieve_audio temp path data' (holding data') fine
                (put-same P D retrieve_audio temp (some data') s.files))
              q)

  -- A call for a record finds that there is no audio, or the file, or downloads it.
  pub ensure_inner-cases :
      (c : AudioCache P D) (r : P.AchievementRecord) (s : Machine P D S)
      (Q : Result (Option FilePath) (AudioCacheError P D) × Machine P D S → Type 0)
      → IsFine D
      → (path_for P D retrieve_audio c r ≡ none → Q (ok none, s))
      → ((path : FilePath)
          → path_for P D retrieve_audio c r ≡ some path
          → is_some (s.files path) ≡ true
          → Q (ok (some path), stepped s))
      → ((path : FilePath)
          → path_for P D retrieve_audio c r ≡ some path
          → is_some (s.files path) ≡ false
          → Q (download P D retrieve_audio c r path (stepped s)))
      → Q (ensure_inner P D retrieve_audio c r s)
  unfolding ensure_inner ensure_path
  ensure_inner-cases c r s Q fine h k m = elim (Option-cases (path_for P D retrieve_audio c r)) [
    | inl no_audio ↦ rw no_audio (h no_audio)
    | inr (path, e) ↦ rw e (
        bind-fine (inspect P D retrieve_audio λ files. is_some (files path))
          (λ exists. if exists then give (some path) else download P D retrieve_audio c r path) s Q
          (inspect-fine P D retrieve_audio (λ files. is_some (files path)) s fine)
          (elim (Bool-cases (is_some (s.files path))) [
            | inl exists ↦ rw exists (k path e exists)
            | inr missing ↦ rw missing (m path e missing)
          ]))
  ]
