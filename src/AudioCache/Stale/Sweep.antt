-- ===== src/AudioCache/Stale/Sweep.antt =====
-- What the first half of a `sync` keeps, where no operation on the file system fails.
use bloop_client_framework.Base.{
  false, List, [], ◌∷◌, none, if◌then◌else◌, Bytes, Result, ok, ◌≡◌, refl, ◌∙◌, ap, Bool-cases, inl,
  inr,
}
use bloop_client_framework.Protocol.{Protocol}
use bloop_client_framework.Request.{RequestError}
use bloop_client_framework.AudioCache.{
  Disk, AudioCacheError, AudioCache, Machine, Cached, ◌>>=◌, ◌>>◌, inspect, remove_file, is_garbage,
  remove_garbage, expected_paths, ensure_records, list_directory, sync, put,
}
use bloop_client_framework.AudioCache.Steps.{put-other}
use bloop_client_framework.AudioCache.Bind.{bind-fine}
use bloop_client_framework.AudioCache.Stale.Fine.{
  IsFine, stepped, inspect-fine, remove_file-fine, list_directory-fine,
}

module _ (P : Protocol) (D : Disk P) {S : Type 0}
    (retrieve_audio : P.Uuid → S → Result Bytes (RequestError P) × S) where
  open D use {FilePath}

  -- The provider was not asked, and what is no garbage has the same content.
  pub record Swept (expected : List FilePath) (s t : Machine P D S) : Type 0 where
    pub unasked : t.provider ≡ s.provider
    pub kept :
        (p : FilePath) → is_garbage P D retrieve_audio expected p ≡ false → t.files p ≡ s.files p

  remove_garbage-Swept :
      (expected entries : List FilePath) (s : Machine P D S)
      → IsFine D
      → (t : Machine P D S) × (remove_garbage P D retrieve_audio expected entries s ≡ (ok tt, t))
        × Swept expected s t
  unfolding remove_garbage
  remove_garbage-Swept expected [] s fine = (
    stepped s,
    inspect-fine P D retrieve_audio (λ files. tt) s fine,
    record { unasked = refl; kept = λ p h. refl },
  )
  remove_garbage-Swept expected (path ∷ paths) s fine =
      bind-fine (inspect P D retrieve_audio λ files. tt)
        (λ _. if is_garbage P D retrieve_audio expected path then removal else rest) s Done
        (inspect-fine P D retrieve_audio (λ files. tt) s fine)
        (elim (Bool-cases (is_garbage P D retrieve_audio expected path)) [
          | inr fresh ↦ rw fresh (
              let (t, e, swept) = remove_garbage-Swept expected paths (stepped s) fine in
              (t, e, record { unasked = swept.unasked; kept = swept.kept }))
          | inl stale ↦ rw stale (
              bind-fine (remove_file P D retrieve_audio path) (λ _. rest) (stepped s) Done
                (remove_file-fine P D retrieve_audio path (stepped s) fine)
                (let (t, e, swept) = remove_garbage-Swept expected paths without fine in
                  (
                    t,
                    e,
                    record {
                      unasked = swept.unasked;
                      kept = λ p h.
                          swept.kept p h
                          ∙ put-other P D retrieve_audio path p none s.files λ same.
                            cc (h, stale, ap (is_garbage P D retrieve_audio expected) same);
                    },
                  )))
        ])
    where
      rest : Cached P D S (Unit {0})
      rest = remove_garbage P D retrieve_audio expected paths

      removal : Cached P D S (Unit {0})
      removal = remove_file P D retrieve_audio path >> rest

      without : Machine P D S
      without = record (stepped (stepped s)) { files = put P D retrieve_audio path none s.files }

      Done : Result (Unit {0}) (AudioCacheError P D) × Machine P D S → Type 0
      Done x = (t : Machine P D S) × (x ≡ (ok tt, t)) × Swept expected s t

  -- A sync comes to what its downloads come to, behind the sweep.
  pub sync-cases :
      (c : AudioCache P D) (records : List P.AchievementRecord) (s : Machine P D S)
      (Q : Result (List P.Uuid) (AudioCacheError P D) × Machine P D S → Type 0)
      → IsFine D
      → ((t : Machine P D S)
          → Swept (expected_paths P D retrieve_audio c records) s t
          → Q (ensure_records P D retrieve_audio c records [] t))
      → Q (sync P D retrieve_audio c records s)
  unfolding sync
  sync-cases c records s Q fine h =
      let (t, e, swept) = remove_garbage-Swept expected entries (stepped (stepped s)) fine in
      bind-fine (inspect P D retrieve_audio λ files. tt)
        (λ _. list_directory P D retrieve_audio c >>= behind_list) s Q
        (inspect-fine P D retrieve_audio (λ files. tt) s fine)
        (bind-fine (list_directory P D retrieve_audio c) behind_list (stepped s) Q
          (list_directory-fine P D retrieve_audio c (stepped s) fine)
          (bind-fine (remove_garbage P D retrieve_audio expected entries)
            (λ _. ensure_records P D retrieve_audio c records []) (stepped (stepped s)) Q e
            (h t (record { unasked = swept.unasked; kept = swept.kept }))))
    where
      expected : List FilePath
      expected = expected_paths P D retrieve_audio c records

      entries : List FilePath
      entries = D.read_dir (stepped s).operations s.files c.base_path

      behind_list : List FilePath → Cached P D S (List P.Uuid)
      behind_list paths =
          remove_garbage P D retrieve_audio expected paths
          >> ensure_records P D retrieve_audio c records []
