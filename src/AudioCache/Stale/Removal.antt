-- ===== src/AudioCache/Stale/Removal.antt =====
-- What the loop over the directory removes.
use bloop_client_framework.Base.{
  true, false, List, [], ◌∷◌, none, if◌then◌else◌, is_some, Bytes, Result, IsIn, ◌≡◌, inl, inr, sym,
  ◌∙◌, ap, Bool-cases,
}
use bloop_client_framework.Protocol.{Protocol}
use bloop_client_framework.Request.{RequestError}
use bloop_client_framework.AudioCache.{
  Disk, Machine, Cached, ◌>>◌, put, inspect, remove_file, is_garbage, remove_garbage,
}
use bloop_client_framework.AudioCache.Steps.{put-same}
use bloop_client_framework.AudioCache.Bind.{bind-fine}
use bloop_client_framework.AudioCache.Stale.Fine.{
  IsFine, stepped, inspect-fine, remove_file-fine, put-present,
}

module _ (P : Protocol) (D : Disk P) {S : Type 0}
    (retrieve_audio : P.Uuid → S → Result Bytes (RequestError P) × S) where
  open D use {FilePath, path_eq, is_download, failure}

  -- What the loop over the directory leaves: nothing new, and no garbage that was listed.
  unfoldable pub Cleaned : List FilePath → List FilePath → Machine P D S → Machine P D S → Type 0
  Cleaned expected entries s t =
      (p : FilePath)
      → is_some (t.files p) ≡ true
      → (is_some (s.files p) ≡ true)
        × (IsIn p entries → is_garbage P D retrieve_audio expected p ≡ false)

  pub remove_garbage-Cleaned :
      (expected entries : List FilePath) (s : Machine P D S)
      → IsFine D
      → Cleaned expected entries s (remove_garbage P D retrieve_audio expected entries s).1
  unfolding remove_garbage Cleaned
  remove_garbage-Cleaned expected [] s fine =
      rw (inspect-fine P D retrieve_audio (λ files. tt) s fine, remove_garbage)
        λ p h. (h, λ m. absurd m)
  remove_garbage-Cleaned expected (path ∷ paths) s fine =
      bind-fine (inspect P D retrieve_audio λ files. tt)
        (λ _. if is_garbage P D retrieve_audio expected path then removal else rest) s
        (λ x. Cleaned expected (path ∷ paths) s x.1)
        (inspect-fine P D retrieve_audio (λ files. tt) s fine)
        (elim (Bool-cases (is_garbage P D retrieve_audio expected path)) [
          | inl stale ↦ rw stale (
              bind-fine (remove_file P D retrieve_audio path) (λ _. rest) (stepped s)
                (λ x. Cleaned expected (path ∷ paths) s x.1)
                (remove_file-fine P D retrieve_audio path (stepped s) fine)
                (removed (rest (without s)).1
                  (remove_garbage-Cleaned expected paths (without s) fine)))
          | inr fresh ↦ rw fresh (
              kept (rest (stepped s)).1 fresh
                (remove_garbage-Cleaned expected paths (stepped s) fine))
        ])
    where
      rest : Cached P D S (Unit {0})
      rest = remove_garbage P D retrieve_audio expected paths

      removal : Cached P D S (Unit {0})
      removal = remove_file P D retrieve_audio path >> rest

      without : Machine P D S → Machine P D S
      without s = record (stepped (stepped s)) { files = put P D retrieve_audio path none s.files }

      gone : (p : FilePath) → p ≡ path → is_some ((without s).files p) ≡ true → ⊥
      gone p same there = cc (
          sym (
            ap is_some (
              ap (put P D retrieve_audio path none s.files) same
              ∙ put-same P D retrieve_audio path none s.files))
          ∙ there)

      removed :
          (t : Machine P D S)
          → Cleaned expected paths (without s) t
          → Cleaned expected (path ∷ paths) s t
      removed t h p there =
          let (before, clean) = h p there in
          elim (put-present P D retrieve_audio path p none s.files before) [
            | inl there' ↦
                (there', λ m. elim m [ inl same ↦ absurd (gone p same before) | inr m' ↦ clean m' ])
            | inr (_, x) ↦ absurd cc
          ]

      kept :
          (t : Machine P D S)
          → is_garbage P D retrieve_audio expected path ≡ false
          → Cleaned expected paths (stepped s) t
          → Cleaned expected (path ∷ paths) s t
      kept t fresh h p there =
          let (before, clean) = h p there in
          (
            before,
            λ m. elim m [
              | inl same ↦ ap (is_garbage P D retrieve_audio expected) same ∙ fresh
              | inr m' ↦ clean m'
            ],
          )
