-- ===== src/AudioCache/Ensure.antt =====
-- What `ensure` does to the files, wherever it fails.
use bloop_client_framework.Base.{
  false, Option, none, some, if◌then◌else◌, is_some, Bytes, Result, ok, err, ◌≡◌, ◌≢◌, refl, sym,
  ◌∙◌, ap, subst, Option-cases, inl, inr, ◌⊎◌,
}
use bloop_client_framework.Protocol.{Protocol}
use bloop_client_framework.Request.{RequestError}
use bloop_client_framework.AudioCache.{
  Disk, AudioCacheError, AudioCache, Machine, Cached, ◌>>=◌, ◌>>◌, give, write_file, rename,
  retrieve, next_temp_path, path_for, download, ensure_path, ensure_inner,
}
use bloop_client_framework.AudioCache.Steps.{
  Keeps, inspect-cases, retrieve-cases, write_file-cases, rename-cases,
}

module _ (P : Protocol) (D : Disk P) {S : Type 0}
    (retrieve_audio : P.Uuid → S → Result Bytes (RequestError P) × S) where
  open D use {FilePath, path_eq, is_download, failure}

  -- What a call from the files of `s` on may end in, for a record with this path: where it fails no
  -- file but a temporary one has changed, and where it succeeds only that path may have, and holds
  -- what it held before, with the provider as it was, or, if it held nothing, all of what the
  -- provider returned when asked once.
  abbrev pub IsEnsured :
      P.Uuid
      → FilePath
      → Machine P D S
      → Result (Option FilePath) (AudioCacheError P D) × Machine P D S
      → Type 0
  IsEnsured id path s (ok none, t) = ⊥
  IsEnsured id path s (ok (some q), t) =
      (q ≡ path)
      × ((p : FilePath) → is_download p ≡ false → p ≢ path → t.files p ≡ s.files p)
      × (content : Bytes) × (t.files path ≡ some content)
      × (((s.files path ≡ some content) × (t.provider ≡ s.provider))
          ⊎ ((s.files path ≡ none) × (retrieve_audio id s.provider ≡ (ok content, t.provider))))
  IsEnsured id path s (err _, t) = Keeps P D retrieve_audio s t

  After :
      {A B : Type 0}
      → (Result B (AudioCacheError P D) × Machine P D S → Type 0)
      → (A → Cached P D S B)
      → Result A (AudioCacheError P D) × Machine P D S
      → Type 0
  After Q f x = Q (elim x.0 [ ok a ↦ f a x.1 | err e ↦ (err e, x.1) ])

  download-IsEnsured :
      (c : AudioCache P D) (r : P.AchievementRecord) (path : FilePath) (s u : Machine P D S)
      → is_download path ≡ false
      → s.files path ≡ none
      → u.files ≡ s.files
      → u.provider ≡ s.provider
      → IsEnsured (P.record_id r) path s (download P D retrieve_audio c r path u)
  unfolding download After next_temp_path
  download-IsEnsured c r path s u final missing e k =
      inspect-cases P D retrieve_audio (λ files. tt) u
        (After (IsEnsured (P.record_id r) path s)
          λ _. retrieve P D retrieve_audio (P.record_id r) >>= λ data'. behind_retrieve data')
        (λ t₁ e₁ k₁.
          retrieve-cases P D retrieve_audio (P.record_id r) t₁
            (After (IsEnsured (P.record_id r) path s) behind_retrieve)
            (λ data' t₂ got e₂.
              written data' t₂
                (subst (λ state. retrieve_audio (P.record_id r) state ≡ (ok data', t₂.provider))
                  (k₁ ∙ k) got)
                (e₂ ∙ e₁ ∙ e))
            (λ x t₂ e₂ p q. ap (λ f. f p) (e₂ ∙ e₁ ∙ e)))
        (λ x t₁ e₁ p q. ap (λ f. f p) (e₁ ∙ e))
    where
      behind_write : FilePath → Cached P D S (Option FilePath)
      behind_write temp = rename P D retrieve_audio temp path >> give (some path)

      behind_retrieve : Bytes → Cached P D S (Option FilePath)
      behind_retrieve data' = next_temp_path P D retrieve_audio c r >>= λ temp.
          write_file P D retrieve_audio temp data' >> behind_write temp

      written :
          (data' : Bytes) (t₂ : Machine P D S)
          → retrieve_audio (P.record_id r) s.provider ≡ (ok data', t₂.provider)
          → t₂.files ≡ s.files
          → IsEnsured (P.record_id r) path s (behind_retrieve data' t₂)
      written data' t₂ got e₂ =
          write_file-cases P D retrieve_audio temp data'
            (next_temp_path P D retrieve_audio c r t₂).1
            (After (IsEnsured (P.record_id r) path s) λ _. behind_write temp)
            (D.download_path-is_download _ _ _)
            (λ t₃ held kept k₃.
              rename-cases P D retrieve_audio temp path t₃
                (After (IsEnsured (P.record_id r) path s) λ _. give (some path))
                (D.download_path-is_download _ _ _) held
                (λ t₄ there rest k₄. (
                  refl,
                  (λ p f ne. rest p f ne ∙ kept p f ∙ ap (λ g. g p) e₂),
                  data',
                  there,
                  inr (missing, got ∙ ap (λ state. (ok data', state)) (sym (k₄ ∙ k₃))),
                ))
                (λ x t₄ e₄ p f. ap (λ g. g p) e₄ ∙ kept p f ∙ ap (λ g. g p) e₂))
            (λ x t₃ kept p f. kept p f ∙ ap (λ g. g p) e₂)
        where
          temp : FilePath
          temp = D.download_path c.base_path (P.record_id r) t₂.temp_counter

  ensure_path-IsEnsured :
      (c : AudioCache P D) (r : P.AchievementRecord) (path : FilePath) (s : Machine P D S)
      → is_download path ≡ false
      → IsEnsured (P.record_id r) path s (ensure_path P D retrieve_audio c r (some path) s)
  unfolding ensure_path After
  ensure_path-IsEnsured c r path s final =
      inspect-cases P D retrieve_audio (λ files. is_some (files path)) s
        (After (IsEnsured (P.record_id r) path s)
          λ exists. if exists then give (some path) else download P D retrieve_audio c r path)
        (λ t e k. elim (Option-cases (s.files path)) [
          | inl missing ↦ rw missing (download-IsEnsured c r path s t final missing e k)
          | inr (content, there) ↦ rw there (
            refl,
            (λ p f ne. ap (λ g. g p) e),
            content,
            ap (λ g. g path) e ∙ there,
            inl (there, k),
          )
        ])
        (λ x t e p f. ap (λ g. g p) e)

  pub path_for-is_download :
      (c : AudioCache P D) (r : P.AchievementRecord) {path : FilePath}
      → path_for P D retrieve_audio c r ≡ some path
      → is_download path ≡ false
  unfolding path_for
  path_for-is_download c r e = named (P.audio_hash r) e
    where
      named :
          (h : Option P.DataHash) {path : FilePath}
          → elim h [
            | none ↦ none
            | some hash ↦ some (D.audio_path c.base_path (P.record_id r) hash)
          ]
            ≡ some path
          → is_download path ≡ false
      named none h = absurd cc
      named (some hash) h =
          subst (λ o. elim o [ some p ↦ is_download p ≡ false | none ↦ Unit ]) h
            (D.audio_path-is_download c.base_path (P.record_id r) hash)

  -- For a record with an audio file, from whatever state, and wherever an operation fails: on success
  -- the path holds what it held before, and the provider was not asked, or, if it held nothing, all
  -- of what the provider returned when asked once, and no other file than a temporary one changed;
  -- on an error no file but a temporary one changed.
  pub ensure_inner-IsEnsured :
      (c : AudioCache P D) (r : P.AchievementRecord) (path : FilePath) (s : Machine P D S)
      → path_for P D retrieve_audio c r ≡ some path
      → IsEnsured (P.record_id r) path s (ensure_inner P D retrieve_audio c r s)
  unfolding ensure_inner
  ensure_inner-IsEnsured c r path s e =
      rw e (ensure_path-IsEnsured c r path s (path_for-is_download c r e))
