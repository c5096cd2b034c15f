-- ===== src/AudioCache/Stale/Adding.antt =====
-- What the downloads of a sync add.
use bloop_client_framework.Base.{
  true, false, List, [], ◌∷◌, none, some, is_some, Bytes, Result, ok, err, IsIn, ◌≡◌, ◌⊎◌, inl, inr,
  refl, sym, ◌∙◌, ap,
}
use bloop_client_framework.Protocol.{Protocol}
use bloop_client_framework.Request.{RequestError}
use bloop_client_framework.AudioCache.{
  Disk, AudioCacheError, AudioCache, Machine, put, path_for, download, ensure_inner, record_outcome,
  ensure_records,
}
use bloop_client_framework.AudioCache.Ensure.{path_for-is_download}
use bloop_client_framework.AudioCache.Stale.Fine.{IsFine, stepped, put-present, put-removed}
use bloop_client_framework.AudioCache.Stale.Download.{download-cases, ensure_inner-cases}

module _ (P : Protocol) (D : Disk P) {S : Type 0}
    (retrieve_audio : P.Uuid → S → Result Bytes (RequestError P) × S) where
  open D use {FilePath, path_eq, is_download, failure}

  -- A file that is there behind a call was there before, or is one of these.
  unfoldable pub Adds : (FilePath → Type 0) → Machine P D S → Machine P D S → Type 0
  Adds New s t = (p : FilePath) → is_some (t.files p) ≡ true → (is_some (s.files p) ≡ true) ⊎ New p

  download-Adds :
      (c : AudioCache P D) (r : P.AchievementRecord) (path : FilePath) (s : Machine P D S)
      → IsFine D
      → is_download path ≡ false
      → Adds (λ p. p ≡ path) s (download P D retrieve_audio c r path s).1
  unfolding Adds
  download-Adds c r path s fine final =
      download-cases P D retrieve_audio c r path s (λ x. Adds (λ p. p ≡ path) s x.1) fine
        (λ data' e p there.
          elim (put-present P D retrieve_audio path p (some data')
            (put P D retrieve_audio temp none (put P D retrieve_audio temp (some data') s.files))
            there) [
              | inr (same, _) ↦ inr same
              | inl there' ↦ inl (put-removed P D retrieve_audio temp p (some data') s.files there')
            ])
        λ x e p there. inl there
    where
      temp : FilePath
      temp = D.download_path c.base_path (P.record_id r) s.temp_counter

  ensure_inner-Adds :
      (c : AudioCache P D) (r : P.AchievementRecord) (s : Machine P D S)
      → IsFine D
      → Adds
          (λ p. path_for P D retrieve_audio c r ≡ some p)
          s
          (ensure_inner P D retrieve_audio c r s).1
  unfolding Adds
  ensure_inner-Adds c r s fine =
      ensure_inner-cases P D retrieve_audio c r s
        (λ x. Adds (λ p. path_for P D retrieve_audio c r ≡ some p) s x.1) fine
        (λ no_audio p there. inl there) (λ path e exists p there. inl there)
        λ path e missing p there.
          elim (download-Adds c r path (stepped s) fine
            (path_for-is_download P D retrieve_audio c r e) p there) [
              | inl before ↦ inl before
              | inr same ↦ inr (e ∙ ap some (sym same))
            ]

  -- What the downloads add is expected, and so no garbage.
  pub ensure_records-Adds :
      (c : AudioCache P D) (records : List P.AchievementRecord) (skipped : List P.Uuid)
      (s : Machine P D S)
      → IsFine D
      → Adds
          (λ p.
            (r : P.AchievementRecord) × IsIn r records × (path_for P D retrieve_audio c r ≡ some p))
          s
          (ensure_records P D retrieve_audio c records skipped s).1
  unfolding ensure_records Adds
  ensure_records-Adds c [] skipped s fine = λ p there. inl there
  ensure_records-Adds c (r ∷ records) skipped s fine =
      behind (record_outcome P D retrieve_audio r skipped (ensure_inner P D retrieve_audio c r s).0)
        λ skipped'. ensure_records-Adds c records skipped' t fine
    where
      t : Machine P D S
      t = (ensure_inner P D retrieve_audio c r s).1

      IsOf : List P.AchievementRecord → FilePath → Type 0
      IsOf l p = (q : P.AchievementRecord) × IsIn q l × (path_for P D retrieve_audio c q ≡ some p)

      first :
          {p : FilePath}
          → is_some (t.files p) ≡ true
          → (is_some (s.files p) ≡ true) ⊎ IsOf (r ∷ records) p
      first there = elim (ensure_inner-Adds c r s fine _ there) [
        | inl before ↦ inl before
        | inr e ↦ inr (r, inl refl, e)
      ]

      behind :
          (y : Result (List P.Uuid) (AudioCacheError P D))
          → ((skipped' : List P.Uuid)
              → Adds (IsOf records) t (ensure_records P D retrieve_audio c records skipped' t).1)
          → Adds
              (IsOf (r ∷ records))
              s
              (elim y as (λ _. Result (List P.Uuid) (AudioCacheError P D) × Machine P D S) [
                | ok skipped' ↦ ensure_records P D retrieve_audio c records skipped' t
                | err e ↦ (err e, t)
              ]).1
      behind (err e) later p there = first there
      behind (ok skipped') later p there = elim (later skipped' p there) [
        | inl before ↦ first before
        | inr (q, m, e) ↦ inr (q, inr m, e)
      ]
