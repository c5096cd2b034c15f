-- ===== src/AudioCache/Sync.antt =====
-- What `sync` leaves in the cache.
use bloop_client_framework.Base.{
  IsIn, IsIn-append, IsIn-last, true, false, List, [], ◌∷◌, ◌++◌, Option, none, some, is_some, All,
  Bytes, Result, ok, err, ◌≡◌, refl, sym, ◌∙◌, ap, subst, Bool-cases, Option-cases, inl, inr, ◌⊎◌,
}
use bloop_client_framework.Protocol.{Protocol}
use bloop_client_framework.Request.{RequestError, error}
use bloop_client_framework.AudioCache.{
  Disk, AudioCacheError, request, AudioCache, Machine, Cached, ◌>>=◌, ◌>>◌, inspect, path_for,
  ensure_path, ensure_inner, record_outcome, ensure_records, list_directory, remove_garbage,
  expected_paths, sync,
}
use bloop_client_framework.AudioCache.Bind.{bind-either}
use bloop_client_framework.AudioCache.Ensure.{
  IsEnsured, ensure_inner-IsEnsured, path_for-is_download,
}

module _ (P : Protocol) (D : Disk P) {S : Type 0}
    (retrieve_audio : P.Uuid → S → Result Bytes (RequestError P) × S) where
  open D use {FilePath, path_eq, is_download}

  -- A file that is not a temporary one does not get lost.
  abbrev Stays : Machine P D S → Machine P D S → Type 0
  Stays s t =
      (p : FilePath)
      → is_download p ≡ false
      → is_some (s.files p) ≡ true
      → is_some (t.files p) ≡ true

  -- The audio file of a record, if it has one, is in the cache.
  abbrev pub IsCached : AudioCache P D → P.AchievementRecord → Machine P D S → Type 0
  IsCached c r t =
      (path : FilePath)
      → path_for P D retrieve_audio c r ≡ some path
      → (is_some (t.files path) ≡ true) × (is_download path ≡ false)

  abbrev Has :
      AudioCache P D
      → P.AchievementRecord
      → Result (Option FilePath) (AudioCacheError P D) × Machine P D S
      → Type 0
  Has c r (ok _, t) = IsCached c r t
  Has c r (err _, t) = Unit

  IsEnsured-Stays :
      (id : P.Uuid) (path : FilePath) (s : Machine P D S)
      (x : Result (Option FilePath) (AudioCacheError P D) × Machine P D S)
      → IsEnsured P D retrieve_audio id path s x
      → Stays s x.1
  IsEnsured-Stays id path s (ok none, t) h p final there = absurd h
  IsEnsured-Stays id path s (ok (some q), t) (_, rest, content, held, _) p final there =
      elim (Bool-cases (path_eq p path)) [
        | inl e ↦ ap is_some (ap t.files ((D.path_eq_iff p path).0 e) ∙ held)
        | inr e ↦
            ap is_some (rest p final λ eq. absurd (cc (e, (D.path_eq_iff p path).1 eq))) ∙ there
      ]
  IsEnsured-Stays id path s (err e, t) h p final there = ap is_some (h p final) ∙ there

  IsEnsured-Has :
      (c : AudioCache P D) (r : P.AchievementRecord) (path : FilePath) (s : Machine P D S)
      (x : Result (Option FilePath) (AudioCacheError P D) × Machine P D S)
      → path_for P D retrieve_audio c r ≡ some path
      → is_download path ≡ false
      → IsEnsured P D retrieve_audio (P.record_id r) path s x
      → Has c r x
  IsEnsured-Has c r path s (ok none, t) e final h = absurd h
  IsEnsured-Has c r path s (ok (some q), t) e final (_, _, content, held, _) = λ p e'.
      subst
        (λ o. elim o [
          | some v ↦ (is_some (t.files v) ≡ true) × (is_download v ≡ false)
          | none ↦ Unit
        ])
        (sym e ∙ e') (ap is_some held, final)
  IsEnsured-Has c r path s (err _, t) e final h = tt

  ensure_inner-Stays :
      (c : AudioCache P D) (r : P.AchievementRecord) (s : Machine P D S)
      → Stays s (ensure_inner P D retrieve_audio c r s).1
        × Has c r (ensure_inner P D retrieve_audio c r s)
  ensure_inner-Stays c r s = elim (Option-cases (path_for P D retrieve_audio c r)) [
    | inl no_audio ↦ (
      unfold ensure_inner ensure_path in rw no_audio λ p final there. there,
      unfold ensure_inner ensure_path in rw no_audio λ p e. absurd (cc (no_audio, e)),
    )
    | inr (path, e) ↦
        let h = ensure_inner-IsEnsured P D retrieve_audio c r path s e in
        let final = path_for-is_download P D retrieve_audio c r e in
        (IsEnsured-Stays (P.record_id r) path s _ h, IsEnsured-Has c r path s _ e final h)
  ]

  -- A record is skipped or its audio file is in the cache.
  abbrev pub IsSettled : AudioCache P D → List P.Uuid → Machine P D S → P.AchievementRecord → Type 0
  IsSettled c skipped t r = IsIn (P.record_id r) skipped ⊎ IsCached c r t

  abbrev pub IsSynced :
      AudioCache P D
      → List P.AchievementRecord
      → Result (List P.Uuid) (AudioCacheError P D) × Machine P D S
      → Type 0
  IsSynced c records (ok skipped, t) = All (IsSettled c skipped t) records
  IsSynced c records (err _, t) = Unit

  -- What the rest of a sync keeps of what is settled already.
  abbrev Extends :
      List P.Uuid
      → Machine P D S
      → Result (List P.Uuid) (AudioCacheError P D) × Machine P D S
      → Type 0
  Extends skipped s (ok skipped', t) =
      Stays s t × ((id : P.Uuid) → IsIn id skipped → IsIn id skipped')
  Extends skipped s (err _, t) = Unit

  IsSettled-later :
      (c : AudioCache P D) (r : P.AchievementRecord) (skipped skipped' : List P.Uuid)
      (s t : Machine P D S)
      → Extends skipped s (ok skipped', t)
      → IsSettled c skipped s r
      → IsSettled c skipped' t r
  IsSettled-later c r skipped skipped' s t (stays, more') (inl h) = inl (more' (P.record_id r) h)
  IsSettled-later c r skipped skipped' s t (stays, more') (inr h) =
      inr λ path e. (stays path (h path e).1 (h path e).0, (h path e).1)

  record_outcome-IsSettled :
      (c : AudioCache P D) (r : P.AchievementRecord) (skipped : List P.Uuid)
      (x : Result (Option FilePath) (AudioCacheError P D)) (t : Machine P D S)
      (skipped' : List P.Uuid)
      → Has c r (x, t)
      → record_outcome P D retrieve_audio r skipped x ≡ ok skipped'
      → IsSettled c skipped' t r × ((id : P.Uuid) → IsIn id skipped → IsIn id skipped')
  unfolding record_outcome
  record_outcome-IsSettled c r skipped (ok _) t skipped' h e =
      let same : skipped ≡ skipped' = cc in
      (inr h, subst (λ l. (id : P.Uuid) → IsIn id skipped → IsIn id l) same λ id m. m)
  record_outcome-IsSettled c r skipped (err (request (error x))) t skipped' h e =
      elim (Bool-cases (P.is_fatal x)) [
        | inl fatal ↦ absurd (cc (rw fatal at e))
        | inr mild ↦
            let more' : (skipped ++ P.record_id r ∷ []) ≡ skipped' = cc (rw mild at e) in
            (
              inl (subst (λ l. IsIn (P.record_id r) l) more' (IsIn-last skipped (P.record_id r))),
              subst (λ l. (id : P.Uuid) → IsIn id skipped → IsIn id l) more'
                  λ id m. IsIn-append id skipped _ m,
            )
      ]
  record_outcome-IsSettled c r skipped (err x) t skipped' h e = absurd cc

  -- The rest of the records, behind one that is settled.
  settled-first :
      (c : AudioCache P D) (r : P.AchievementRecord) (records : List P.AchievementRecord)
      (skipped skipped' : List P.Uuid) (s t : Machine P D S)
      (x : Result (List P.Uuid) (AudioCacheError P D) × Machine P D S)
      → Stays s t
      → IsSettled c skipped' t r
      → ((id : P.Uuid) → IsIn id skipped → IsIn id skipped')
      → IsSynced c records x × Extends skipped' t x
      → IsSynced c (r ∷ records) x × Extends skipped s x
  settled-first c r records skipped skipped' s t (ok all, u) stays settled grow
        (synced, (stays', grow')) =
      (
        (IsSettled-later c r skipped' all t u (stays', grow') settled, synced),
        ((λ p final there. stays' p final (stays p final there)), (λ id m. grow' id (grow id m))),
      )
  settled-first c r records skipped skipped' s t (err e, u) stays settled grow h = (tt, tt)

  ensure_records-IsSynced :
      (c : AudioCache P D) (records : List P.AchievementRecord) (skipped : List P.Uuid)
      (s : Machine P D S)
      → IsSynced c records (ensure_records P D retrieve_audio c records skipped s)
        × Extends skipped s (ensure_records P D retrieve_audio c records skipped s)
  unfolding ensure_records
  ensure_records-IsSynced c [] skipped s = (tt, ((λ p final there. there), (λ id m. m)))
  ensure_records-IsSynced c (r ∷ records) skipped s =
      let (stays, has) = ensure_inner-Stays c r s in
      behind (record_outcome P D retrieve_audio r skipped x) refl stays has
        λ skipped'. ensure_records-IsSynced c records skipped' t
    where
      x : Result (Option FilePath) (AudioCacheError P D)
      x = (ensure_inner P D retrieve_audio c r s).0

      t : Machine P D S
      t = (ensure_inner P D retrieve_audio c r s).1

      rest :
          Result (List P.Uuid) (AudioCacheError P D)
          → Result (List P.Uuid) (AudioCacheError P D) × Machine P D S
      rest y = elim y [
        | ok skipped' ↦ ensure_records P D retrieve_audio c records skipped' t
        | err e ↦ (err e, t)
      ]

      behind :
          (y : Result (List P.Uuid) (AudioCacheError P D))
          → record_outcome P D retrieve_audio r skipped x ≡ y
          → Stays s t
          → Has c r (x, t)
          → ((skipped' : List P.Uuid)
              → IsSynced c records (ensure_records P D retrieve_audio c records skipped' t)
                × Extends skipped' t (ensure_records P D retrieve_audio c records skipped' t))
          → IsSynced c (r ∷ records) (rest y) × Extends skipped s (rest y)
      behind (ok skipped') e stays has later =
          let (settled, grow) = record_outcome-IsSettled c r skipped x t skipped' has e in
          settled-first c r records skipped skipped' s t _ stays settled grow (later skipped')
      behind (err e') e stays has later = (tt, tt)

  bind-IsSynced :
      {A : Type 0} (c : AudioCache P D) (records : List P.AchievementRecord) (m : Cached P D S A)
      (f : A → Cached P D S (List P.Uuid)) (s : Machine P D S)
      → ((a : A) (u : Machine P D S) → IsSynced c records (f a u))
      → IsSynced c records ((m >>= f) s)
  bind-IsSynced c records m f s h =
      bind-either m f s (IsSynced c records) (λ a. h a (m s).1) λ x. tt

  -- Whenever a sync succeeds, from whatever state of the cache, each of the records is among those
  -- returned as skipped, or has no audio file, or has it in the cache.
  pub sync-IsSynced :
      (c : AudioCache P D) (records : List P.AchievementRecord) (s : Machine P D S)
      → IsSynced c records (sync P D retrieve_audio c records s)
  unfolding sync
  sync-IsSynced c records s =
      bind-IsSynced c records (inspect P D retrieve_audio λ files. tt) behind_create s λ _ t.
        bind-IsSynced c records (list_directory P D retrieve_audio c) behind_list t λ entries u.
          bind-IsSynced c records
            (remove_garbage P D retrieve_audio (expected_paths P D retrieve_audio c records)
              entries)
            (λ _. ensure_records P D retrieve_audio c records []) u
            λ _ v. (ensure_records-IsSynced c records [] v).0
    where
      behind_list : List FilePath → Cached P D S (List P.Uuid)
      behind_list entries =
          remove_garbage P D retrieve_audio (expected_paths P D retrieve_audio c records) entries
          >> ensure_records P D retrieve_audio c records []

      behind_create : Unit {0} → Cached P D S (List P.Uuid)
      behind_create _ = list_directory P D retrieve_audio c >>= behind_list
