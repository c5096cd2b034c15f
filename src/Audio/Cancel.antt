-- ===== src/Audio/Cancel.antt =====
-- A playback whose handle is dropped falls silent, and one whose handle is detached does not.
use bloop_client_framework.Base.{
  ℕ, zero, suc, ◌+◌, ◌-◌, ◌≤◌, All, true, false, List, [], ◌∷◌, Option, none, some, if◌then◌else◌,
  Result, ok, err, ◌≡◌, refl, arith, Bool-cases, Option-cases, inl, inr, le→leb, lt→leb,
}
use bloop_client_framework.Audio.{
  AudioLibrary, PlaybackError, Action, sleeps, opens_sink, opens_source, sets_volume, appends,
  Playback, PlaybackHandle, new_handle, drop, detach, is_cancelled, play_loop, play_source,
  play_with, play_file, play_reader, decoded, before,
}

-- The number of sleeps.
abbrev pub sleep_count : {L : AudioLibrary} → List (Action L) → ℕ
sleep_count [] = 0
sleep_count (sleeps _ ∷ actions) = suc (sleep_count actions)
sleep_count (_ ∷ actions) = sleep_count actions

-- No sound is handed to the player.
abbrev pub IsSilent : {L : AudioLibrary} → Action L → Type 0
IsSilent (appends _) = ⊥
IsSilent _ = Unit

-- A playback that came to an end, with at most so many sleeps.
abbrev pub SleepsAtMost : {L : AudioLibrary} → ℕ → Option (Playback L) → Type 0
SleepsAtMost most none = ⊥
SleepsAtMost most (some p) = sleep_count p.1 ≤ most

-- What a playback comes to whose flag is set from its reading `d` on: it ends, has slept once for each
-- reading in the loop up to that one, has done nothing if the flag was set before it started, and
-- given no sound to the player if it was set before that.
abbrev pub EndsBy : {L : AudioLibrary} → ℕ → Option (Playback L) → Type 0
EndsBy d none = ⊥
EndsBy d (some p) =
    (sleep_count p.1 ≤ d - 1) × (d ≡ 0 → p ≡ (ok tt, [])) × (d ≤ 1 → All IsSilent p.1)

-- The reading of the flag from which on it is set, for a handle that is dropped or not.
abbrev pub flagged : ℕ → PlaybackHandle → Option ℕ
flagged d h = if h.cancelled then some d else none

abbrev pub replicate {ℓ} : {A : Type ℓ} → ℕ → A → List A
replicate zero a = []
replicate (suc n) a = a ∷ replicate n a

module _ (L : AudioLibrary) where
  -- The player has sound left at so many tests, and then none.
  abbrev pub PlaysFor : ℕ → ℕ → Type 0
  PlaysFor zero n = L.empty n ≡ true
  PlaysFor (suc k) n = (L.empty n ≡ false) × PlaysFor k (n + 1)

  before-SleepsAtMost :
      (most : ℕ) (o : Option (Playback L))
      → SleepsAtMost most o
      → SleepsAtMost (suc most) (elim o [ none ↦ none | some p ↦ some (before L (sleeps 50) p) ])
  before-SleepsAtMost most none h = h
  before-SleepsAtMost most (some p) h = omega (arith, h)

  -- One round of the loop, where the rest of it, if the flag is not read as set, sleeps so often.
  round-SleepsAtMost :
      (k fuel n dropped : ℕ)
      → ((is_cancelled (some dropped) (n + 2) ≡ false)
          → SleepsAtMost k (play_loop L fuel (n + 1) (some dropped)))
      → SleepsAtMost (suc k) (play_loop L (suc fuel) n (some dropped))
  unfolding play_loop
  round-SleepsAtMost k fuel n dropped later = elim (Bool-cases (L.empty n)) [
    | inl done ↦ rw (done, play_loop) (omega arith)
    | inr more ↦
        rw (more, play_loop)
          (elim (Bool-cases (is_cancelled (some dropped) (n + 2))) [
            | inl silent ↦ rw silent (omega arith)
            | inr plays ↦
                rw plays
                  (before-SleepsAtMost k (play_loop L fuel (n + 1) (some dropped)) (later plays))
          ])
  ]

  play_loop-SleepsAtMost :
      (k fuel n dropped : ℕ)
      → dropped ≡ n + k + 2
      → k + 1 ≤ fuel
      → SleepsAtMost (suc k) (play_loop L fuel n (some dropped))
  unfolding is_cancelled
  play_loop-SleepsAtMost k zero n dropped e h = absurd (omega arith)
  play_loop-SleepsAtMost zero (suc fuel) n dropped e h =
      round-SleepsAtMost zero fuel n dropped
        λ plays. absurd (cc (plays, le→leb dropped (n + 2) (omega arith)))
  play_loop-SleepsAtMost (suc k) (suc fuel) n dropped e h =
      round-SleepsAtMost (suc k) fuel n dropped
        λ plays. play_loop-SleepsAtMost k fuel (n + 1) dropped (omega arith) (omega arith)

  -- What is done in front of the loop.
  appended-EndsBy :
      (k : ℕ) (source : L.Source) (o : Option (Playback L))
      → SleepsAtMost (suc k) o
      → EndsBy (suc (suc k)) (elim o [ none ↦ none | some p ↦ some (before L (appends source) p) ])
  appended-EndsBy k source none h = h
  appended-EndsBy k source (some p) h =
      (omega (arith, h), (λ e. absurd (omega (arith, e))), λ e. absurd (omega (arith, e)))

  opened-EndsBy :
      (d : ℕ) (volume : L.Volume) (o : Option (Playback L))
      → EndsBy (suc d) o
      → EndsBy (suc d) (elim o [
        | none ↦ none
        | some p ↦
            some (before L opens_sink (before L (sets_volume volume) (before L opens_source p)))
      ])
  opened-EndsBy d volume none h = h
  opened-EndsBy d volume (some p) (few, start, silent) =
      (omega (arith, few), (λ e. absurd (omega (arith, e))), λ e. (tt, (tt, (tt, silent e))))

  -- The flag at a reading before it is set.
  unset_before : (k n : ℕ) → n ≤ k → is_cancelled (some (suc k)) n ≡ false
  unfolding is_cancelled
  unset_before k n h = lt→leb n (suc k) (omega arith)

  -- The flag set from the start, and from the second reading on.
  play_with-start :
      (fuel : ℕ) (volume : L.Volume) (open' : Result L.Reader L.IoError)
      → EndsBy 0 (play_with L fuel volume open' (some 0))
  unfolding play_with is_cancelled
  play_with-start fuel volume open' = (omega arith, (λ e. refl), λ e. tt)

  play_source-first :
      (fuel : ℕ) (source : L.Source) → EndsBy 1 (play_source L fuel (ok source) (some 1))
  unfolding play_source is_cancelled
  play_source-first fuel source = (omega arith, (λ e. absurd (omega (arith, e))), λ e. tt)

  play_source-EndsBy :
      (d fuel : ℕ) (r : Result L.Source (PlaybackError L))
      → suc d ≤ fuel
      → EndsBy (suc d) (play_source L fuel r (some (suc d)))
  unfolding play_source
  play_source-EndsBy d fuel (err e) h = (omega arith, (λ e'. absurd (omega (arith, e'))), λ e'. tt)
  play_source-EndsBy zero fuel (ok source) h = play_source-first fuel source
  play_source-EndsBy (suc k) fuel (ok source) h =
      rw (unset_before (suc k) 1 (omega arith), play_source)
        (appended-EndsBy k source (play_loop L fuel 0 (some (suc (suc k))))
          (play_loop-SleepsAtMost k fuel 0 (suc (suc k)) (omega arith) (omega arith)))

  play_with-EndsBy :
      (d fuel : ℕ) (volume : L.Volume) (open' : Result L.Reader L.IoError)
      → d ≤ fuel
      → EndsBy d (play_with L fuel volume open' (flagged d (drop new_handle)))
  unfolding play_with drop
  play_with-EndsBy zero fuel volume open' h = play_with-start fuel volume open'
  play_with-EndsBy (suc d) fuel volume open' h =
      rw (unset_before d 0 (omega arith), play_with)
        (elim (Option-cases L.open_default_sink) [
          | inl fine ↦ rw fine (
              opened-EndsBy d volume (play_source L fuel (decoded L open') (some (suc d)))
                (play_source-EndsBy d fuel (decoded L open') h))
          | inr (e, failed) ↦
              rw failed (omega arith, (λ e'. absurd (omega (arith, e'))), λ e'. (tt, tt))
        ])

  -- The playback of a file whose handle is dropped, with no call of `detach`, before the d-th reading
  -- of its flag, counted from 0, comes to an end, whether or not the player is done, and whatever
  -- fails: with nothing done if that is the reading at its start, with no sound given to the player
  -- if it is one of the first two, and with d - 1 sleeps or fewer if it is a later one.
  pub play_file-EndsBy :
      (d fuel : ℕ) (path : L.FilePath) (volume : L.Volume)
      → d ≤ fuel
      → EndsBy d (play_file L fuel path volume (flagged d (drop new_handle)))
  unfolding play_file
  play_file-EndsBy d fuel path volume h = play_with-EndsBy d fuel volume (L.open_file path) h

  play_loop-detached :
      (k n : ℕ) → PlaysFor k n → play_loop L (suc k) n none ≡ some (ok tt, replicate k (sleeps 50))
  unfolding play_loop is_cancelled
  play_loop-detached zero n done = rw (done, play_loop) refl
  play_loop-detached (suc k) n (more, later) =
      rw (more, play_loop) (rw (play_loop-detached k (n + 1) later) refl)

  -- A detached playback of a reader whose source decodes, with an output, goes on as long as the
  -- player has sound left: the task returns behind as many sleeps, with all of the source played.
  pub play_reader-detached :
      (k d : ℕ) (volume : L.Volume) (reader : L.Reader) (source : L.Source)
      → L.open_default_sink ≡ none
      → L.decode reader ≡ ok source
      → PlaysFor k 0
      → play_reader L (suc k) reader volume (flagged d (detach new_handle))
        ≡ some (
          ok tt,
          opens_sink ∷ sets_volume volume ∷ opens_source ∷ appends source ∷ replicate k (sleeps 50),
        )
  unfolding play_reader play_with play_source detach decoded is_cancelled
  play_reader-detached k d volume reader source sink decodes plays =
      rw (sink, decodes) (rw (play_loop-detached k 0 plays) refl)
