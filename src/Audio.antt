-- ===== src/Audio.antt =====
-- src/audio.rs: a playback, its cancellation, and its handle. The audio library's answers are a
-- parameter; the flag `cancelled` is read at numbered points, and is set from some point on or never.
pub mod Cancel
use bloop_client_framework.Base.{
  ℕ, zero, suc, ◌+◌, Bool, true, false, leb, List, [], ◌∷◌, Option, none, some, if◌then◌else◌,
  Result, ok, err,
}

pub record AudioLibrary : Type 1 where
  pub IoError : Type 0
  pub OutputError : Type 0
  pub DecoderError : Type 0
  pub JoinError : Type 0
  pub Volume : Type 0
  pub Reader : Type 0
  pub Source : Type 0
  pub FilePath : Type 0
  pub open_file : FilePath → Result Reader IoError
  pub open_default_sink : Option OutputError
  pub decode : Reader → Result Source DecoderError
  -- `player.empty()` at its n-th call
  pub empty : ℕ → Bool

pub data PlaybackError (L : AudioLibrary) : Type 0 where
  io : L.IoError → PlaybackError L
  output : L.OutputError → PlaybackError L
  decoding : L.DecoderError → PlaybackError L
  task : PlaybackError L

-- Sleeps are in milliseconds.
pub data Action (L : AudioLibrary) : Type 0 where
  opens_sink opens_source : Action L
  sets_volume : L.Volume → Action L
  appends : L.Source → Action L
  sleeps : ℕ → Action L

-- `PlaybackHandle`, but for the task that it awaits.
pub record PlaybackHandle : Type 0 where
  pub cancelled : Bool
  pub detached : Bool

abbrev pub new_handle : PlaybackHandle
new_handle = record { cancelled = false; detached = false }

-- `drop`, and `detach`, which ends in it.
unfoldable pub drop : PlaybackHandle → PlaybackHandle
drop h = if h.detached then h else record h { cancelled = true }

unfoldable pub detach : PlaybackHandle → PlaybackHandle
unfolding drop
detach h = drop (record h { detached = true })

-- The flag at its n-th reading, where the handle is dropped before the reading `dropped`.
unfoldable pub is_cancelled : Option ℕ → ℕ → Bool
is_cancelled none n = false
is_cancelled (some dropped) n = leb dropped n

module _ (L : AudioLibrary) where
  abbrev pub Playback : Type 0
  Playback = Result (Unit {0}) (PlaybackError L) × List (Action L)

  -- The poll of a handle: what the task returned, or that it failed.
  unfoldable pub poll :
      Result (Result (Unit {0}) (PlaybackError L)) L.JoinError → Result (Unit {0}) (PlaybackError L)
  poll (ok r) = r
  poll (err _) = err task

  abbrev pub before : Action L → Playback → Playback
  before a p = (p.0, a ∷ p.1)

  -- `while !player.empty()`, with fuel, from its n-th test on; behind a sleep the flag is read.
  unfoldable pub play_loop : ℕ → ℕ → Option ℕ → Option Playback
  play_loop zero n dropped = none
  play_loop (suc fuel) n dropped = elim (L.empty n) [
    | true ↦ some (ok tt, [])
    | false ↦ elim (is_cancelled dropped (n + 2)) [
      | true ↦ some (ok tt, sleeps 50 ∷ [])
      | false ↦ elim (play_loop fuel (n + 1) dropped) [
        | none ↦ none
        | some p ↦ some (before (sleeps 50) p)
      ]
    ]
  ]

  -- Behind the opening of the source.
  unfoldable pub play_source : ℕ → Result L.Source (PlaybackError L) → Option ℕ → Option Playback
  unfolding play_loop
  play_source fuel (err e) dropped = some (err e, [])
  play_source fuel (ok source) dropped = elim (is_cancelled dropped 1) [
    | true ↦ some (ok tt, [])
    | false ↦ elim (play_loop fuel 0 dropped) [
      | none ↦ none
      | some p ↦ some (before (appends source) p)
    ]
  ]

  -- `Decoder::new(open()?)`
  unfoldable pub decoded : Result L.Reader L.IoError → Result L.Source (PlaybackError L)
  decoded (err e) = err (io e)
  decoded (ok reader) = elim (L.decode reader) [ ok source ↦ ok source | err e ↦ err (decoding e) ]

  -- The closure of `play_with`.
  unfoldable pub play_with : ℕ → L.Volume → Result L.Reader L.IoError → Option ℕ → Option Playback
  unfolding play_source decoded
  play_with fuel volume open' dropped = elim (is_cancelled dropped 0) [
    | true ↦ some (ok tt, [])
    | false ↦ elim L.open_default_sink [
      | some e ↦ some (err (output e), opens_sink ∷ [])
      | none ↦ elim (play_source fuel (decoded open') dropped) [
        | none ↦ none
        | some p ↦ some (before opens_sink (before (sets_volume volume) (before opens_source p)))
      ]
    ]
  ]

  unfoldable pub play_file : ℕ → L.FilePath → L.Volume → Option ℕ → Option Playback
  unfolding play_with
  play_file fuel path volume dropped = play_with fuel volume (L.open_file path) dropped

  unfoldable pub play_reader : ℕ → L.Reader → L.Volume → Option ℕ → Option Playback
  unfolding play_with
  play_reader fuel reader volume dropped = play_with fuel volume (ok reader) dropped
