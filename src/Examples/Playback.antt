-- ===== src/Examples/Playback.antt =====
-- A player with three ticks of sound.
use bloop_client_framework.Base.{
  ℕ, [], ◌∷◌, none, some, ltb, not, ◌==◌, if◌then◌else◌, ok, err, ◌≡◌, refl, arith,
}
use bloop_client_framework.Audio.{
  AudioLibrary, opens_sink, opens_source, sets_volume, appends, sleeps, new_handle, drop, detach,
  play_file, play_reader,
}
use bloop_client_framework.Audio.Cancel.{EndsBy, flagged, play_file-EndsBy, play_reader-detached}

abbrev player : AudioLibrary
player = record {
  IoError = ℕ;
  OutputError = ℕ;
  DecoderError = ℕ;
  JoinError = ℕ;
  Volume = ℕ;
  Reader = ℕ;
  Source = ℕ;
  FilePath = ℕ;
  open_file = λ path. if path == 0 then err 2 else ok path;
  open_default_sink = none;
  decode = λ reader. ok reader;
  empty = λ n. not (ltb n 3);
}

play_file-EndsBy_example : EndsBy 3 (play_file player 5 8 100 (flagged 3 (drop new_handle)))
play_file-EndsBy_example = play_file-EndsBy player 3 5 8 100 (omega arith)

play_reader-detached_example :
    play_reader player 4 8 100 (flagged 3 (detach new_handle))
    ≡ some (
      ok tt,
      opens_sink
          ∷ sets_volume 100
          ∷ opens_source
          ∷ appends 8
          ∷ sleeps 50
          ∷ sleeps 50
          ∷ sleeps 50
          ∷ [],
    )
play_reader-detached_example =
    play_reader-detached player 3 3 100 8 8 refl refl (refl, (refl, (refl, refl)))
