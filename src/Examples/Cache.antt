-- ===== src/Examples/Cache.antt =====
-- A small audio cache.
use bloop_client_framework.Base.{
  ℕ, suc, false, Bool-cases, not, inl, inr, [], ◌∷◌, none, some, ◌==◌, ==_iff, if◌then◌else◌, Bytes,
  Result, ok, err, ◌≡◌, refl, arith,
}
use bloop_client_framework.Request.{RequestError, error}
use bloop_client_framework.AudioCache.{
  Disk, AudioCache, Machine, new, path_for, is_garbage, inspect, write_file, rename, retrieve,
  next_temp_path, download, ensure_inner, expected_paths, list_directory, remove_garbage,
  ensure_records, sync,
}
use bloop_client_framework.AudioCache.Ensure.{IsEnsured, ensure_inner-IsEnsured}
use bloop_client_framework.AudioCache.Sync.{IsSynced, sync-IsSynced}
use bloop_client_framework.AudioCache.Stale.{sync-is_garbage}
use bloop_client_framework.AudioCache.Again.{IsQuiet, sync_again}
use bloop_client_framework.AudioCache.Complete.{IsAnswer, IsComplete, sync-IsComplete}
use bloop_client_framework.AudioCache.Keep.{sync-Holds}
use bloop_client_framework.AudioCache.Hook.{IsServed, ensure_inner-IsServed}
use bloop_client_framework.Connection.{Connection}
use bloop_client_framework.Connection.Session.{retrieve_audio}
use bloop_client_framework.Outside.{Trace}
use bloop_client_framework.Examples.Outside.{opcodes, server}

pub suc-zero : (n : ℕ) → (suc n == 0) ≡ false
suc-zero n = ground arith

-- Path 0 is the temporary one, and the others are those of audio files.
abbrev pub disk : Disk opcodes
disk = record {
  FilePath = ℕ;
  path_eq = λ a b. a == b;
  path_eq_iff = ==_iff;
  audio_path = λ base id hash. suc id;
  download_path = λ base id n. 0;
  is_mp3 = λ p. not (p == 0);
  is_download = λ p. p == 0;
  audio_path-is_download = λ base id hash. suc-zero id;
  download_path-is_download = λ base id n. refl;
  IoError = ℕ;
  failure = λ n. none;
  torn = λ n. none;
  not_found = 0;
  read_dir = λ n files base. 0 ∷ 6 ∷ [];
}

-- A provider that refuses the audio of achievement 7.
abbrev supply : ℕ → Unit {0} → Result Bytes (RequestError opcodes) × Unit {0}
supply id s = if id == 7 then (err (error 1), s) else (ok (id ∷ []), s)

abbrev pub cache : AudioCache opcodes disk
cache = new 0

-- With a leftover, and the audio of an achievement 5.
abbrev machine : Machine opcodes disk (Unit {0})
machine = record {
  files = λ p. if p == 0 then some [] else if p == 6 then some (5 ∷ []) else none;
  operations = 0;
  temp_counter = 0;
  provider = tt;
}

ensure_inner-IsEnsured_example :
    IsEnsured opcodes disk supply 3 4 machine (ensure_inner opcodes disk supply cache 3 machine)
unfolding path_for
ensure_inner-IsEnsured_example = ensure_inner-IsEnsured opcodes disk supply cache 3 4 machine refl

sync-Holds_example : (sync opcodes disk supply cache (5 ∷ 7 ∷ []) machine).1.files 6 ≡ some (5 ∷ [])
unfolding path_for is_garbage
sync-Holds_example =
    sync-Holds opcodes disk supply 6 (5 ∷ []) cache (5 ∷ 7 ∷ []) machine (inl (5, inl refl, refl))
      refl

-- The second sync of two, of records that the provider does not refuse.
abbrev synced : Machine opcodes disk (Unit {0})
synced = (sync opcodes disk supply cache (3 ∷ 5 ∷ []) machine).1

sync_again_example :
    IsQuiet opcodes disk supply
      (expected_paths opcodes disk supply cache (3 ∷ 5 ∷ []))
      synced
      (sync opcodes disk supply cache (3 ∷ 5 ∷ []) synced)
unfolding sync list_directory remove_garbage ensure_records ensure_inner path_for download inspect
    retrieve next_temp_path write_file rename
sync_again_example =
    sync_again opcodes disk supply cache (3 ∷ 5 ∷ []) machine synced (λ n. refl) refl

supply-IsAnswer : (id : ℕ) (state : Unit {0}) → IsAnswer opcodes disk supply (supply id state).0
supply-IsAnswer id state = elim (Bool-cases (id == 7)) [ inl e ↦ rw e refl | inr e ↦ rw e tt ]

sync-IsComplete_example :
    IsComplete opcodes disk supply []
      (3 ∷ 7 ∷ [])
      (sync opcodes disk supply cache (3 ∷ 7 ∷ []) machine)
sync-IsComplete_example =
    sync-IsComplete opcodes disk supply cache (3 ∷ 7 ∷ []) machine (λ n. refl) supply-IsAnswer

-- The same cache in an on-connect hook, with nothing in it.
abbrev lent : Connection opcodes
lent = record { stream = 2; capabilities = 1; max_payload_len = 16777216 }

abbrev empty : Machine opcodes disk (Trace opcodes)
empty = record { files = λ p. none; operations = 0; temp_counter = 0; provider = [] }

ensure_inner-IsServed_example :
    IsServed opcodes server lent disk 3 4 empty
      (ensure_inner opcodes disk (retrieve_audio opcodes server lent) cache 3 empty)
unfolding path_for
ensure_inner-IsServed_example = ensure_inner-IsServed opcodes server lent disk cache 3 4 empty refl

sync-IsSynced_example :
    IsSynced opcodes disk supply cache
      (3 ∷ 7 ∷ [])
      (sync opcodes disk supply cache (3 ∷ 7 ∷ []) machine)
sync-IsSynced_example = sync-IsSynced opcodes disk supply cache (3 ∷ 7 ∷ []) machine

sync-is_garbage_example : (sync opcodes disk supply cache (3 ∷ 7 ∷ []) machine).1.files 6 ≡ none
unfolding path_for is_garbage
sync-is_garbage_example =
    sync-is_garbage opcodes disk supply cache (3 ∷ 7 ∷ []) machine 6 (λ n. refl)
      (λ n files there. inr (inl refl)) refl

-- The sync succeeds, skips the refused record, fetches the other one, and removes the stale file.
sync_outcome : (sync opcodes disk supply cache (3 ∷ 7 ∷ []) machine).0 ≡ ok (7 ∷ [])
unfolding sync list_directory remove_garbage ensure_records ensure_inner path_for download inspect
    retrieve next_temp_path write_file rename
sync_outcome = refl

sync_fetches : (sync opcodes disk supply cache (3 ∷ 7 ∷ []) machine).1.files 4 ≡ some (3 ∷ [])
unfolding sync list_directory remove_garbage ensure_records ensure_inner path_for download inspect
    retrieve next_temp_path write_file rename
sync_fetches = refl

sync_removes : (sync opcodes disk supply cache (3 ∷ 7 ∷ []) machine).1.files 6 ≡ none
unfolding sync list_directory remove_garbage ensure_records ensure_inner path_for download inspect
    retrieve next_temp_path write_file rename
sync_removes = refl
