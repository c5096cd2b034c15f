-- ===== src/Examples/Online.antt =====
-- The cache of the examples, on the client of the examples.
use bloop_client_framework.Base.{ℕ, zero, suc, List, none, some, [], ◌∷◌, ◌≡◌, refl, ap}
use bloop_client_framework.Outside.{timeout}
use bloop_client_framework.Connection.{request_raw, ping}
use bloop_client_framework.Request.{decode_response}
use bloop_client_framework.Client.{request, handle, run_loop}
use bloop_client_framework.Client.Call.{receive_count, reached, carried_out}
use bloop_client_framework.Client.Handle.{retrieve_audio}
use bloop_client_framework.Client.System.{
  System, Turn, sends, receives, ticks, send_command, take_turn, take_turns,
}
use bloop_client_framework.AudioCache.{
  Machine, path_for, ensure_inner, download, inspect, write_file, rename, retrieve, next_temp_path,
}
use bloop_client_framework.AudioCache.Online.{
  Schedule, provide, IsProvided, ensure_inner-IsProvided,
}
use bloop_client_framework.Examples.Outside.{opcodes, server}
use bloop_client_framework.Examples.Cache.{disk, cache}
use bloop_client_framework.Examples.System.{connected_system}

-- Nothing is cached, the client is connected, and a request waits in its channel.
abbrev online : Machine opcodes disk (System opcodes)
online = record { files = λ p. none; operations = 0; temp_counter = 0; provider = connected_system }

-- The task ticks before it receives what is ahead of the request, and behind that, and a handle asks.
abbrev receipts : ℕ → List (Turn opcodes)
receipts zero = ticks ∷ sends (request 11 42) ∷ []
receipts (suc n) = ticks ∷ receives ∷ receipts n

receipts-receive_count : (n : ℕ) → receive_count (receipts n) ≡ n
receipts-receive_count zero = refl
receipts-receive_count (suc n) = ap suc (receipts-receive_count n)

abbrev busy_schedule : Schedule opcodes
busy_schedule = record {
  waiting = ticks ∷ sends (request 9 43) ∷ [];
  ahead = receipts;
  in_turn = receipts-receive_count;
}

ensure_inner-IsProvided_example :
    IsProvided opcodes server 41 busy_schedule disk 3 4 online
      (ensure_inner opcodes disk (provide opcodes server 41 busy_schedule) cache 3 online)
unfolding path_for
ensure_inner-IsProvided_example =
    ensure_inner-IsProvided opcodes server 41 busy_schedule disk cache 3 4 online refl

-- The file comes from the server.
ensure_inner_downloads :
    (ensure_inner opcodes disk (provide opcodes server 41 busy_schedule) cache 3 online).1.files 4
    ≡ some []
unfolding ensure_inner path_for download inspect retrieve next_temp_path write_file rename provide
    retrieve_audio carried_out reached send_command take_turns take_turn run_loop handle timeout
    decode_response request_raw ping
ensure_inner_downloads = refl
