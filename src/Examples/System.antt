-- ===== src/Examples/System.antt =====
-- The client's system of handles, channel and task, with the server of the examples.
use bloop_client_framework.Base.{◌≢◌, false, List, [], ◌∷◌, ◌++◌, some, ok, ◌≡◌, refl}
use bloop_client_framework.Tls.{
  dangerous_disabled, with_verifier, platform_verified, create_connector, default_provider,
  Configures, skip_verifier, skip_certificate_verification, create_connector-Configures,
}
use bloop_client_framework.Client.{ticked, request, shutdown_command, handle}
use bloop_client_framework.Client.Builder.{build}
use bloop_client_framework.Client.Answers.Senders.{answered}
use bloop_client_framework.Outside.{ConnectionStatus, timeout}
use bloop_client_framework.Connection.{request_raw, ping}
use bloop_client_framework.Request.{decode_response}
use bloop_client_framework.Client.Handle.{◌>>=◌, custom}
use bloop_client_framework.Client.Call.{
  queue_of, answer_in, reached, carried_out, direct, custom-direct,
}
use bloop_client_framework.Client.Watch.{handle-WatchStep}
use bloop_client_framework.Client.Watch.Moves.{WatchStep}
use bloop_client_framework.Client.System.{
  send_command, take_turn, System, Turn, sends, hangs_up, receives, ticks, spawned_system,
  take_turns,
}
use bloop_client_framework.Client.System.Queue.{waiting, account, accepted, take_turns-account}
use bloop_client_framework.Client.System.Draining.{receive_all, receive_all-answered}
use bloop_client_framework.Client.System.Safety.{IsSound, build-IsSound}
use bloop_client_framework.Examples.Outside.{opcodes, server, provider}
use bloop_client_framework.Examples.Task.{builder, started, started-Inv}

abbrev fresh_system : System opcodes
fresh_system = spawned_system started

-- The system with a connection, where another request waits already.
abbrev pub connected_system : System opcodes
connected_system = record (fresh_system) {
  world = record {
    task = record (started.task) {
      connection = some (record { stream = 2; capabilities = 1; max_payload_len = 1024 });
      status = ConnectionStatus.connected 1;
    };
    trace = [];
  };
  queue = request 11 40 ∷ [];
}

-- The task ticks, and another handle asks, before the task receives what is ahead.
abbrev between : List (Turn opcodes)
between = ticks ∷ sends (request 9 42) ∷ receives ∷ ticks ∷ []

custom-direct_example :
    custom opcodes
      (queue_of connected_system)
      (answer_in (carried_out opcodes server between (request 9 41) connected_system).world.trace)
      41
      (ok 9)
      (opcodes.decode_bloop_accepted)
    ≡ (direct opcodes server 9
          (reached opcodes server between (request 9 41) connected_system).world
        >>= decode_response opcodes (opcodes.decode_bloop_accepted))
custom-direct_example =
    custom-direct opcodes server connected_system between 41 9 (opcodes.decode_bloop_accepted) refl
      refl

-- The server's answer reaches the caller.
call_answers :
    (direct opcodes server 9 (reached opcodes server between (request 9 41) connected_system).world
      >>= decode_response opcodes (opcodes.decode_bloop_accepted))
    ≡ ok []
unfolding direct reached handle timeout decode_response request_raw take_turns take_turn
    send_command ping
call_answers = refl

-- Two handles ask, the task connects, answers one, and all handles go while the other waits.
abbrev schedule : List (Turn opcodes)
schedule =
    sends (request 9 40)
    ∷ ticks
    ∷ sends (shutdown_command 41)
    ∷ receives
    ∷ hangs_up
    ∷ receives
    ∷ receives
    ∷ []

-- A task with three commands in its channel.
abbrev busy : System opcodes
busy = record (fresh_system) { queue = request 9 40 ∷ shutdown_command 41 ∷ request 11 42 ∷ [] }

build-IsSound_example :
    let z : System opcodes = take_turns opcodes server schedule fresh_system in
    IsSound z
    × (builder.ping_interval ≢ 0 → z.has_panicked ≡ false)
    × (builder.ping_interval ≡ 0 → (z.world ≡ started) × (z.is_running ≡ false))
unfolding build create_connector with_verifier platform_verified default_provider
build-IsSound_example = build-IsSound opcodes server provider builder started schedule refl

take_turns-account_example :
    account (take_turns opcodes server schedule fresh_system)
    ≡ accepted opcodes server schedule fresh_system ++ account fresh_system
take_turns-account_example = take_turns-account opcodes server schedule fresh_system

receive_all-answered_example :
    answered (take_turns opcodes server (receive_all 3) busy).world.trace
    ≡ waiting busy.queue ++ answered started.trace
receive_all-answered_example = receive_all-answered opcodes server busy refl

-- The senders who wait, the last one first.
busy-waiting : waiting busy.queue ≡ 42 ∷ 41 ∷ 40 ∷ []
busy-waiting = refl

handle-WatchStep_example :
    WatchStep ticked started.task.status (handle opcodes server ticked started).task.status
handle-WatchStep_example = handle-WatchStep opcodes server ticked started started-Inv

create_connector-Configures_example :
    (builder : provider.VersionedBuilder) × (provider.with_safe_default_protocol_versions
        (default_provider provider)
      ≡ ok builder)
    × Configures provider dangerous_disabled
        (0, some (skip_verifier (skip_certificate_verification provider)))
        builder
unfolding create_connector with_verifier skip_certificate_verification default_provider
create_connector-Configures_example =
    create_connector-Configures provider dangerous_disabled
      (0, some (skip_verifier (skip_certificate_verification provider))) refl
