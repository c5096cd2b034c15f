-- ===== src/Examples/Task.antt =====
-- Runs of the connection task against the server of the examples.
use bloop_client_framework.Base.{none, true, List, [], ◌∷◌, ◌++◌, ◌≡◌, refl, inr}
use bloop_client_framework.Connection.{
  connect, within_timeout, open_stream, negotiate_version, authenticate, ping, quit,
}
use bloop_client_framework.Request.{decode_response}
use bloop_client_framework.Outside.{ConnectionStatus, timeout}
use bloop_client_framework.Client.{
  World, Input, received, ticked, request, shutdown_command, handle, run_loop, set_status,
  status_eq,
}
use bloop_client_framework.Client.Invariant.{Inv}
use bloop_client_framework.Client.Answers.{run_loop-answered}
use bloop_client_framework.Client.Answers.Senders.{answered, asked}
use bloop_client_framework.Client.Silence.{refusals, IsRefused, run_loop-closed, run_loop-latched}
use bloop_client_framework.Client.Builder.{
  BloopClientBuilder, new, with_config, spawned, build, build-run_loop-Inv,
}
use bloop_client_framework.Tls.{
  create_connector, with_verifier, platform_verified, default_provider,
}
use bloop_client_framework.Examples.Outside.{opcodes, server, local, provider}

abbrev pub builder : BloopClientBuilder opcodes
builder = with_config local (new opcodes)

abbrev pub started : World opcodes
started = record { task = spawned opcodes provider builder; trace = [] }

-- Connect, ping, ask twice, shut down, ask again.
abbrev pub session : List (Input opcodes)
session =
    ticked
    ∷ ticked
    ∷ received (request 9 40)
    ∷ received (request 11 41)
    ∷ received (shutdown_command 42)
    ∷ received (request 9 43)
    ∷ []

build-run_loop-Inv_example : Inv (run_loop opcodes server session started).task
unfolding build create_connector with_verifier platform_verified default_provider
build-run_loop-Inv_example = build-run_loop-Inv opcodes provider server builder started session refl

run_loop-answered_example :
    answered (run_loop opcodes server session started).trace
    ≡ asked session ++ answered started.trace
run_loop-answered_example = run_loop-answered opcodes server session started

pub started-Inv : Inv started.task
unfolding run_loop build create_connector with_verifier platform_verified default_provider
started-Inv = build-run_loop-Inv opcodes provider server builder started [] refl

-- A client that is shut down.
abbrev stopped : World opcodes
stopped = record {
  task = record (started.task) { status = ConnectionStatus.shutdown; is_shutdown = true };
  trace = [];
}

stopped-Inv : Inv stopped.task
stopped-Inv = record {
  closed = λ _. (refl, refl);
  live = λ c e. absurd cc;
  unset = λ _. refl;
  idle = λ e. absurd cc;
  latched = λ e. absurd cc;
}

run_loop-closed_example :
    ((run_loop opcodes server session stopped).trace
      ≡ refusals opcodes server session ++ stopped.trace)
    × ((run_loop opcodes server session stopped).task.is_shutdown ≡ true)
    × ((run_loop opcodes server session stopped).task.connection ≡ none)
    × ((run_loop opcodes server session stopped).task.status ≡ ConnectionStatus.shutdown)
run_loop-closed_example = run_loop-closed opcodes server session stopped stopped-Inv refl

-- A client whose credentials were rejected.
abbrev rejected : World opcodes
rejected = record {
  task = record (started.task) {
    status = ConnectionStatus.invalid_credentials;
    credentials_invalid = true;
  };
  trace = [];
}

rejected-Inv : Inv rejected.task
rejected-Inv = record {
  closed = λ e. absurd cc;
  live = λ c e. absurd cc;
  unset = λ e. absurd cc;
  idle = λ _ _. inr (refl, refl);
  latched = λ _ _. refl;
}

run_loop-latched_example :
    IsRefused opcodes server rejected
      (run_loop opcodes server (ticked ∷ received (request 9 40) ∷ ticked ∷ []) rejected)
run_loop-latched_example =
    run_loop-latched opcodes server (ticked ∷ received (request 9 40) ∷ ticked ∷ []) rejected tt
      rejected-Inv (refl, refl)

-- The session gets its answers, the last one first.
session-answered : answered (run_loop opcodes server session started).trace ≡ 43 ∷ 42 ∷ 41 ∷ 40 ∷ []
unfolding run_loop answered handle set_status status_eq timeout connect within_timeout open_stream
    negotiate_version decode_response authenticate ping quit
session-answered = refl
