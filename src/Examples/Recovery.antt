-- ===== src/Examples/Recovery.antt =====
-- The server of the examples does its part, and what the connection task then comes to.
use bloop_client_framework.Base.{
  some, [], ◌∷◌, ok, List, ◌≡◌, ◌↔◌, refl, err, none, true, false, is_some, subst,
}
use bloop_client_framework.Connection.{
  Connection, connected, connect, within_timeout, open_stream, negotiate_version, authenticate,
}
use bloop_client_framework.Connection.Handshake.{Handshaken, connect-Handshaken}
use bloop_client_framework.Connection.Healthy.{IsHealthy}
use bloop_client_framework.Connection.Order.{Reached, connect-Reached}
use bloop_client_framework.Outside.{
  looked_up, socket, opened, wrote, awaited, ConnectionStatus, Trace, Env, timeout,
}
use bloop_client_framework.Request.{decode_response}
use bloop_client_framework.Client.Install.{IsInstalled, tick-IsInstalled}
use bloop_client_framework.Client.{
  received, configure, request, ticked, World, status_for, run_loop, run, handle, finish,
  set_status, status_eq,
}
use bloop_client_framework.Client.Loss.{IsMute, IsOffline, run_loop-IsOffline}
use bloop_client_framework.Client.Invariant.{Inv}
use bloop_client_framework.Client.Notices.{IsCoherent, build-IsCoherent}
use bloop_client_framework.Client.Recovery.{IsOn}
use bloop_client_framework.Client.System.{
  System, Turn, sends, hangs_up, receives, ticks, spawned_system, send_command, take_turn,
  take_turns,
}
use bloop_client_framework.Client.System.Recovery.{tick_turns, carried_out-recovers}
use bloop_client_framework.Client.Call.{reached, carried_out}
use bloop_client_framework.Tls.{
  create_connector, with_verifier, platform_verified, default_provider,
}
use bloop_client_framework.Client.Builder.{build}
use bloop_client_framework.Examples.Outside.{opcodes, server, local, provider}
use bloop_client_framework.Examples.Network.{options}
use bloop_client_framework.Examples.Task.{builder, started, session}

server-IsHealthy : IsHealthy opcodes server local
unfolding decode_response
server-IsHealthy = record {
  in_time = λ trace duration. refl;
  resolves = λ trace. (443, [], refl);
  dials = λ trace a. (a, refl);
  located = λ tcp. (127, refl);
  named = refl;
  secures = λ trace tcp. refl;
  writes = λ trace s message. refl;
  welcomes = (1, refl, λ trace s limit. (2, refl, ((3, 1), refl, refl)));
  admits = λ ip. (3, refl, λ trace s limit. (4, refl, (tt, refl, tt)));
  pongs = (5, refl, λ trace s limit. (6, refl, (tt, refl, tt)));
}

-- A whole attempt on this server.
abbrev attempt : Trace opcodes
attempt =
    awaited 2 1024
    ∷ wrote 2 3
    ∷ awaited 2 1024
    ∷ wrote 2 1
    ∷ opened 2
    ∷ socket
    ∷ looked_up "localhost" 443
    ∷ []

abbrev established : Connection opcodes
established = record { stream = 2; capabilities = 1; max_payload_len = 16777216 }

connect-Handshaken_example :
    (connect opcodes server local options [] ≡ (ok (connected established), attempt))
    ↔ Handshaken opcodes server local options (connected established) [] attempt
connect-Handshaken_example =
    connect-Handshaken opcodes server local options (connected established) [] attempt

connect-Reached_example :
    Reached opcodes server local options [] (connect opcodes server local options []).1
connect-Reached_example = connect-Reached opcodes server local options []

-- The channel of a client, in which a request waits.
abbrev waited : System opcodes
waited = record (spawned_system started) { queue = request 9 40 ∷ [] }

-- It connects to what it is configured for before the configuration is received.
abbrev meanwhile : List (Turn opcodes)
meanwhile = ticks ∷ sends (request 9 42) ∷ receives ∷ hangs_up ∷ []

carried_out-recovers_example :
    let z : System opcodes = carried_out opcodes server meanwhile (configure (some local)) waited in
    (c : Connection opcodes) × ((connect opcodes server local z.world.task.options z.world.trace).0
      ≡ ok (connected c))
    × IsOn c (take_turns opcodes server (tick_turns 3) z).world.task
unfolding reached send_command take_turns take_turn handle timeout connect within_timeout
    open_stream negotiate_version decode_response authenticate set_status status_eq
carried_out-recovers_example =
    carried_out-recovers opcodes server local 2 meanwhile waited server-IsHealthy refl refl refl tt

build-IsCoherent_example :
    IsCoherent (status_for builder.config) (run opcodes server session started)
unfolding build create_connector with_verifier platform_verified default_provider
build-IsCoherent_example = build-IsCoherent opcodes provider server builder started session refl

-- A client that asks something on every new connection.
abbrev hooked : World opcodes
hooked = record {
  task = record (started.task) { on_connect = some (λ capabilities. request 9 λ r. finish true) };
  trace = [];
}

tick-IsInstalled_example :
    ((handle opcodes server ticked hooked).task.connection ≡ some established)
    ↔ IsInstalled opcodes server local hooked established
tick-IsInstalled_example =
    tick-IsInstalled opcodes server local hooked established refl refl refl refl

-- The same server, when it sends nothing.
abbrev mute : Env opcodes
mute = record server { read_frame = λ trace stream limit. err 0 }

mute-IsMute : IsMute opcodes mute
mute-IsMute trace s limit raw e = cc

-- A client that is connected when this begins.
abbrev live : World opcodes
live = record {
  task = record (started.task) {
    connection = some established;
    status = ConnectionStatus.connected 1;
  };
  trace = attempt;
}

live-Inv : Inv live.task
live-Inv = record {
  closed = λ e. absurd cc;
  live = λ c e.
      subst
        (λ o. elim o [
          | none ↦ ⊥
          | some d ↦
              (live.task.status ≡ ConnectionStatus.connected d.capabilities)
              × (is_some live.task.config ≡ true)
              × (live.task.credentials_invalid ≡ false)
              × (d.max_payload_len ≡ live.task.options.max_payload_len)
        ])
        e (refl, refl, refl, refl);
  unset = λ e. absurd cc;
  idle = λ _ e. absurd cc;
  latched = λ _ e. absurd cc;
}

run_loop-IsOffline_example :
    IsOffline (run_loop opcodes mute (ticked ∷ received (request 9 40) ∷ ticked ∷ []) live).task
run_loop-IsOffline_example =
    run_loop-IsOffline opcodes mute mute-IsMute ticked (received (request 9 40) ∷ ticked ∷ []) live
      live-Inv tt
