-- ===== src/Client.antt =====
-- src/client.rs: the connection task and its handlers. A handler takes the task with the trace and
-- returns both; the sender of a request or of a shutdown is a number, and its answer is an event.
pub mod Status
pub mod Invariant
pub mod Answers
pub mod Silence
pub mod Builder
pub mod Handle
pub mod Watch
pub mod Recovery
pub mod Notices
pub mod Moves
pub mod Loss
pub mod Install
pub mod Call
pub mod System
use bloop_client_framework.Base.{
  ℕ, Bool, true, false, not, ◌&&◌, List, [], ◌∷◌, Option, none, some, ◌==◌, if◌then◌else◌, Result,
  ok, err, is_some,
}
use bloop_client_framework.Connection.{
  Connection, ConnectError, ConnectOptions, ConnectOutcome, connected, invalid_credentials,
  request_raw, ping, quit, connect,
}
use bloop_client_framework.Connection.Session
use bloop_client_framework.Outside.{
  ConnectionConfig, ConnectionStatus, Event, published, responded, acknowledged, Trace, Env,
  timeout,
}
use bloop_client_framework.Protocol.{Protocol}
use bloop_client_framework.Request.{RequestError, disconnected, shutdown}

pub data InvalidCredentialsPolicy : Type 0 where
  latch retry : InvalidCredentialsPolicy

-- What an on-connect hook does: requests through the session, one after the other, each in view of
-- the answers so far, and in the end success or failure.
pub data Hook (P : Protocol) : Type 0 where
  finish : Bool → Hook P
  request : P.RawMessage → (Result P.RawMessage (RequestError P) → Hook P) → Hook P

pub data Command (P : Protocol) : Type 0 where
  configure : Option ConnectionConfig → Command P
  request : P.RawMessage → ℕ → Command P
  shutdown_command : ℕ → Command P

-- What the loop of `run` selects; it ends when all handles are gone.
pub data Input (P : Protocol) : Type 0 where
  received : Command P → Input P
  ticked : Input P

pub record ClientTask (P : Protocol) : Type 0 where
  pub config : Option ConnectionConfig
  pub connection : Option (Connection P)
  pub status : ConnectionStatus P  -- the value of the watch `status_tx`
  pub ping_interval : ℕ
  pub request_timeout : ℕ
  pub options : ConnectOptions
  pub invalid_credentials_policy : InvalidCredentialsPolicy
  pub on_connect : Option (P.Capabilities → Hook P)
  pub credentials_invalid : Bool
  pub is_shutdown : Bool

pub record World (P : Protocol) : Type 0 where
  pub task : ClientTask P
  pub trace : Trace P

-- `Option::is_some` decides between the two statuses of a client with no connection.
abbrev pub status_for : {P : Protocol} → Option ConnectionConfig → ConnectionStatus P
status_for none = ConnectionStatus.unconfigured
status_for (some _) = ConnectionStatus.disconnected

abbrev pub is_latch : InvalidCredentialsPolicy → Bool
is_latch latch = true
is_latch retry = false

module _ (P : Protocol) where
  open P use {capabilities_eq}

  unfoldable pub status_eq : ConnectionStatus P → ConnectionStatus P → Bool
  status_eq ConnectionStatus.unconfigured ConnectionStatus.unconfigured = true
  status_eq ConnectionStatus.disconnected ConnectionStatus.disconnected = true
  status_eq (ConnectionStatus.connected a) (ConnectionStatus.connected b) = capabilities_eq a b
  status_eq ConnectionStatus.invalid_credentials ConnectionStatus.invalid_credentials = true
  status_eq ConnectionStatus.shutdown ConnectionStatus.shutdown = true
  status_eq _ _ = false

  unfoldable pub set_status : ConnectionStatus P → World P → World P
  set_status status w =
      if status_eq w.task.status status
      then w
      else record { task = record (w.task) { status = status }; trace = published status ∷ w.trace }

  unfoldable pub drop_connection : World P → World P
  unfolding set_status
  drop_connection w =
      set_status ConnectionStatus.disconnected
        (record w { task = record (w.task) { connection = none } })

  -- The branch of an established connection: the hook, and then the status.
  unfoldable pub install : Connection P → World P → World P
  install c w =
      let set =
        set_status (ConnectionStatus.connected c.capabilities)
          (record w { task = record (w.task) { credentials_invalid = false } }) in
      record set { task = record (set.task) { connection = some c } }

  -- `response.send(…)`
  abbrev pub send : Event P → World P → World P
  send event w = record w { trace = event ∷ w.trace }

module _ (P : Protocol) (E : Env P) where
  open P use {
    RawMessage, FrameError, message_type, error_opcode, decode_error, is_fatal, Capabilities,
  }

  -- `if let Some(mut connection) = self.connection.take() { connection.quit().await; }`
  unfoldable pub quit_taken : Option (Connection P) → Trace P → Trace P
  quit_taken none trace = trace
  quit_taken (some c) trace = quit P E c trace

  unfoldable pub take_and_quit : World P → World P
  unfolding quit_taken
  take_and_quit w = record {
    task = record (w.task) { connection = none };
    trace = quit_taken w.task.connection w.trace;
  }

  -- `raw.message_type == ErrorResponse::OPCODE && decode_message(&raw).is_ok_and(is_fatal)`
  unfoldable pub is_fatal_error : RawMessage → Bool
  is_fatal_error raw =
      message_type raw == error_opcode
      && elim (decode_error raw) [ ok e ↦ is_fatal e | err _ ↦ false ]

  unfoldable pub handle_configure : Option ConnectionConfig → World P → World P
  unfolding take_and_quit
  handle_configure config w =
      if w.task.is_shutdown
      then w
      else (let quitted = take_and_quit w in
          let cleared = record quitted {
            task = record (quitted.task) { credentials_invalid = false };
          } in
          let set = set_status P (status_for config) cleared in
          record set { task = record (set.task) { config = config } })

  -- What becomes of the outcome of a request.
  unfoldable pub request_outcome : ℕ → Option (Result RawMessage FrameError) → World P → World P
  unfolding is_fatal_error
  request_outcome response (some (ok raw)) w =
      send P (responded response (ok raw)) (if is_fatal_error raw then drop_connection P w else w)
  request_outcome response (some (err _)) w =
      send P (responded response (err disconnected)) (drop_connection P w)
  request_outcome response none w =
      send P (responded response (err disconnected)) (drop_connection P w)

  unfoldable pub request_on : Option (Connection P) → RawMessage → ℕ → World P → World P
  unfolding request_outcome
  request_on none message response w = send P (responded response (err disconnected)) w
  request_on (some c) message response w =
      let (r, after) = timeout P E w.task.request_timeout (request_raw P E c message) w.trace in
      request_outcome response r (record w { trace = after })

  unfoldable pub handle_request : RawMessage → ℕ → World P → World P
  unfolding request_on
  handle_request message response w =
      if w.task.is_shutdown
      then send P (responded response (err shutdown)) w
      else request_on w.task.connection message response w

  unfoldable pub handle_shutdown : ℕ → World P → World P
  unfolding take_and_quit
  handle_shutdown response w =
      let quitted = take_and_quit w in
      let stopped = record quitted { task = record (quitted.task) { is_shutdown = true } } in
      send P (acknowledged response) (set_status P ConnectionStatus.shutdown stopped)

  unfoldable pub handle_command : Command P → World P → World P
  unfolding handle_configure handle_request handle_shutdown
  handle_command (configure config) w = handle_configure config w
  handle_command (request message response) w = handle_request message response w
  handle_command (shutdown_command response) w = handle_shutdown response w

  unfoldable pub run_hook : Connection P → Hook P → Trace P → Bool × Trace P
  run_hook c (finish success) trace = (success, trace)
  run_hook c (request message then') trace =
      let (r, after) = Session.request_raw P E c message trace in run_hook c (then' r) after

  unfoldable pub hook_outcome : Connection P → Option Bool → World P → World P
  unfolding install
  hook_outcome c (some true) w = install P c w
  hook_outcome c (some false) w =
      set_status P ConnectionStatus.disconnected (record w { trace = quit P E c w.trace })
  hook_outcome c none w = set_status P ConnectionStatus.disconnected w

  unfoldable pub run_on_connect : Option (Capabilities → Hook P) → Connection P → World P → World P
  unfolding hook_outcome
  run_on_connect none c w = install P c w
  run_on_connect (some hook) c w =
      let (r, after) =
        timeout P E w.task.request_timeout (run_hook c (hook c.capabilities)) w.trace in
      hook_outcome c r (record w { trace = after })

  unfoldable pub connect_outcome :
      Option (Result (ConnectOutcome P) (ConnectError P E)) → World P → World P
  unfolding run_on_connect
  connect_outcome none w = set_status P ConnectionStatus.disconnected w
  connect_outcome (some (err _)) w = set_status P ConnectionStatus.disconnected w
  connect_outcome (some (ok invalid_credentials)) w =
      set_status P ConnectionStatus.invalid_credentials
        (record w { task = record (w.task) { credentials_invalid = true } })
  connect_outcome (some (ok (connected c))) w = run_on_connect w.task.on_connect c w

  unfoldable pub connect_with : Option ConnectionConfig → World P → World P
  unfolding connect_outcome
  connect_with none w = w
  connect_with (some config) w =
      let (r, after) =
        timeout P E w.task.request_timeout (connect P E config w.task.options) w.trace in
      connect_outcome r (record w { trace = after })

  unfoldable pub try_connect : World P → World P
  unfolding connect_with
  try_connect w =
      if w.task.credentials_invalid && is_latch w.task.invalid_credentials_policy
      then w
      else connect_with w.task.config w

  -- What becomes of the outcome of a ping.
  unfoldable pub ping_outcome : Option (Result (Unit {0}) (RequestError P)) → World P → World P
  ping_outcome (some (ok _)) w = w
  ping_outcome (some (err _)) w = drop_connection P w
  ping_outcome none w = drop_connection P w

  unfoldable pub tick_on : Option (Connection P) → World P → World P
  unfolding ping_outcome try_connect
  tick_on none w = try_connect w
  tick_on (some c) w =
      let (r, after) = timeout P E w.task.request_timeout (ping P E c) w.trace in
      ping_outcome r (record w { trace = after })

  unfoldable pub handle_tick : World P → World P
  unfolding tick_on
  handle_tick w = if w.task.is_shutdown then w else tick_on w.task.connection w

  unfoldable pub handle : Input P → World P → World P
  unfolding handle_command handle_tick
  handle (received command) w = handle_command command w
  handle ticked w = handle_tick w

  unfoldable pub run_loop : List (Input P) → World P → World P
  run_loop [] w = w
  run_loop (input ∷ inputs) w = run_loop inputs (handle input w)

  -- `time::interval` panics for a zero period, which ends the task before it does anything.
  unfoldable pub run : List (Input P) → World P → World P
  unfolding run_loop take_and_quit
  run inputs w =
      let ended = set_status P ConnectionStatus.shutdown (take_and_quit (run_loop inputs w)) in
      if w.task.ping_interval == 0 then w else ended
