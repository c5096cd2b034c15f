-- ===== src/Client/Loss.antt =====
-- What the task comes to when the server no longer answers.
use bloop_client_framework.Base.{
  ℕ, ◌&&◌, List, [], ◌∷◌, Option, none, some, if-cases, Result, ok, err, ◌≡◌, ◌≢◌, refl, sym, ◌∙◌,
  ap, Bool-cases, Option-cases, inl, inr,
}
use bloop_client_framework.Connection.{
  Connection, ConnectError, ConnectOutcome, request_raw, ping, connect,
}
use bloop_client_framework.Connection.Exchanged.{answer-eq-ok, request_raw-eq-ok}
use bloop_client_framework.Connection.Handshake.{connect-Handshaken}
use bloop_client_framework.Outside.{ConnectionConfig, ConnectionStatus, Stream, Trace, Env, timeout}
use bloop_client_framework.Protocol.{Protocol}
use bloop_client_framework.Request.{RequestError}
use bloop_client_framework.Client.{
  ClientTask, World, Input, received, ticked, configure, request, shutdown_command, drop_connection,
  take_and_quit, handle_configure, handle_request, handle_shutdown, handle_command, request_outcome,
  request_on, is_latch, status_for, connect_outcome, connect_with, try_connect, ping_outcome,
  tick_on, handle_tick, handle, run_loop,
}
use bloop_client_framework.Client.Status.{set_status-task, drop_connection-task}
use bloop_client_framework.Client.Invariant.{Inv}
use bloop_client_framework.Client.Invariant.Runs.{run_loop-Inv}

-- No connection, and none shown.
abbrev pub IsOffline : {P : Protocol} → ClientTask P → Type 0
IsOffline {P} t =
    (t.connection ≡ none) × ((c : P.Capabilities) → t.status ≢ ConnectionStatus.connected c)

-- An input that uses the connection.
abbrev pub IsUse : {P : Protocol} → Input P → Type 0
IsUse ticked = Unit
IsUse (received (request _ _)) = Unit
IsUse (received _) = ⊥

module _ (P : Protocol) (E : Env P) where
  -- No frame ever arrives.
  abbrev pub IsMute : Type 0
  IsMute =
      (trace : Trace P) (s : Stream) (limit : ℕ) (raw : P.RawMessage)
      → E.read_frame trace s limit ≢ ok raw

  -- What a future under a timeout comes to, it comes to by itself.
  pub timeout-eq-some :
      {A : Type 0} (duration : ℕ) (future : Trace P → A × Trace P) (trace : Trace P) {a : A}
      → (timeout P E duration future trace).0 ≡ some a
      → future trace ≡ (a, (future trace).1)
  unfolding timeout
  timeout-eq-some duration future trace e = elim (Option-cases (E.deadline trace duration)) [
    | inl in_time ↦ ap (λ x. (x, (future trace).1)) (cc (rw (in_time, timeout) at e))
    | inr (lost, late) ↦ absurd (cc (rw (late, timeout) at e))
  ]

  module _ (mute : IsMute) where
    connect-mute :
        (config : ConnectionConfig) (w : World P) (o : ConnectOutcome P)
        → (timeout P E w.task.request_timeout (connect P E config w.task.options) w.trace).0
          ≢ some (ok o)
    connect-mute config w o e =
        let x =
          (connect-Handshaken P E config w.task.options o w.trace
              (connect P E config w.task.options w.trace).1).0
            (timeout-eq-some w.task.request_timeout (connect P E config w.task.options) w.trace
              e) in
        mute _ _ _ x.welcome x.negotiates.answered

    ping-mute :
        (c : Connection P) (w : World P) (u : Unit {0})
        → (timeout P E w.task.request_timeout (ping P E c) w.trace).0 ≢ some (ok u)
    unfolding ping
    ping-mute c w u e =
        let (message, raw, encodes, exchanged, decodes) =
          answer-eq-ok P E c P.encode_ping P.decode_pong
            (timeout-eq-some w.task.request_timeout (ping P E c) w.trace e) in
        mute _ _ _ raw exchanged.answered

    request-mute :
        (c : Connection P) (message : P.RawMessage) (w : World P) (raw : P.RawMessage)
        → (timeout P E w.task.request_timeout (request_raw P E c message) w.trace).0 ≢ some (ok raw)
    request-mute c message w raw e =
        mute _ _ _ raw
          (request_raw-eq-ok P E c message
            (timeout-eq-some w.task.request_timeout (request_raw P E c message) w.trace e)).answered

    -- The handlers of the outcomes, where these are no success.
    connect_outcome-none :
        (r : Option (Result (ConnectOutcome P) (ConnectError P E))) (w : World P)
        → ((o : ConnectOutcome P) → r ≢ some (ok o))
        → w.task.connection ≡ none
        → (connect_outcome P E r w).task.connection ≡ none
    unfolding connect_outcome
    connect_outcome-none none w h e = ap (λ t. t.connection) (set_status-task P _ w) ∙ e
    connect_outcome-none (some (err x)) w h e = ap (λ t. t.connection) (set_status-task P _ w) ∙ e
    connect_outcome-none (some (ok o)) w h e = absurd (h o refl)

    connect_with-none :
        (config : Option ConnectionConfig) (w : World P)
        → w.task.connection ≡ none
        → (connect_with P E config w).task.connection ≡ none
    unfolding connect_with
    connect_with-none none w e = e
    connect_with-none (some config) w e =
        connect_outcome-none _ (record w { trace = _ }) (connect-mute config w) e

    drop_connection-none : (w : World P) → (drop_connection P w).task.connection ≡ none
    drop_connection-none w = ap (λ t. t.connection) (drop_connection-task P w)

    ping_outcome-none :
        (r : Option (Result (Unit {0}) (RequestError P))) (w : World P)
        → ((u : Unit {0}) → r ≢ some (ok u))
        → (ping_outcome P E r w).task.connection ≡ none
    unfolding ping_outcome
    ping_outcome-none none w h = drop_connection-none w
    ping_outcome-none (some (err x)) w h = drop_connection-none w
    ping_outcome-none (some (ok u)) w h = absurd (h u refl)

    request_outcome-none :
        (response : ℕ) (r : Option (Result P.RawMessage P.FrameError)) (w : World P)
        → ((raw : P.RawMessage) → r ≢ some (ok raw))
        → (request_outcome P E response r w).task.connection ≡ none
    unfolding request_outcome
    request_outcome-none response none w h = drop_connection-none w
    request_outcome-none response (some (err x)) w h = drop_connection-none w
    request_outcome-none response (some (ok raw)) w h = absurd (h raw refl)

    tick_on-none :
        (connection : Option (Connection P)) (w : World P)
        → (connection ≡ none → w.task.connection ≡ none)
        → (tick_on P E connection w).task.connection ≡ none
    unfolding tick_on try_connect
    tick_on-none none w h =
        if-cases (λ (v : World P). v.task.connection ≡ none)
          (w.task.credentials_invalid && is_latch w.task.invalid_credentials_policy) w
          (connect_with P E w.task.config w) (λ _. h refl)
          λ _. connect_with-none w.task.config w (h refl)
    tick_on-none (some c) w h = ping_outcome-none _ (record w { trace = _ }) (ping-mute c w)

    request_on-none :
        (connection : Option (Connection P)) (message : P.RawMessage) (response : ℕ) (w : World P)
        → (connection ≡ none → w.task.connection ≡ none)
        → (request_on P E connection message response w).task.connection ≡ none
    unfolding request_on
    request_on-none none message response w h = h refl
    request_on-none (some c) message response w h =
        request_outcome-none response _ (record w { trace = _ }) (request-mute c message w)

    -- An input that uses the connection ends it, and no other gets one.
    use-none :
        (input : Input P) (w : World P)
        → Inv w.task
        → IsUse input
        → (handle P E input w).task.connection ≡ none
    unfolding handle handle_tick handle_command handle_request
    use-none ticked w i u =
        if-cases (λ (v : World P). v.task.connection ≡ none) w.task.is_shutdown w
          (tick_on P E w.task.connection w) (λ down. (i.closed down).0)
          λ _. tick_on-none w.task.connection w λ e. e
    use-none (received (request message response)) w i u =
        if-cases (λ (v : World P). v.task.connection ≡ none) w.task.is_shutdown _
          (request_on P E w.task.connection message response w) (λ down. (i.closed down).0)
          λ _. request_on-none w.task.connection message response w λ e. e
    use-none (received (configure config)) w i u = absurd u
    use-none (received (shutdown_command response)) w i u = absurd u

    handle-none :
        (input : Input P) (w : World P)
        → w.task.connection ≡ none
        → (handle P E input w).task.connection ≡ none
    unfolding handle handle_tick handle_command handle_request handle_configure handle_shutdown
        take_and_quit
    handle-none ticked w e =
        if-cases (λ (v : World P). v.task.connection ≡ none) w.task.is_shutdown w
          (tick_on P E w.task.connection w) (λ _. e) λ _. tick_on-none w.task.connection w λ _. e
    handle-none (received (request message response)) w e =
        if-cases (λ (v : World P). v.task.connection ≡ none) w.task.is_shutdown _
          (request_on P E w.task.connection message response w) (λ _. e)
          λ _. request_on-none w.task.connection message response w λ _. e
    handle-none (received (configure config)) w e =
        if-cases (λ (v : World P). v.task.connection ≡ none) w.task.is_shutdown w _ (λ _. e)
          λ _. ap (λ t. t.connection) (set_status-task P (status_for config) _)
    handle-none (received (shutdown_command response)) w e =
        ap (λ t. t.connection) (set_status-task P ConnectionStatus.shutdown _)

    run_loop-none :
        (inputs : List (Input P)) (w : World P)
        → w.task.connection ≡ none
        → (run_loop P E inputs w).task.connection ≡ none
    unfolding run_loop
    run_loop-none [] w e = e
    run_loop-none (input ∷ inputs) w e =
        run_loop-none inputs (handle P E input w) (handle-none input w e)

    Inv-IsOffline : (t : ClientTask P) → Inv t → t.connection ≡ none → IsOffline t
    Inv-IsOffline t i e = (
      e,
      λ c same. elim (Bool-cases t.is_shutdown) [
        | inl down ↦ cc (same, (i.closed down).1)
        | inr up ↦ elim (i.idle up e) [
          | inl shown ↦ disconnected_shown t.config (sym shown ∙ same)
          | inr (rejected, _) ↦ cc (same, rejected)
        ]
      ],
    )
      where
        disconnected_shown :
            (config : Option ConnectionConfig) {c : P.Capabilities}
            → status_for {P = P} config ≢ ConnectionStatus.connected c
        disconnected_shown none h = cc
        disconnected_shown (some config) h = cc

    -- Where no frame ever arrives, whatever else the network does, and the invariant holds: behind one
    -- tick or request, and whatever commands and ticks follow it, the client has no connection, and
    -- the watch shows none.
    pub run_loop-IsOffline :
        (input : Input P) (inputs : List (Input P)) (w : World P)
        → Inv w.task
        → IsUse input
        → IsOffline (run_loop P E (input ∷ inputs) w).task
    unfolding run_loop
    run_loop-IsOffline input inputs w i u =
        Inv-IsOffline _ (run_loop-Inv P E (input ∷ inputs) w i)
          (run_loop-none inputs (handle P E input w) (use-none input w i u))
