-- ===== src/Client/Builder.antt =====
-- src/client.rs: `BloopClientBuilder`. Durations are in milliseconds.
use bloop_client_framework.Base.{
  ℕ, ◌*◌, false, List, [], Option, none, some, Result, ok, err, ◌≡◌, refl, subst, inl,
}
use bloop_client_framework.Outside.{ConnectionConfig, Env}
use bloop_client_framework.Protocol.{Protocol}
use bloop_client_framework.Tls.{Rustls, RootCertSource, platform, TlsError, create_connector}
use bloop_client_framework.Client.{
  InvalidCredentialsPolicy, latch, Hook, Input, ClientTask, World, status_for, run_loop,
}
use bloop_client_framework.Client.Invariant.{Inv}
use bloop_client_framework.Client.Invariant.Runs.{run_loop-Inv}

pub record BloopClientBuilder (P : Protocol) : Type 0 where
  pub config : Option ConnectionConfig
  pub root_cert_source : RootCertSource
  pub ping_interval : ℕ
  pub io_timeout : ℕ
  pub request_timeout : ℕ
  pub max_payload_len : ℕ
  pub invalid_credentials_policy : InvalidCredentialsPolicy
  pub on_connect : Option (P.Capabilities → Hook P)

abbrev pub new : (P : Protocol) → BloopClientBuilder P
new P = record {
  config = none;
  root_cert_source = platform;
  ping_interval = 3000;
  io_timeout = 5000;
  request_timeout = 60000;
  max_payload_len = 16 * 1024 * 1024;
  invalid_credentials_policy = latch;
  on_connect = none;
}

abbrev pub with_config :
    {P : Protocol} → ConnectionConfig → BloopClientBuilder P → BloopClientBuilder P
with_config config b = record b { config = some config }

abbrev pub with_root_cert_source :
    {P : Protocol} → RootCertSource → BloopClientBuilder P → BloopClientBuilder P
with_root_cert_source source b = record b { root_cert_source = source }

abbrev pub with_ping_interval : {P : Protocol} → ℕ → BloopClientBuilder P → BloopClientBuilder P
with_ping_interval interval b = record b { ping_interval = interval }

abbrev pub with_io_timeout : {P : Protocol} → ℕ → BloopClientBuilder P → BloopClientBuilder P
with_io_timeout timeout b = record b { io_timeout = timeout }

abbrev pub with_request_timeout : {P : Protocol} → ℕ → BloopClientBuilder P → BloopClientBuilder P
with_request_timeout timeout b = record b { request_timeout = timeout }

abbrev pub with_max_payload_len : {P : Protocol} → ℕ → BloopClientBuilder P → BloopClientBuilder P
with_max_payload_len len b = record b { max_payload_len = len }

abbrev pub with_invalid_credentials_policy :
    {P : Protocol} → InvalidCredentialsPolicy → BloopClientBuilder P → BloopClientBuilder P
with_invalid_credentials_policy policy b = record b { invalid_credentials_policy = policy }

abbrev pub with_on_connect :
    {P : Protocol} → (P.Capabilities → Hook P) → BloopClientBuilder P → BloopClientBuilder P
with_on_connect hook b = record b { on_connect = some hook }

module _ (P : Protocol) (R : Rustls) where
  -- The task that `build` spawns.
  abbrev pub spawned : BloopClientBuilder P → ClientTask P
  spawned b = record {
    config = b.config;
    connection = none;
    status = status_for b.config;
    ping_interval = b.ping_interval;
    request_timeout = b.request_timeout;
    options = record { io_timeout = b.io_timeout; max_payload_len = b.max_payload_len };
    invalid_credentials_policy = b.invalid_credentials_policy;
    on_connect = b.on_connect;
    credentials_invalid = false;
    is_shutdown = false;
  }

  unfoldable pub build : BloopClientBuilder P → Result (World P) (TlsError R)
  build b = elim (create_connector R b.root_cert_source) [
    | err e ↦ err e
    | ok connector ↦ ok (record { task = spawned b; trace = [] })
  ]

  pub build-eq-ok :
      (b : BloopClientBuilder P) (w : World P)
      → build b ≡ ok w
      → record { task = spawned b; trace = [] } ≡ w
  unfolding build
  build-eq-ok b w e = started (create_connector R b.root_cert_source) e
    where
      started :
          (r : Result (R.ClientConfig) (TlsError R))
          → elim r [ err e ↦ err e | ok connector ↦ ok (record { task = spawned b; trace = [] }) ]
            ≡ ok w
          → record { task = spawned b; trace = [] } ≡ w
      started (ok connector) h = cc
      started (err x) h = absurd cc

  spawned-Inv : (b : BloopClientBuilder P) → Inv (spawned b)
  spawned-Inv b = record {
    closed = λ e. absurd cc;
    live = λ c e. absurd cc;
    unset = λ _. refl;
    idle = λ _ _. inl refl;
    latched = λ _ e. absurd cc;
  }

  -- Whatever builder a client is built from, and whatever commands and ticks its task then handles,
  -- in whatever environment, the invariant holds of the task between two of them.
  pub build-run_loop-Inv :
      (E : Env P) (b : BloopClientBuilder P) (w : World P) (inputs : List (Input P))
      → build b ≡ ok w
      → Inv (run_loop P E inputs w).task
  build-run_loop-Inv E b w inputs h =
      run_loop-Inv P E inputs w (subst (λ v. Inv v.task) (build-eq-ok b w h) (spawned-Inv b))
