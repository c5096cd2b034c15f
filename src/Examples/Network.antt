-- ===== src/Examples/Network.antt =====
-- Requests and connections to the server of the examples.
use bloop_client_framework.Base.{[], ok, ◌≡◌, refl}
use bloop_client_framework.Connection.{
  ConnectOptions, connected, connect, within_timeout, open_stream, negotiate_version, authenticate,
}
use bloop_client_framework.Request.{decode_response}
use bloop_client_framework.Examples.Outside.{opcodes, server, local}

abbrev pub options : ConnectOptions
options = record { io_timeout = 5000; max_payload_len = 16777216 }

-- The attempt succeeds.
connect_succeeds :
    (connect opcodes server local options []).0
    ≡ ok (connected (record { stream = 2; capabilities = 1; max_payload_len = 16777216 }))
unfolding connect within_timeout open_stream negotiate_version decode_response authenticate
connect_succeeds = refl
