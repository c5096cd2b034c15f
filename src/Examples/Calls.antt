-- ===== src/Examples/Calls.antt =====
-- A call through the client's handle.
use bloop_client_framework.Base.{ℕ, Option, none, some, Result, ok}
use bloop_client_framework.Client.{Command}
use bloop_client_framework.Client.Handle.{SendTimeoutError}
use bloop_client_framework.Request.{RequestError}
use bloop_client_framework.Examples.Outside.{opcodes}

abbrev queue : Command opcodes → Option SendTimeoutError
queue command = none

abbrev reply : ℕ → Option (Result ℕ (RequestError opcodes))
reply response = some (ok 14)

abbrev match_opcode : ℕ
match_opcode = 14
