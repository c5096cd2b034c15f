-- ===== src/Client/Call/Success.antt =====
-- src/client.rs: what a call of a handle that succeeds has gone through.
use bloop_client_framework.Base.{
  ℕ, Bool, true, false, if◌then◌else◌, Option, none, some, Result, ok, err, ◌≡◌, refl, Bool-cases,
  Option-cases, inl, inr,
}
use bloop_client_framework.Protocol.{Protocol}
use bloop_client_framework.Request.{RequestError}
use bloop_client_framework.Outside.{Trace, Env}
use bloop_client_framework.Connection.{Connection, request_raw}
use bloop_client_framework.Connection.Exchanged.{Exchanged, request_raw-eq-ok}
use bloop_client_framework.Client.{World}
use bloop_client_framework.Client.Loss.{timeout-eq-some}
use bloop_client_framework.Client.Handle.{◌>>=◌, send_request, send_outcome, closed, timed_out}
use bloop_client_framework.Client.Call.{queue_of, answer_in, reply, direct, exchanged}
use bloop_client_framework.Client.System.{System, accepts}

pub bind-eq-ok :
    {A B X : Type 0} (r : Result A X) (f : A → Result B X) {b : B}
    → (r >>= f) ≡ ok b
    → (a : A) × (r ≡ ok a) × (f a ≡ ok b)
bind-eq-ok (ok a) f e = (a, refl, e)
bind-eq-ok (err x) f e = absurd cc

pub unequal : {A X : Type 0} {x : X} {a : A} → ◌≡◌ {A = Result A X} (err x) (ok a) → ⊥
unequal e = cc

module _ {P : Protocol} where
  -- A request is answered only if it got into the channel.
  pub send_request-accepts :
      (k : ℕ) (message : P.RawMessage) (s t : System P) {raw : P.RawMessage}
      → send_request P (queue_of s) (answer_in t.world.trace) k message ≡ ok raw
      → accepts s ≡ true
  unfolding send_request
  send_request-accepts k message s t e = elim (Bool-cases (accepts s)) [
    | inl room ↦ room
    | inr full ↦ absurd (refused s.is_running _ (rw (full, send_request) at e))
  ]
    where
      refused :
          (b : Bool) (a : Option (Result P.RawMessage (RequestError P))) {raw : P.RawMessage}
          → send_outcome (some (if b then timed_out else closed)) a ≡ ok raw
          → ⊥
      refused true a h = cc
      refused false a h = cc

module _ (P : Protocol) (E : Env P) where
  reply-eq-ok :
      (r : Option (Result P.RawMessage P.FrameError)) {raw : P.RawMessage}
      → reply {P = P} r ≡ ok raw
      → r ≡ some (ok raw)
  reply-eq-ok (some (ok raw)) e = cc
  reply-eq-ok (some (err x)) e = absurd cc
  reply-eq-ok none e = absurd cc

  -- A request that is answered was exchanged on a connection of a task that is up.
  pub direct-eq-ok :
      (message : P.RawMessage) (w : World P) {raw : P.RawMessage}
      → direct P E message w ≡ ok raw
      → (w.task.is_shutdown ≡ false)
        × ((c : Connection P) × (after : Trace P) × (w.task.connection ≡ some c)
            × Exchanged P E c message raw w.trace after)
  unfolding direct exchanged
  direct-eq-ok message w e = elim (Bool-cases w.task.is_shutdown) [
    | inl down ↦ absurd (cc (rw (down, direct) at e))
    | inr up ↦ elim (Option-cases w.task.connection) [
      | inl idle ↦ absurd (cc (rw (up, idle, direct, exchanged) at e))
      | inr (c, live) ↦
          let got = reply-eq-ok _ (rw (up, live, direct, exchanged) at e) in
          (
            up,
            (
              c,
              _,
              live,
              request_raw-eq-ok P E c message (
                  timeout-eq-some P E w.task.request_timeout (request_raw P E c message) w.trace
                    got),
            ),
          )
    ]
  ]
