-- ===== src/Client/Call.antt =====
-- src/client.rs: a call of a handle through the channel and the task, and back.
pub mod Success
use bloop_client_framework.Base.{
  ℕ, suc, Bool, true, false, append-nil, append_assoc, if-cases, Bool-cases, inl, inr, List, [],
  ◌∷◌, ◌++◌, length, Option, none, some, ◌==◌, ==_refl, if◌then◌else◌, Result, ok, err, ◌≡◌, refl,
  sym, ◌∙◌, ap, subst, arith,
}
use bloop_client_framework.Connection.{Connection, request_raw}
use bloop_client_framework.Outside.{responded, Trace, Env, timeout}
use bloop_client_framework.Protocol.{Protocol}
use bloop_client_framework.Request.{RequestError, disconnected, shutdown, decode_response}
use bloop_client_framework.Client.{
  Command, World, received, ticked, request, request_outcome, request_on, handle_request,
  handle_command, handle,
}
use bloop_client_framework.Client.Handle.{
  SendTimeoutError, closed, timed_out, ◌>>=◌, send_outcome, send_request, custom,
}
use bloop_client_framework.Client.System.{
  System, Turn, sends, hangs_up, receives, ticks, accepts, accepts-is_running, send_command,
  receive_from, take_turn, take_turns,
}

module _ {P : Protocol} where
  -- What a sender was answered, by the last such event.
  abbrev pub answer_in : Trace P → ℕ → Option (Result P.RawMessage (RequestError P))
  answer_in [] k = none
  answer_in (responded j r ∷ trace) k = if j == k then some r else answer_in trace k
  answer_in (_ ∷ trace) k = answer_in trace k

  -- What a send comes to where nothing else happens.
  abbrev pub queue_of : System P → Command P → Option SendTimeoutError
  queue_of s command = if accepts s then none else some (if s.is_running then timed_out else closed)

  -- What the outcome of an exchange is for its caller.
  abbrev pub reply :
      Option (Result P.RawMessage P.FrameError) → Result P.RawMessage (RequestError P)
  reply (some (ok raw)) = ok raw
  reply (some (err _)) = err disconnected
  reply none = err disconnected

  -- How many commands these turns receive, of a channel that holds enough.
  abbrev pub receive_count : List (Turn P) → ℕ
  receive_count [] = 0
  receive_count (receives ∷ turns) = suc (receive_count turns)
  receive_count (_ ∷ turns) = receive_count turns

module _ (P : Protocol) (E : Env P) where
  -- A request as a procedure on the task: refused after a shutdown, disconnected without a connection,
  -- and else what the exchange brings within the timeout.
  unfoldable pub exchanged :
      Option (Connection P) → P.RawMessage → World P → Result P.RawMessage (RequestError P)
  exchanged none message w = err disconnected
  exchanged (some c) message w =
      reply (timeout P E w.task.request_timeout (request_raw P E c message) w.trace).0

  unfoldable pub direct : P.RawMessage → World P → Result P.RawMessage (RequestError P)
  unfolding exchanged
  direct message w =
      if w.task.is_shutdown then err shutdown else exchanged w.task.connection message w

  request_outcome-answer :
      (k : ℕ) (r : Option (Result P.RawMessage P.FrameError)) (w : World P)
      → answer_in (request_outcome P E k r w).trace k ≡ some (reply r)
  unfolding request_outcome
  request_outcome-answer k (some (ok raw)) w = rw (==_refl k) refl
  request_outcome-answer k (some (err _)) w = rw (==_refl k) refl
  request_outcome-answer k none w = rw (==_refl k) refl

  request_on-answer :
      (connection : Option (Connection P)) (message : P.RawMessage) (k : ℕ) (w : World P)
      → answer_in (request_on P E connection message k w).trace k
        ≡ some (exchanged connection message w)
  unfolding request_on exchanged
  request_on-answer none message k w = rw (==_refl k) refl
  request_on-answer (some c) message k w = request_outcome-answer k _ (record w { trace = _ })

  handle_request-answer :
      (message : P.RawMessage) (k : ℕ) (w : World P)
      → answer_in (handle P E (received (request message k)) w).trace k ≡ some (direct message w)
  unfolding handle handle_command handle_request direct
  handle_request-answer message k w =
      agrees w.task.is_shutdown (record w { trace = responded k (err shutdown) ∷ w.trace })
        (request_on P E w.task.connection message k w) (rw (==_refl k) refl)
        (request_on-answer w.task.connection message k w)
    where
      agrees :
          (b : Bool) (v u : World P) {x y : Result P.RawMessage (RequestError P)}
          → answer_in v.trace k ≡ some x
          → answer_in u.trace k ≡ some y
          → answer_in (if b then v else u).trace k ≡ some (if b then x else y)
      agrees true v u h l = h
      agrees false v u h l = l

  -- The task runs, and this command is the next in its channel.
  abbrev pub IsNext : Command P → System P → Type 0
  IsNext command s = (rest : List (Command P)) × (s.queue ≡ command ∷ rest) × (s.is_running ≡ true)

  send_command-queue :
      (command : Command P) (s : System P)
      → (more : List (Command P)) × ((send_command command s).queue ≡ s.queue ++ more)
        × ((send_command command s).is_running ≡ s.is_running)
  unfolding send_command
  send_command-queue command s = elim (Bool-cases (accepts s)) [
    | inl room ↦ rw room (command ∷ [], refl, refl)
    | inr full ↦ rw full ([], sym (append-nil s.queue), refl)
  ]

  -- A round of a running task.
  receives-head :
      (command : Command P) (queue : List (Command P)) (s : System P)
      → s.queue ≡ command ∷ queue
      → s.is_running ≡ true
      → take_turn P E receives s
        ≡ record s { world = handle P E (received command) s.world; queue = queue }
  unfolding take_turn receive_from
  receives-head command queue s e up =
      if-cases
        (λ (t : System P).
          t ≡ record s { world = handle P E (received command) s.world; queue = queue })
        s.is_running (receive_from P E s.queue s) s (λ _. ap (λ q. receive_from P E q s) e)
        λ down. absurd (cc (up, down))

  ticks-running :
      (s : System P)
      → s.is_running ≡ true
      → take_turn P E ticks s ≡ record s { world = handle P E ticked s.world }
  unfolding take_turn
  ticks-running s up =
      if-cases (λ (t : System P). t ≡ record s { world = handle P E ticked s.world }) s.is_running
        (record s { world = handle P E ticked s.world }) s (λ _. refl)
        λ down. absurd (cc (up, down))

  -- The turns that receive what is ahead of a command come to it.
  take_turns-IsNext :
      (turns : List (Turn P)) (ahead : List (Command P)) (command : Command P)
      (rest : List (Command P)) (s : System P)
      → s.queue ≡ ahead ++ command ∷ rest
      → s.is_running ≡ true
      → receive_count turns ≡ length ahead
      → IsNext command (take_turns P E turns s)
  unfolding take_turns take_turn
  take_turns-IsNext [] [] command rest s e up n = (rest, e, up)
  take_turns-IsNext [] (x ∷ ahead) command rest s e up n = absurd (omega arith)
  take_turns-IsNext (sends other ∷ turns) ahead command rest s e up n =
      let (more, e', up') = send_command-queue other s in
      take_turns-IsNext turns ahead command (rest ++ more) (send_command other s)
        (e' ∙ ap (λ q. q ++ more) e ∙ append_assoc ahead (command ∷ rest) more) (up' ∙ up) n
  take_turns-IsNext (hangs_up ∷ turns) ahead command rest s e up n =
      take_turns-IsNext turns ahead command rest (record s { has_handles = false }) e up n
  take_turns-IsNext (receives ∷ turns) [] command rest s e up n = absurd (omega arith)
  take_turns-IsNext (receives ∷ turns) (x ∷ ahead) command rest s e up n =
      subst (λ t. IsNext command (take_turns P E turns t))
        (sym (receives-head x (ahead ++ command ∷ rest) s e up))
        (take_turns-IsNext turns ahead command rest
          (record s { world = handle P E (received x) s.world; queue = ahead ++ command ∷ rest })
          refl up (omega arith))
  take_turns-IsNext (ticks ∷ turns) ahead command rest s e up n =
      subst (λ t. IsNext command (take_turns P E turns t)) (sym (ticks-running s up))
        (take_turns-IsNext turns ahead command rest (record s { world = handle P E ticked s.world })
          e up n)

  -- The system in which a command was sent and the turns `ahead` were taken.
  unfoldable pub reached : List (Turn P) → Command P → System P → System P
  reached ahead command s = take_turns P E ahead (send_command command s)

  -- And in which the task received one more command.
  unfoldable pub carried_out : List (Turn P) → Command P → System P → System P
  carried_out ahead command s = take_turn P E receives (reached ahead command s)

  reached-IsNext :
      (ahead : List (Turn P)) (command : Command P) (s : System P)
      → accepts s ≡ true
      → receive_count ahead ≡ length s.queue
      → IsNext command (reached ahead command s)
  unfolding reached send_command
  reached-IsNext ahead command s room n = rw room (
      take_turns-IsNext ahead s.queue command [] (record s { queue = s.queue ++ command ∷ [] }) refl
        (accepts-is_running s room) n)

  -- Which is this one, when `ahead` receives those ahead of it.
  pub carried_out-world :
      (ahead : List (Turn P)) (command : Command P) (s : System P)
      → accepts s ≡ true
      → receive_count ahead ≡ length s.queue
      → ((carried_out ahead command s).world
          ≡ handle P E (received command) (reached ahead command s).world)
        × ((reached ahead command s).is_running ≡ true)
        × ((carried_out ahead command s).is_running ≡ true)
  unfolding carried_out
  carried_out-world ahead command s room n =
      let (rest, e, up) = reached-IsNext ahead command s room n in
      let e' = receives-head command rest (reached ahead command s) e up in
      (ap (λ (t : System P). t.world) e', up, ap (λ (t : System P). t.is_running) e' ∙ up)

  pub send_request-direct :
      (s : System P) (ahead : List (Turn P)) (k : ℕ) (message : P.RawMessage)
      → accepts s ≡ true
      → receive_count ahead ≡ length s.queue
      → send_request P
          (queue_of s)
          (answer_in (carried_out ahead (request message k) s).world.trace)
          k
          message
        ≡ direct message (reached ahead (request message k) s).world
  unfolding send_request
  send_request-direct s ahead k message room n = rw room (
      ap (send_outcome none) (
        ap (λ w. answer_in w.trace k) (carried_out-world ahead (request message k) s room n).0
        ∙ handle_request-answer message k (reached ahead (request message k) s).world))

  -- In whatever environment and state, a typed call whose message encodes, and whose request is sent
  -- when there is room in the channel: whatever turns are taken until the task comes to the request,
  -- with its ticks and the sends of other handles among the receipts of the commands ahead, the call
  -- has its answer once the request is received. It is a procedure on the task as these turns leave it: refused after a shutdown, disconnected without a connection or when
  -- the exchange fails or times out, and else it decodes what the exchange brings.
  pub custom-direct :
      {M : Type 0} (s : System P) (ahead : List (Turn P)) (k : ℕ) (message : P.RawMessage)
      (decode : P.RawMessage → Result M P.MessageSetError)
      → accepts s ≡ true
      → receive_count ahead ≡ length s.queue
      → custom P
          (queue_of s)
          (answer_in (carried_out ahead (request message k) s).world.trace)
          k
          (ok message)
          decode
        ≡ (direct message (reached ahead (request message k) s).world >>= decode_response P decode)
  unfolding custom
  custom-direct s ahead k message decode room n =
      ap (λ r. r >>= decode_response P decode) (send_request-direct s ahead k message room n)
