-- ===== src/Client/Answers/Senders.antt =====
-- The senders of requests and shutdowns, and what the operations of the task do to their answers.
use bloop_client_framework.Base.{
  ℕ, false, List, [], ◌∷◌, ◌++◌, none, ◌≡◌, refl, Bool-cases, inl, inr,
}
use bloop_client_framework.Connection.{Connection}
use bloop_client_framework.Connection.Effects.{Grows, same, more, IsNetwork}
use bloop_client_framework.Outside.{
  ConnectionStatus, Event, looked_up, socket, opened, wrote, awaited, elapsed, published, responded,
  acknowledged, Trace,
}
use bloop_client_framework.Protocol.{Protocol}
use bloop_client_framework.Client.{
  Input, World, received, request, shutdown_command, set_status, drop_connection, install,
  status_eq,
}

-- The senders that got an answer, the last one first.
abbrev pub answer_of : {P : Protocol} → Event P → List ℕ
answer_of (responded response _) = response ∷ []
answer_of (acknowledged response) = response ∷ []
answer_of _ = []

unfoldable pub answered : {P : Protocol} → Trace P → List ℕ
answered [] = []
answered (event ∷ trace) = answer_of event ++ answered trace

-- The senders that wait for an answer to these inputs, the last one first.
abbrev pub asker : {P : Protocol} → Input P → List ℕ
asker (received (request _ response)) = response ∷ []
asker (received (shutdown_command response)) = response ∷ []
asker _ = []

unfoldable pub asked : {P : Protocol} → List (Input P) → List ℕ
asked [] = []
asked (input ∷ inputs) = asked inputs ++ asker input

module _ {P : Protocol} where
  IsNetwork-answer_of : (limit : ℕ) (e : Event P) → IsNetwork limit e → answer_of e ≡ []
  IsNetwork-answer_of limit (looked_up _ _) q = refl
  IsNetwork-answer_of limit socket q = refl
  IsNetwork-answer_of limit (opened _) q = refl
  IsNetwork-answer_of limit (wrote _ _) q = refl
  IsNetwork-answer_of limit (awaited _ _) q = refl
  IsNetwork-answer_of limit (elapsed _) q = refl
  IsNetwork-answer_of limit (published _) q = refl
  IsNetwork-answer_of limit (responded _ _) q = absurd q
  IsNetwork-answer_of limit (acknowledged _) q = absurd q

  pub Grows-answered :
      {limit : ℕ} {s t : Trace P} → Grows (IsNetwork limit) s t → answered t ≡ answered s
  unfolding answered
  Grows-answered same = refl
  Grows-answered (more q g) = rw (IsNetwork-answer_of _ _ q) (Grows-answered g)

  pub set_status-answered :
      (s : ConnectionStatus P) (w : World P) → answered (set_status P s w).trace ≡ answered w.trace
  unfolding set_status answered
  set_status-answered s w = elim (Bool-cases (status_eq P w.task.status s)) [
    | inl e ↦ rw e refl
    | inr e ↦ rw e refl
  ]

  pub drop_connection-answered :
      (w : World P) → answered (drop_connection P w).trace ≡ answered w.trace
  unfolding drop_connection
  drop_connection-answered w =
      set_status-answered ConnectionStatus.disconnected
        (record w { task = record (w.task) { connection = none } })

  pub install-answered :
      (c : Connection P) (w : World P) → answered (install P c w).trace ≡ answered w.trace
  unfolding install
  install-answered c w =
      set_status-answered (ConnectionStatus.connected c.capabilities)
        (record w { task = record (w.task) { credentials_invalid = false } })
