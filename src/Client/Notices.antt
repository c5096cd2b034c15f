-- ===== src/Client/Notices.antt =====
-- What the status watch notifies its receivers of.
use bloop_client_framework.Base.{
  ℕ, subst, true, List, [], ◌∷◌, ok, ◌≡◌, ◌≢◌, refl, sym, ◌∙◌, Bool-cases, inl, inr,
}
use bloop_client_framework.Connection.Effects.{Grows, same, more, IsNetwork}
use bloop_client_framework.Outside.{
  ConnectionStatus, Event, looked_up, socket, opened, wrote, awaited, elapsed, published, responded,
  acknowledged, Trace, Env,
}
use bloop_client_framework.Protocol.{Protocol}
use bloop_client_framework.Tls.{Rustls}
use bloop_client_framework.Client.{World, Input, status_eq, set_status, status_for, run}
use bloop_client_framework.Client.Builder.{BloopClientBuilder, build, build-eq-ok}
use bloop_client_framework.Client.Moves.{IsAnswer, IsKept, run-IsKept}

module _ {P : Protocol} (start : ConnectionStatus P) where
  -- The status that was published last, or that the watch began with.
  abbrev pub shown : Trace P → ConnectionStatus P
  shown [] = start
  shown (published s ∷ trace) = s
  shown (_ ∷ trace) = shown trace

  -- Every published status differs from the one before it.
  abbrev pub HasNoRepeat : Trace P → Type 0
  HasNoRepeat [] = Unit
  HasNoRepeat (published s ∷ trace) = (shown trace ≢ s) × HasNoRepeat trace
  HasNoRepeat (_ ∷ trace) = HasNoRepeat trace

  -- The watch has the status published last, and was only ever notified of a new one.
  pub record IsCoherent (w : World P) : Type 0 where
    pub current : shown w.trace ≡ w.task.status
    pub unrepeated : HasNoRepeat w.trace

  silent :
      (limit : ℕ) (e : Event P) (trace : Trace P)
      → IsNetwork limit e
      → (shown (e ∷ trace) ≡ shown trace) × (HasNoRepeat trace → HasNoRepeat (e ∷ trace))
  silent limit (looked_up _ _) trace q = (refl, λ h. h)
  silent limit socket trace q = (refl, λ h. h)
  silent limit (opened _) trace q = (refl, λ h. h)
  silent limit (wrote _ _) trace q = (refl, λ h. h)
  silent limit (awaited _ _) trace q = (refl, λ h. h)
  silent limit (elapsed _) trace q = (refl, λ h. h)
  silent limit (published _) trace q = absurd q
  silent limit (responded _ _) trace q = absurd q
  silent limit (acknowledged _) trace q = absurd q

  Grows-shown :
      {limit : ℕ} {s t : Trace P}
      → Grows (IsNetwork limit) s t
      → (shown t ≡ shown s) × (HasNoRepeat s → HasNoRepeat t)
  Grows-shown same = (refl, λ h. h)
  Grows-shown {limit} (more {e} {after} q g) =
      let (a, b) = silent limit e after q in let (c, d) = Grows-shown g in (a ∙ c, λ h. b (d h))

  by_answer-IsCoherent :
      (e : Event P) (w : World P)
      → IsAnswer e
      → IsCoherent w
      → IsCoherent (record w { trace = e ∷ w.trace })
  by_answer-IsCoherent (responded _ _) w q h = record {
    current = h.current;
    unrepeated = h.unrepeated;
  }
  by_answer-IsCoherent (acknowledged _) w q h = record {
    current = h.current;
    unrepeated = h.unrepeated;
  }
  by_answer-IsCoherent (looked_up _ _) w q h = absurd q
  by_answer-IsCoherent socket w q h = absurd q
  by_answer-IsCoherent (opened _) w q h = absurd q
  by_answer-IsCoherent (wrote _ _) w q h = absurd q
  by_answer-IsCoherent (awaited _ _) w q h = absurd q
  by_answer-IsCoherent (elapsed _) w q h = absurd q
  by_answer-IsCoherent (published _) w q h = absurd q

  status_eq_refl : (s : ConnectionStatus P) → status_eq P s s ≡ true
  unfolding status_eq
  status_eq_refl ConnectionStatus.unconfigured = refl
  status_eq_refl ConnectionStatus.disconnected = refl
  status_eq_refl (ConnectionStatus.connected c) = (P.capabilities_eq_iff c c).1 refl
  status_eq_refl ConnectionStatus.invalid_credentials = refl
  status_eq_refl ConnectionStatus.shutdown = refl

  set_status-IsCoherent :
      (s : ConnectionStatus P) (w : World P) → IsCoherent w → IsCoherent (set_status P s w)
  unfolding set_status
  set_status-IsCoherent s w h = elim (Bool-cases (status_eq P w.task.status s)) [
    | inl old ↦ rw old h
    | inr new ↦ rw new (record {
      current = refl;
      unrepeated = ((λ e. absurd (cc (new, status_eq_refl s, h.current, e))), h.unrepeated);
    })
  ]

  IsCoherent-IsKept : IsKept IsCoherent
  IsCoherent-IsKept = record {
    by_network = λ limit w after g h. record {
      current = (Grows-shown g).0 ∙ h.current;
      unrepeated = (Grows-shown g).1 h.unrepeated;
    };
    by_answer = by_answer-IsCoherent;
    by_status = set_status-IsCoherent;
    by_field = λ t w e h. record { current = h.current ∙ sym e; unrepeated = h.unrepeated };
  }

-- Whatever builder a client is built from, whatever its task then handles, in whatever environment, to
-- its end: the watch has the status that was published last, or, if none was, the one that says
-- whether there was a configuration, and every status that was published differs from the one that
-- the watch had before.
pub build-IsCoherent :
    (P : Protocol) (R : Rustls) (E : Env P) (b : BloopClientBuilder P) (w : World P)
    (inputs : List (Input P))
    → build P R b ≡ ok w
    → IsCoherent (status_for b.config) (run P E inputs w)
build-IsCoherent P R E b w inputs e =
    run-IsKept P E (IsCoherent (status_for b.config)) (IsCoherent-IsKept (status_for b.config))
      inputs w
      (subst (IsCoherent (status_for b.config)) (build-eq-ok P R b w e)
        (record { current = refl; unrepeated = tt }))
