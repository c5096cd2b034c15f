-- ===== src/Nfc/Backend/Order.antt =====
-- What becomes of the requests that are sent, and in which order.
use mathlib.Core.List.{map, map-append}
use bloop_client_framework.Base.{
  All, Result-cases, if-cases, ℕ, ◌<◌, Bool, true, false, List, [], ◌∷◌, ◌++◌, append-nil,
  append_assoc, Option, none, some, if◌then◌else◌, length, Bytes, Outcome, returned, raised,
  panicked, Result, ok, err, is_some, ◌≡◌, ◌≢◌, refl, sym, ◌∙◌, ap, Bool-cases, inl, inr, ◌⊎◌,
}
use bloop_client_framework.Nfc.Mfrc522.{
  Chip, ReadError, select_target, selected, nfc_uid_from_mfrc522, check_for_release, read_ndef_text,
}
use bloop_client_framework.Nfc.Mfrc522.Safety.{read_ndef_text-ne-panicked}
use bloop_client_framework.Nfc.Backend.{
  NfcReaderRequest, wait_for_card, wait_for_removal, read_ndef, sender, Settled, settled_sender,
  card, removal, text_read, abandoned, Place, receiving, for_card, for_removal, ended, died,
  Backend, Turn, sends, gives_up, hangs_up, round, accepts, send, finish_read, begin, receive,
  poll_card, poll_removal, abandon, serve_round, take_turn, serve,
}
use bloop_client_framework.Nfc.Backend.Due.{IsDue, HasDue-serve}

abbrev pub current : Place → List ℕ
current (for_card s) = s ∷ []
current (for_removal s) = s ∷ []
current _ = []

-- The senders of what is served, of what would be served at this place, and of what waits.
abbrev accounts : {C : Chip} {U Text : Type 0} → Place → Backend C U Text → List ℕ
accounts c b = map settled_sender b.log ++ (current c ++ map sender b.queue)

abbrev pub account : {C : Chip} {U Text : Type 0} → Backend C U Text → List ℕ
account b = accounts b.place b

-- Every block that can be read has at least three bytes.
abbrev pub IsWide : Chip → Type 0
IsWide C =
    (chip : C.Registers) (block : ℕ) (bytes : Bytes)
    → C.mf_read chip block ≡ some bytes
    → 2 < length bytes

module _ (C : Chip) {U Text : Type 0} (from_utf8 : Bytes → Result Text U) (empty : Text) where
  -- The senders of the requests that a schedule gets into the channel.
  unfoldable pub accepted : List Turn → Backend C U Text → List ℕ
  unfolding take_turn
  accepted [] b = []
  accepted (turn ∷ turns) b =
      let rest = accepted turns (take_turn C from_utf8 empty turn b) in
      elim turn [
        | sends request ↦ if accepts C from_utf8 empty b then sender request ∷ rest else rest
        | _ ↦ rest
      ]

  -- The log with one more entry, in front of what waits.
  account-append :
      (log : List (Settled C U Text)) (e : Settled C U Text) (waits : List ℕ)
      → map settled_sender (log ++ e ∷ []) ++ waits
        ≡ map settled_sender log ++ (settled_sender e ∷ waits)
  account-append log e waits =
      rw (map-append settled_sender log (e ∷ []))
        (append_assoc (map settled_sender log) (settled_sender e ∷ []) waits)

  converted :
      (o : Option C.NfcUid)
      → is_some o ≡ true
      → (u : C.NfcUid) × (elim o as (λ _. Outcome C.NfcUid ⊥) [
        | some v ↦ returned v
        | none ↦ panicked
      ]
          ≡ returned u)
  converted none h = absurd cc
  converted (some u) h = (u, refl)

  -- A selection has a card or has none, since the UIDs have standard lengths.
  selected-cases :
      (r : Result C.Uid C.Error)
      → (selected C r ≡ returned none) ⊎ ((u : C.NfcUid) × (selected C r ≡ returned (some u)))
  unfolding selected nfc_uid_from_mfrc522
  selected-cases (err e) = inl refl
  selected-cases (ok uid) =
      let (u, e) = converted (C.try_from uid) (C.standard_length uid) in inr (u, rw e refl)

  select_target-cases :
      (chip : C.Registers)
      → ((select_target C chip).0 ≡ returned none)
        ⊎ ((u : C.NfcUid) × ((select_target C chip).0 ≡ returned (some u)))
  unfolding select_target
  select_target-cases chip = elim (Result-cases (C.reqa chip).0) [
    | inl (a, e) ↦ rw (e, select_target) (selected-cases (C.select a (C.reqa chip).1).0)
    | inr (x, e) ↦ rw (e, select_target) (inl refl)
  ]

  poll_card-account :
      (s : ℕ) (target : Outcome (Option C.NfcUid) ⊥) (b : Backend C U Text)
      → (target ≡ returned none) ⊎ ((u : C.NfcUid) × (target ≡ returned (some u)))
      → b.place ≡ for_card s
      → account (poll_card C from_utf8 empty s target b) ≡ accounts (for_card s) b
  unfolding poll_card
  poll_card-account s target b (inl e) at = rw (e, poll_card) (ap (λ c. accounts c b) at)
  poll_card-account s target b (inr (u, e)) at =
      rw (e, poll_card) (account-append b.log (card s u) (map sender b.queue))

  poll_removal-account :
      (s : ℕ) (released : Bool) (b : Backend C U Text)
      → b.place ≡ for_removal s
      → account (poll_removal C from_utf8 empty s released b) ≡ accounts (for_removal s) b
  unfolding poll_removal
  poll_removal-account s true b at = account-append b.log (removal s) (map sender b.queue)
  poll_removal-account s false b at = ap (λ c. accounts c b) at

  finish_read-account :
      (s : ℕ) (o : Outcome Text (ReadError U)) (b : Backend C U Text)
      → o ≢ panicked
      → b.place ≡ receiving
      → account (finish_read C from_utf8 empty s o b) ≡ accounts (for_card s) b
  unfolding finish_read
  finish_read-account s (returned t) b calm at =
      ap (λ c. accounts c (record b { log = b.log ++ text_read s (ok t) ∷ [] })) at
      ∙ account-append b.log (text_read s (ok t)) (map sender b.queue)
  finish_read-account s (raised e) b calm at =
      ap (λ c. accounts c (record b { log = b.log ++ text_read s (err e) ∷ [] })) at
      ∙ account-append b.log (text_read s (err e)) (map sender b.queue)
  finish_read-account s panicked b calm at = absurd (calm refl)

  begin-account :
      (request : NfcReaderRequest) (b : Backend C U Text)
      → IsWide C
      → b.place ≡ receiving
      → account (begin C from_utf8 empty request b) ≡ accounts (for_card (sender request)) b
  unfolding begin
  begin-account (wait_for_card s) b wide at = refl
  begin-account (wait_for_removal s) b wide at = refl
  begin-account (read_ndef s) b wide at =
      finish_read-account s (read_ndef_text from_utf8 empty (C.mf_read b.chip))
        (record b { chip = C.after_reads b.chip })
        (read_ndef_text-ne-panicked from_utf8 empty (C.mf_read b.chip) (wide b.chip)) at

  receive-account :
      (queue : List NfcReaderRequest) (b : Backend C U Text)
      → IsWide C
      → b.place ≡ receiving
      → b.queue ≡ queue
      → account (receive C from_utf8 empty queue b) ≡ account b
  unfolding receive
  receive-account [] b wide at e =
      if-cases (λ c. account c ≡ account b) b.has_handles b (record b { place = ended }) (λ _. refl)
        λ _. sym (ap (λ c. accounts c b) at)
  receive-account (request ∷ requests) b wide at e =
      begin-account request (record b { queue = requests }) wide at
      ∙ sym (ap (λ c. accounts c b) at ∙ ap (λ q. map settled_sender b.log ++ map sender q) e)

  serve_round-account :
      (c : Place) (b : Backend C U Text)
      → IsWide C
      → b.place ≡ c
      → account (serve_round C from_utf8 empty c b) ≡ account b
  unfolding serve_round abandon
  serve_round-account receiving b wide at = receive-account b.queue b wide at refl
  serve_round-account (for_card s) b wide at =
      let polled : Backend C U Text = record b { chip = (select_target C b.chip).1 } in
      if-cases (λ (c : Backend C U Text). account c ≡ account b) (b.closed s)
        (abandon C from_utf8 empty s b)
        (poll_card C from_utf8 empty s (select_target C b.chip).0 polled)
        (λ _. account-append b.log (abandoned s) (map sender b.queue) ∙ back)
        λ _. poll_card-account s _ polled (select_target-cases b.chip) at ∙ back
    where
      back : accounts (for_card s) b ≡ account b
      back = sym (ap (λ c. accounts c b) at)
  serve_round-account (for_removal s) b wide at =
      let polled : Backend C U Text = record b { chip = (check_for_release C b.chip).1 } in
      if-cases (λ (c : Backend C U Text). account c ≡ account b) (b.closed s)
        (abandon C from_utf8 empty s b)
        (poll_removal C from_utf8 empty s (check_for_release C b.chip).0 polled)
        (λ _. account-append b.log (abandoned s) (map sender b.queue) ∙ back)
        λ _. poll_removal-account s _ polled at ∙ back
    where
      back : accounts (for_removal s) b ≡ account b
      back = sym (ap (λ c. accounts c b) at)
  serve_round-account ended b wide at = refl
  serve_round-account died b wide at = refl

  send-account :
      (request : NfcReaderRequest) (b : Backend C U Text) (rest : List ℕ)
      → account (send C from_utf8 empty request b) ++ rest
        ≡ account b ++ (if accepts C from_utf8 empty b then sender request ∷ rest else rest)
  unfolding send
  send-account request b rest = elim (Bool-cases (accepts C from_utf8 empty b)) [
    | inl room ↦ rw room (
        ap (λ l. l ++ rest)
          (ap (λ (l : List ℕ). map settled_sender b.log ++ (current b.place ++ l))
              (map-append sender b.queue (request ∷ []))
            ∙ regroup (map settled_sender b.log) (current b.place) (map sender b.queue)
                (sender request ∷ []))
        ∙ append_assoc (account b) (sender request ∷ []) rest)
    | inr full ↦ rw full refl
  ]
    where
      regroup : (a b c d : List ℕ) → a ++ (b ++ (c ++ d)) ≡ (a ++ (b ++ c)) ++ d
      regroup a b c d = simp append_assoc

  account-serve :
      (turns : List Turn) (b : Backend C U Text)
      → IsWide C
      → account (serve C from_utf8 empty turns b) ≡ account b ++ accepted turns b
  unfolding serve accepted take_turn
  account-serve [] b wide = sym (append-nil (account b))
  account-serve (sends request ∷ turns) b wide =
      account-serve turns (send C from_utf8 empty request b) wide
      ∙ send-account request b (accepted turns (send C from_utf8 empty request b))
  account-serve (gives_up s ∷ turns) b wide = account-serve turns _ wide
  account-serve (hangs_up ∷ turns) b wide = account-serve turns _ wide
  account-serve (round ∷ turns) b wide =
      account-serve turns (serve_round C from_utf8 empty b.place b) wide
      ∙ ap (λ l. l ++ accepted turns (serve_round C from_utf8 empty b.place b))
          (serve_round-account b.place b wide refl)

  -- Whatever the callers do and in whatever order, where every block that can be read has at least
  -- three bytes: those whose requests are answered or abandoned, then the one being served, then those
  -- that wait are those who got a request into the channel, each once for each request, in the order
  -- of sending; and where that holds to begin with, no request is abandoned whose caller has not given
  -- it up.
  pub serve-account :
      (turns : List Turn) (b : Backend C U Text)
      → IsWide C
      → All (IsDue b.closed) b.log
      → let z : Backend C U Text = serve C from_utf8 empty turns b in
        (account z ≡ account b ++ accepted turns b) × All (IsDue z.closed) z.log
  serve-account turns b wide h =
      (account-serve turns b wide, HasDue-serve C from_utf8 empty turns b h)
