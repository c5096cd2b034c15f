-- ===== src/Nfc/Startup.antt =====
-- src/nfc/mfrc522.rs: the configuration of the reader, its initialization, and the ways to run its
-- backend, with `spawn_mfrc522` of src/nfc/mod.rs. What the hardware's libraries answer is a
-- parameter, and what is asked of them a trace.
use Prim.Native.String.{String}
use mathlib.Core.List.{map}
use bloop_client_framework.Base.{
  ℕ, Bool, true, false, List, [], ◌∷◌, ◌++◌, Option, none, some, Result, ok, err, is_some, All, ◌↔◌,
  ◌≡◌, refl, ap,
}

pub record Mfrc522Config : Type 0 where
  pub spi_dev_path : String
  pub gpio_dev_path : String
  pub reset_pin_line : ℕ

-- `Mfrc522Config::default`
abbrev pub default_config : Mfrc522Config
default_config = record {
  spi_dev_path = "/dev/spidev0.0";
  gpio_dev_path = "/dev/gpiochip0";
  reset_pin_line = 25;
}

pub record Hardware : Type 1 where
  pub IoError : Type 0
  pub GpioError : Type 0
  pub ChipError : Type 0
  pub Chip : Type 0
  pub open_spi : String → Option IoError
  pub configure_spi : Option IoError
  pub request_line : String → ℕ → Option GpioError
  pub activate_line : Option GpioError
  pub init_chip : Result Chip ChipError
  -- whether a thread can be spawned, and whether it lives until it has sent its result
  pub spawn_thread : Option IoError
  pub lives : Bool

-- The message of a dead thread is the constructor `died`.
pub data Mfrc522InitError (H : Hardware) : Type 0 where
  io : H.IoError → Mfrc522InitError H
  gpio : H.GpioError → Mfrc522InitError H
  chip : H.ChipError → Mfrc522InitError H
  died : Mfrc522InitError H

-- Sleeps are in milliseconds; the line is requested as an inactive output.
pub data Action : Type 0 where
  opens_spi : String → Action
  configures_spi : Action
  requests_line : String → ℕ → Action
  sleeps : ℕ → Action
  activates_line : Action
  inits_chip : Action

module _ (H : Hardware) where
  abbrev pub Acts : Type 0 → Type 0
  Acts A = Result A (Mfrc522InitError H) × List Action

  -- An action, its error if it fails, and what comes after it.
  unfoldable pub act : {A : Type 0} → Action → Option (Mfrc522InitError H) → Acts A → Acts A
  act a (some e) rest = (err e, a ∷ [])
  act a none rest = (rest.0, a ∷ rest.1)

  abbrev pub map_error :
      {E : Type 0} → (E → Mfrc522InitError H) → Option E → Option (Mfrc522InitError H)
  map_error f none = none
  map_error f (some e) = some (f e)

  unfoldable pub init : Mfrc522Config → Acts H.Chip
  init config =
      act (opens_spi config.spi_dev_path) (map_error io (H.open_spi config.spi_dev_path)) (
        act configures_spi (map_error io H.configure_spi) (
          act (requests_line config.gpio_dev_path config.reset_pin_line)
            (map_error gpio (H.request_line config.gpio_dev_path config.reset_pin_line))
            (act (sleeps 150) none (
              act activates_line (map_error gpio H.activate_line) (
                act (sleeps 50) none
                  (elim H.init_chip [ ok c ↦ ok c | err e ↦ err (chip e) ], inits_chip ∷ []))))))

  -- What the thread sends, and the chip that it serves the backend with, if it does.
  unfoldable pub run : Mfrc522Config → Result (Unit {0}) (Mfrc522InitError H) × Option H.Chip
  unfolding init
  run config = elim (init config).0 [ ok c ↦ (ok tt, some c) | err e ↦ (err e, none) ]

  unfoldable pub serve_blocking :
      Mfrc522Config → Result (Unit {0}) (Mfrc522InitError H) × Option H.Chip
  unfolding init
  serve_blocking config = elim (init config).0 [ ok c ↦ (ok tt, some c) | err e ↦ (err e, none) ]

  unfoldable pub spawn : Mfrc522Config → Result (Unit {0}) (Mfrc522InitError H) × Option H.Chip
  unfolding run
  spawn config = elim H.spawn_thread [
    | some e ↦ (err (io e), none)
    | none ↦ elim H.lives [ true ↦ run config | false ↦ (err died, none) ]
  ]

  -- A step of the initialization: what is asked of the hardware, and its error if it refuses.
  abbrev pub Step : Type 0
  Step = Action × Option (Mfrc522InitError H)

  abbrev pub chip_error : Result H.Chip H.ChipError → Option (Mfrc522InitError H)
  chip_error (ok _) = none
  chip_error (err e) = some (chip e)

  -- The reset line is requested as an inactive output, held so for 150 ms, and active for 50 ms before
  -- the chip is initialized.
  abbrev pub sequence : Mfrc522Config → List Step
  sequence config =
      (opens_spi config.spi_dev_path, map_error io (H.open_spi config.spi_dev_path))
      ∷ (configures_spi, map_error io H.configure_spi)
      ∷ (
        requests_line config.gpio_dev_path config.reset_pin_line,
        map_error gpio (H.request_line config.gpio_dev_path config.reset_pin_line),
      )
      ∷ (sleeps 150, none)
      ∷ (activates_line, map_error gpio H.activate_line)
      ∷ (sleeps 50, none)
      ∷ (inits_chip, chip_error H.init_chip)
      ∷ []

  abbrev pub Succeed : List Step → Type 0
  Succeed steps = All (λ s. s.1 ≡ none) steps

  -- The result is a chip where all steps succeed, and all were taken; and else it is the error of the
  -- first that does not, which is the last that was taken.
  unfoldable pub Follows : {A : Type 0} → List Step → Acts A → Type 0
  Follows steps (ok _, actions) = Succeed steps × (actions ≡ map (λ s. s.0) steps)
  Follows steps (err e, actions) =
      (ahead : List Step) × (a : Action) × (rest : List Step) × (steps
        ≡ ahead ++ (a, some e) ∷ rest)
      × Succeed ahead
      × (actions ≡ map (λ s. s.0) ahead ++ a ∷ [])

  act-Follows :
      {A : Type 0} (a : Action) (e : Option (Mfrc522InitError H)) (steps : List Step)
      (rest : Acts A)
      → Follows steps rest
      → Follows ((a, e) ∷ steps) (act a e rest)
  unfolding act Follows
  act-Follows a (some e) steps rest h = ([], a, steps, refl, tt, refl)
  act-Follows a none steps (ok _, actions) (succeed, taken) =
      ((refl, succeed), ap (λ l. a ∷ l) taken)
  act-Follows a none steps (err _, actions) (ahead, b, behind, split, succeed, taken) = (
    (a, none) ∷ ahead,
    b,
    behind,
    ap (λ l. (a, none) ∷ l) split,
    (refl, succeed),
    ap (λ l. a ∷ l) taken,
  )

  -- The initialization returns the chip exactly when the hardware does all of the steps, which are then
  -- taken in order; where it refuses one, it returns the error of the first that it refuses, and takes
  -- the steps up to that one and none behind it.
  pub init-Follows : (config : Mfrc522Config) → Follows (sequence config) (init config)
  unfolding init
  init-Follows config = act-Follows _ _ _ _ (
      act-Follows _ _ _ _ (
        act-Follows _ _ _ _ (
          act-Follows _ none _ _
            (act-Follows _ _ _ _ (act-Follows _ none _ _ (last H.init_chip))))))
    where
      last :
          (r : Result H.Chip H.ChipError)
          → Follows ((inits_chip, chip_error r) ∷ []) (
            elim r as (λ _. Result H.Chip (Mfrc522InitError H)) [
              | ok c ↦ ok c
              | err e ↦ err (chip e)
            ],
            inits_chip ∷ [],
          )
      last (ok c) = unfold Follows in ((refl, tt), refl)
      last (err e) = unfold Follows in ([], inits_chip, [], refl, tt, refl)

  abbrev Agrees : Result (Unit {0}) (Mfrc522InitError H) × Option H.Chip → Type 0
  Agrees (r, served) = (r ≡ ok tt) ↔ (is_some served ≡ true)

  reported :
      (r : Result H.Chip (Mfrc522InitError H))
      → Agrees (elim r [ ok c ↦ (ok tt, some c) | err e ↦ (err e, none) ])
  reported (ok c) = (λ _. refl, λ _. refl)
  reported (err e) = (λ h. absurd cc, λ h. absurd cc)

  -- A caller who starts the backend on a thread of its own is told that this succeeded exactly when
  -- the backend is served.
  pub spawn-serves :
      (config : Mfrc522Config) → ((spawn config).0 ≡ ok tt) ↔ (is_some (spawn config).1 ≡ true)
  unfolding spawn run
  spawn-serves config = threaded H.spawn_thread H.lives
    where
      threaded :
          (e : Option H.IoError) (lives : Bool)
          → Agrees (elim e [
            | some x ↦ (err (io x), none)
            | none ↦ elim lives [ true ↦ run config | false ↦ (err died, none) ]
          ])
      threaded (some x) lives = (λ h. absurd cc, λ h. absurd cc)
      threaded none true = reported (init config).0
      threaded none false = (λ h. absurd cc, λ h. absurd cc)

  -- `NfcReader::spawn_mfrc522`: the reader of the channel whose backend is spawned.
  handed : {R : Type 0} → R → Result (Unit {0}) (Mfrc522InitError H) → Result R (Mfrc522InitError H)
  handed reader (ok _) = ok reader
  handed reader (err e) = err e

  unfoldable pub spawn_mfrc522 :
      {R : Type 0} → R → Mfrc522Config → Result R (Mfrc522InitError H) × Option H.Chip
  unfolding handed
  spawn_mfrc522 reader config = (handed reader (spawn config).0, (spawn config).1)

  -- A reader is handed out exactly when its backend is served, and else the error of `spawn` is.
  spawn_mfrc522-serves :
      {R : Type 0} (reader : R) (config : Mfrc522Config)
      → ((spawn_mfrc522 reader config).0 ≡ ok reader)
        ↔ (is_some (spawn_mfrc522 reader config).1 ≡ true)
  unfolding spawn_mfrc522 handed
  spawn_mfrc522-serves reader config =
      let (there, back) = spawn-serves config in
      ((λ h. there (taken (spawn config).0 h)), λ h. rw (back h) refl)
    where
      taken : (r : Result (Unit {0}) (Mfrc522InitError H)) → handed reader r ≡ ok reader → r ≡ ok tt
      taken (ok _) h = refl
      taken (err e) h = absurd cc
