-- ===== src/Client/System.antt =====
-- src/client.rs: the handles, their channel and the connection task, interleaved. A turn is one send
-- of a handle, the end of the last handle, or one round of the loop in `run`.
pub mod Queue
pub mod Draining
pub mod Safety
pub mod Recovery
use bloop_client_framework.Base.{
  ℕ, Bool, true, false, not, ◌==◌, ◌&&◌, List, [], ◌∷◌, ◌++◌, if◌then◌else◌, ltb, length, Option,
  none, some, Result, ok, err, ◌≡◌, arith,
}
use bloop_client_framework.Outside.{ConnectionStatus, Env}
use bloop_client_framework.Protocol.{Protocol}
use bloop_client_framework.Client.{
  Command, World, Input, received, ticked, set_status, take_and_quit, handle,
}

pub record System (P : Protocol) : Type 0 where
  pub world : World P
  pub queue : List (Command P)
  pub has_handles : Bool
  pub is_running : Bool
  pub has_panicked : Bool

pub data Turn (P : Protocol) : Type 0 where
  sends : Command P → Turn P
  hangs_up : Turn P
  receives : Turn P  -- `command_rx.recv()` is selected
  ticks : Turn P  -- `ticker.tick()` is selected

-- `mpsc::channel(16)`
abbrev pub capacity : ℕ
capacity = 16

module _ {P : Protocol} where
  -- The task that `build` spawns, with its handle, at the loop in `run`: `time::interval` in front of it
  -- panics for a zero period, which drops the receiver of the channel and leaves the watch as it is.
  abbrev pub spawned_system : World P → System P
  spawned_system w = record {
    world = w;
    queue = [];
    has_handles = true;
    is_running = not (w.task.ping_interval == 0);
    has_panicked = w.task.ping_interval == 0;
  }

  -- A send goes through where the task receives, a handle sends, and there is room.
  abbrev pub accepts : System P → Bool
  accepts s = s.is_running && (s.has_handles && ltb (length s.queue) capacity)

  pub accepts-is_running : (s : System P) → accepts s ≡ true → s.is_running ≡ true
  accepts-is_running s h = ground arith

  unfoldable pub send_command : Command P → System P → System P
  send_command command s = if accepts s then record s { queue = s.queue ++ command ∷ [] } else s

module _ (P : Protocol) (E : Env P) where
  -- Behind the loop of `run`.
  unfoldable pub finish : System P → System P
  finish s = record s {
    world = set_status P ConnectionStatus.shutdown (take_and_quit P E s.world);
    is_running = false;
  }

  -- `recv` waits while there is a handle and no command, and ends the loop where there is neither.
  unfoldable pub receive_from : List (Command P) → System P → System P
  unfolding finish
  receive_from [] s = if s.has_handles then s else finish s
  receive_from (command ∷ queue) s = record s {
    world = handle P E (received command) s.world;
    queue = queue;
  }

  unfoldable pub take_turn : Turn P → System P → System P
  unfolding send_command receive_from
  take_turn (sends command) s = send_command command s
  take_turn hangs_up s = record s { has_handles = false }
  take_turn receives s = if s.is_running then receive_from s.queue s else s
  take_turn ticks s = if s.is_running then record s { world = handle P E ticked s.world } else s

  unfoldable pub take_turns : List (Turn P) → System P → System P
  take_turns [] s = s
  take_turns (turn ∷ turns) s = take_turns turns (take_turn turn s)
