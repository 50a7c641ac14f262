-- ===== src/Reactor.antt =====
-- src/server/reactor.h and reactor.cpp: the event loop. The handlers are values of a type `H`, and
-- what they do is a function on a state that the table of handlers is a part of, since a handler
-- may add and remove handlers and stop the loop. What poll(2) returns is a list of results, one for
-- each call.
pub mod Laws
pub mod Round
use pong_pp.Common.{
  ℕ, Bool, true, false, not, ◌&&◌, Option, none, some, List, [], ◌∷◌, ◌==◌, if◌then◌else◌,
}

module _ {H : Type 0} where
  -- handlers_.find(fd)
  unfoldable pub find_handler : ℕ → List (ℕ × H) → Option H
  find_handler fd [] = none
  find_handler fd ((fd', cb) ∷ handlers) = if fd == fd' then some cb else find_handler fd handlers

  -- Remove
  unfoldable pub remove_handler : ℕ → List (ℕ × H) → List (ℕ × H)
  remove_handler fd [] = []
  remove_handler fd ((fd', cb) ∷ handlers) =
      let rest = remove_handler fd handlers in if fd == fd' then rest else (fd', cb) ∷ rest

  -- OnReadable: handlers_[fd] = cb. The order of the table stands for that of the unordered map.
  unfoldable pub on_readable : ℕ → H → List (ℕ × H) → List (ℕ × H)
  unfolding remove_handler
  on_readable fd cb handlers = (fd, cb) ∷ remove_handler fd handlers

  -- The poll array.
  abbrev pub poll_array : List (ℕ × H) → List ℕ
  poll_array [] = []
  poll_array ((fd, cb) ∷ handlers) = fd ∷ poll_array handlers

-- What poll returns: the events of each descriptor, EINTR, or another error.
pub data Poll : Type 0 where
  ready : (ℕ → ℕ) → Poll
  interrupted failed : Poll

-- The array once the events are filled in.
abbrev pub with_revents : (ℕ → ℕ) → List ℕ → List (ℕ × ℕ)
with_revents revents [] = []
with_revents revents (fd ∷ fds) = (fd, revents fd) ∷ with_revents revents fds

abbrev pub is_empty {ℓ} : {A : Type ℓ} → List A → Bool
is_empty [] = true
is_empty (x ∷ xs) = false

-- A state with a reactor in it, and the calls of its handlers.
pub record Loop (H : Type 0) (S : Type 0) : Type 0 where
  pub handlers : S → List (ℕ × H)
  pub running : S → Bool
  pub set_running : Bool → S → S
  pub call : H → ℕ → S → S

-- `Run` returned, or it waits in poll.
pub data Exit (S : Type 0) : Type 0 where
  returned waiting : S → Exit S

module _ {H : Type 0} {S : Type 0} (loop : Loop H S) where
  open loop use {handlers, running, set_running, call}

  -- A copy of the handler is called, if there still is one.
  abbrev pub invoke : Option H → ℕ → S → S
  invoke none revents s = s
  invoke (some cb) revents s = call cb revents s

  -- The loop over the poll array.
  unfoldable pub dispatch : List (ℕ × ℕ) → S → S
  dispatch [] s = s
  dispatch ((fd, revents) ∷ pfds) s =
      dispatch pfds (if revents == 0 then s else invoke (find_handler fd (handlers s)) revents s)

  unfoldable pub after_poll : Poll → (S → Exit S) → S → Exit S
  unfolding dispatch
  after_poll (ready revents) go_on s =
      go_on (dispatch (with_revents revents (poll_array (handlers s))) s)
  after_poll interrupted go_on s = go_on s
  after_poll failed go_on s = returned s

  -- while (running_): the loop ends when it was stopped or when no handler is left.
  unfoldable pub poll_rounds : List Poll → S → Exit S
  poll_rounds [] s = if running s && not (is_empty (handlers s)) then waiting s else returned s
  poll_rounds (p ∷ polls) s =
      let go_on = after_poll p (poll_rounds polls) s in
      if running s && not (is_empty (handlers s)) then go_on else returned s

  unfoldable pub run : List Poll → S → Exit S
  run polls s = poll_rounds polls (set_running true s)

  abbrev pub state_of : Exit S → S
  state_of (returned s) = s
  state_of (waiting s) = s
