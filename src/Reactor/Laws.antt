-- ===== src/Reactor/Laws.antt =====
-- The table of handlers, and what a round of the loop calls.
use pong_pp.Common.{
  All, ◌≢◌, false, if_either, ℕ, ◌≡◌, refl, true, not, ◌&&◌, Option, none, some, List, [], ◌∷◌,
  ◌==◌, arith, if◌then◌else◌,
}
use pong_pp.Reactor.{
  find_handler, remove_handler, on_readable, Poll, ready, interrupted, failed, with_revents,
  poll_array, Loop, Exit, waiting, invoke, dispatch, after_poll, poll_rounds, run, state_of,
  is_empty,
}

module _ {H : Type 0} where
  pub find_handler-remove_handler :
      (fd other : ℕ) (handlers : List (ℕ × H))
      → find_handler other (remove_handler fd handlers)
        ≡ (if other == fd then none else find_handler other handlers)
  unfolding find_handler remove_handler
  find_handler-remove_handler fd other [] = ground arith
  find_handler-remove_handler fd other ((fd', cb) ∷ handlers) =
      ground (arith, find_handler-remove_handler fd other handlers)

  pub find_handler-on_readable :
      (fd other : ℕ) (cb : H) (handlers : List (ℕ × H))
      → find_handler other (on_readable fd cb handlers)
        ≡ (if other == fd then some cb else find_handler other handlers)
  unfolding find_handler on_readable
  find_handler-on_readable fd other cb handlers =
      ground (arith, find_handler-remove_handler fd other handlers)

module _ {H : Type 0} {S : Type 0} (loop : Loop H S) where
  open loop use {handlers, running, set_running, call}

  module _ {κ} (P : S → Type κ)
      (keep : (s : S) (fd revents : ℕ) (cb : H)
        → P s
        → find_handler fd (handlers s) ≡ some cb
        → P (call cb revents s)) where
    invoke_keeps :
        (s : S) (fd revents : ℕ) (w : Option H)
        → find_handler fd (handlers s) ≡ w
        → P s
        → P (invoke loop w revents s)
    invoke_keeps s fd revents none e h = h
    invoke_keeps s fd revents (some cb) e h = keep s fd revents cb h e

    dispatch_keeps : (pfds : List (ℕ × ℕ)) (s : S) → P s → P (dispatch loop pfds s)
    unfolding dispatch
    dispatch_keeps [] s h = h
    dispatch_keeps ((fd, revents) ∷ pfds) s h = dispatch_keeps pfds _ (
        if_either P (revents == 0) h
          (invoke_keeps s fd revents (find_handler fd (handlers s)) refl h))

    poll_rounds_keeps :
        (polls : List Poll) (s : S) → P s → P (state_of loop (poll_rounds loop polls s))
    unfolding poll_rounds after_poll
    poll_rounds_keeps [] s h =
        if_either (λ (x : Exit S). P (state_of loop x)) (running s && not (is_empty (handlers s))) h
          h
    poll_rounds_keeps (ready revents ∷ polls) s h =
        if_either (λ (x : Exit S). P (state_of loop x)) (running s && not (is_empty (handlers s)))
          (poll_rounds_keeps polls
            (dispatch loop (with_revents revents (poll_array (handlers s))) s)
            (dispatch_keeps (with_revents revents (poll_array (handlers s))) s h))
          h
    poll_rounds_keeps (interrupted ∷ polls) s h =
        if_either (λ (x : Exit S). P (state_of loop x)) (running s && not (is_empty (handlers s)))
          (poll_rounds_keeps polls s h) h
    poll_rounds_keeps (failed ∷ polls) s h =
        if_either (λ (x : Exit S). P (state_of loop x)) (running s && not (is_empty (handlers s))) h
          h

    -- What every call of a handler that is registered at that moment keeps, and the start of the
    -- loop too, holds of the state in which `Run` returns or waits, whatever poll returns.
    pub run_keeps :
        ((s : S) → P s → P (set_running true s))
        → (polls : List Poll) (s : S) → P s
        → P (state_of loop (run loop polls s))
    unfolding run
    run_keeps started polls s h = poll_rounds_keeps polls (set_running true s) (started s h)

    -- If that which is kept means that the loop is not stopped and has a handler, then the loop
    -- goes on as long as poll gives no error but EINTR.
    pub poll_rounds-waiting :
        ((s : S) → P s → (running s ≡ true) × (is_empty (handlers s) ≡ false))
        → (polls : List Poll) (s : S) → All (λ poll. poll ≢ failed) polls
        → P s
        → (s' : S) × (poll_rounds loop polls s ≡ waiting s') × P s'
    unfolding poll_rounds after_poll
    poll_rounds-waiting live [] s good h = (s, rw ((live s h).0, (live s h).1) refl, h)
    poll_rounds-waiting live (ready revents ∷ polls) s good h =
        let s' = dispatch loop (with_revents revents (poll_array (handlers s))) s in
        let rest =
          poll_rounds-waiting live polls s' good.1
            (dispatch_keeps (with_revents revents (poll_array (handlers s))) s h) in
        (rest.0, rw ((live s h).0, (live s h).1) rest.1, rest.2)
    poll_rounds-waiting live (interrupted ∷ polls) s good h =
        let rest = poll_rounds-waiting live polls s good.1 h in
        (rest.0, rw ((live s h).0, (live s h).1) rest.1, rest.2)
    poll_rounds-waiting live (failed ∷ polls) s good h = absurd (good.0 refl)
