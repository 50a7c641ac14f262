-- ===== src/Reactor/Round.antt =====
-- A round of the loop against what it is meant to do: call each handler that has events.
use pong_pp.Common.{
  ℕ, ◌≡◌, ◌≢◌, refl, ◌∙◌, ap, none, some, List, [], ◌∷◌, ◌==◌, arith, if_either, if◌then◌else◌,
}
use pong_pp.Reactor.{
  find_handler, remove_handler, on_readable, with_revents, poll_array, Loop, invoke, dispatch,
}
use pong_pp.Reactor.Laws.{find_handler-remove_handler}

module _ {H : Type 0} where
  -- A descriptor has one handler.
  abbrev pub IsTable : List (ℕ × H) → Type 0
  IsTable [] = Unit
  IsTable ((fd, cb) ∷ handlers) = (find_handler fd handlers ≡ none) × IsTable handlers

  pub remove_handler-IsTable :
      (fd : ℕ) (handlers : List (ℕ × H)) → IsTable handlers → IsTable (remove_handler fd handlers)
  unfolding remove_handler
  remove_handler-IsTable fd [] h = h
  remove_handler-IsTable fd ((fd', cb) ∷ handlers) (one, h) =
      if_either IsTable (fd == fd') (remove_handler-IsTable fd handlers h) (
        find_handler-remove_handler fd fd' handlers
            ∙ if_either (λ x. x ≡ none) (fd' == fd) refl one,
        remove_handler-IsTable fd handlers h,
      )

  pub on_readable-IsTable :
      (fd : ℕ) (cb : H) (handlers : List (ℕ × H))
      → IsTable handlers
      → IsTable (on_readable fd cb handlers)
  unfolding on_readable
  on_readable-IsTable fd cb handlers h = (
    find_handler-remove_handler fd fd handlers ∙ ground arith,
    remove_handler-IsTable fd handlers h,
  )

  pub at_front :
      (fd : ℕ) (cb : H) (table : List (ℕ × H)) → find_handler fd ((fd, cb) ∷ table) ≡ some cb
  unfolding find_handler
  at_front fd cb table = ground arith

  pub behind :
      (fd : ℕ) (cb : H) (fd' : ℕ) (table : List (ℕ × H))
      → fd' ≢ fd
      → find_handler fd' ((fd, cb) ∷ table) ≡ find_handler fd' table
  unfolding find_handler
  behind fd cb fd' table differs = ground arith

  -- All entries of a table are in another one.
  abbrev Registered : List (ℕ × H) → List (ℕ × H) → Type 0
  Registered table handlers =
      (fd : ℕ) (cb : H) → find_handler fd table ≡ some cb → find_handler fd handlers ≡ some cb

module _ {H : Type 0} {S : Type 0} (loop : Loop H S) where
  open loop use {handlers, call}

  -- Each handler of the table whose descriptor has events is called with them.
  abbrev pub call_each : (ℕ → ℕ) → List (ℕ × H) → S → S
  call_each revents [] s = s
  call_each revents ((fd, cb) ∷ table) s =
      call_each revents table (if revents fd == 0 then s else call cb (revents fd) s)

  module _ {κ} (P : S → Type κ)
      (keep : (s : S) (fd revents : ℕ) (cb : H)
        → P s
        → find_handler fd (handlers s) ≡ some cb
        → P (call cb revents s))
      (apart : (s : S) (fd revents : ℕ) (cb : H) (fd' : ℕ) (cb' : H)
        → P s
        → find_handler fd (handlers s) ≡ some cb
        → find_handler fd' (handlers s) ≡ some cb'
        → fd' ≢ fd
        → find_handler fd' (handlers (call cb revents s)) ≡ some cb') where
    dispatch-table :
        (revents : ℕ → ℕ) (table : List (ℕ × H)) (s : S)
        → IsTable table
        → Registered table (handlers s)
        → P s
        → dispatch loop (with_revents revents (poll_array table)) s ≡ call_each revents table s
    unfolding dispatch
    dispatch-table revents [] s one all h = refl
    dispatch-table revents ((fd, cb) ∷ table) s (one, rest) all h =
        ap
          (λ r.
            dispatch loop (with_revents revents (poll_array table))
              (if revents fd == 0 then s else invoke loop r (revents fd) s))
          found
        ∙ (dispatch-table revents table next rest
            (if_either (λ x. Registered table (handlers x)) (revents fd == 0) still called)
            (if_either P (revents fd == 0) h (keep s fd (revents fd) cb h found)))
      where
        next : S
        next = if revents fd == 0 then s else call cb (revents fd) s

        found : find_handler fd (handlers s) ≡ some cb
        found = all fd cb (at_front fd cb table)

        other : (fd' : ℕ) (cb' : H) → find_handler fd' table ≡ some cb' → fd' ≢ fd
        other fd' cb' e same = absurd (
            let missing : find_handler fd' table ≡ none =
              ap (λ i. find_handler i table) same ∙ one in
            cc)

        still : Registered table (handlers s)
        still fd' cb' e = all fd' cb' (behind fd cb fd' table (other fd' cb' e) ∙ e)

        called : Registered table (handlers (call cb (revents fd) s))
        called fd' cb' e =
            apart s fd (revents fd) cb fd' cb' h found (still fd' cb' e) (other fd' cb' e)

    -- If a handler that is called leaves the entries of the other descriptors as they are, then a
    -- round calls exactly the handlers that were registered when poll returned and whose
    -- descriptors have events, once each.
    pub dispatch-call_each :
        (revents : ℕ → ℕ) (s : S)
        → IsTable (handlers s)
        → P s
        → dispatch loop (with_revents revents (poll_array (handlers s))) s
          ≡ call_each revents (handlers s) s
    dispatch-call_each revents s one h = dispatch-table revents (handlers s) s one (λ fd cb e. e) h
