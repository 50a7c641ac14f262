-- ===== src/Server/Main.antt =====
-- src/server/main.cpp: `main` as a whole, with `make_listener`. What the system and the environment
-- answer is a parameter; socket options, signals and output are left out.
use pong_pp.Common.{
  ℕ, ◌-◌, ◌%◌, ◌^◌, ◌≡◌, refl, ◌∙◌, ap, sym, subst, Bool, false, Option, none, some, List, ◌≢◌, All,
  if◌then◌else◌,
}
use pong_pp.Common.Int.{ℤ, pos, negsuc}
use pong_pp.Reactor.{Poll, failed, Exit, returned, waiting, run, state_of}
use pong_pp.Signaling.State.{mem}
use pong_pp.Server.{Os, IsOs, World, server, start, leave_main}
use pong_pp.Server.Wiring.{IsWired, run-IsWired}
use pong_pp.Server.Life.{leave_main-closed, run-waiting}

-- What atoi makes of PORT if that is set, and the calls that make the listener.
pub record Setup : Type 0 where
  pub env_port : Option ℤ
  pub socket : Option ℕ
  pub bind : ℕ → ℕ → Bool
  pub listen : ℕ → ℕ → Bool

-- An `int` that becomes a `uint16_t`.
abbrev pub u16 : ℤ → ℕ
u16 (pos n) = n % 2 ^ 16
u16 (negsuc n) = 2 ^ 16 - 1 - n % 2 ^ 16

unfoldable pub port : Setup → ℕ
port setup = elim setup.env_port [ none ↦ 9000 | some value ↦ u16 value ]

-- `none` where the program exits.
unfoldable pub make_listener : Setup → ℕ → Option ℕ
make_listener setup number = elim setup.socket [
  | none ↦ none
  | some fd ↦ if setup.bind fd number then (if setup.listen fd 16 then some fd else none) else none
]

-- exit(1), return 0, or still in poll.
pub data Ending : Type 0 where
  exited : Ending
  ended serving : World → Ending

unfoldable pub after_run : ℕ → Exit World → Ending
after_run lfd (returned w) = ended (leave_main lfd w)
after_run lfd (waiting w) = serving w

unfoldable pub with_listener : Os → List Poll → Option ℕ → Ending
unfolding after_run
with_listener os polls none = exited
with_listener os polls (some lfd) = after_run lfd (run (server os) polls (start lfd))

unfoldable pub main : Setup → Os → List Poll → Ending
unfolding with_listener
main setup os polls = with_listener os polls (make_listener setup (port setup))

-- What is left of an ending of `main`.
unfoldable pub IsProper : Option ℕ → List Poll → Ending → Type 0
IsProper lfd polls exited = lfd ≡ none
IsProper lfd polls (serving w) = (fd : ℕ) × (lfd ≡ some fd) × IsWired fd w
IsProper lfd polls (ended w) =
    ((fd : ℕ) → mem fd w.open_fds ≡ false) × (All (λ poll. poll ≢ failed) polls → ⊥)

after_run-IsProper :
    (lfd : ℕ) (polls : List Poll) (os : Os)
    → IsOs os
    → (x : Exit World) → run (server os) polls (start lfd) ≡ x
    → IsProper (some lfd) polls (after_run lfd x)
unfolding after_run IsProper
after_run-IsProper lfd polls os good (returned w) e = (
  λ fd.
      ap (λ x. mem fd (leave_main lfd (state_of (server os) x)).open_fds) (sym e)
      ∙ leave_main-closed os lfd polls fd good,
  λ succeed. let (w', e', wired) = run-waiting os lfd polls good succeed in clash (sym e ∙ e'),
)
  where
    clash : {w w' : World} → returned w ≡ waiting w' → ⊥
    clash e = cc
after_run-IsProper lfd polls os good (waiting w) e =
    (lfd, refl, subst (λ x. IsWired lfd (state_of (server os) x)) e (run-IsWired os lfd polls good))

-- As long as `accept` gives descriptors that are not open, `main` ends in one of three ways: it
-- exits because no listener could be made; it returns, which takes an error of `poll` other than
-- EINTR, and then no descriptor is open any more; or it waits in `poll`, with the listener, the
-- handlers, the players and the open descriptors in agreement.
pub main-IsProper :
    (setup : Setup) (os : Os) (polls : List Poll)
    → IsOs os
    → IsProper (make_listener setup (port setup)) polls (main setup os polls)
unfolding main with_listener IsProper
main-IsProper setup os polls good = go (make_listener setup (port setup))
  where
    go : (r : Option ℕ) → IsProper r polls (with_listener os polls r)
    go none = refl
    go (some lfd) = after_run-IsProper lfd polls os good (run (server os) polls (start lfd)) refl
