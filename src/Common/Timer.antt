-- ===== src/Common/Timer.antt =====
-- common/timer/control_timer.go: the timer of the gossip. The random number and the passing of time are
-- outside: a timer that is armed may fire. `Run` is a step relation, a step being one case of its
-- select, or the rest of that case after the tick is sent.
pub mod Ticks
use paradigm.Prelude.{
  ℕ, ◌+◌, ◌-◌, ◌%◌, ◌^◌, ◌≡◌, Bool, true, false, Option, none, some, ltb, eqb, if◌then◌else◌, set,
  ℤ, pos, ◌-ℤ◌, nat_eq, int_eq, string_eq, pair_eq,
}

-- what the variable `timer` of `Run` holds: nil, a channel that is still to fire, or one that has fired
pub data Clock : Type 0 where
  no_clock : Clock
  armed : Clock
  spent : Clock

-- where `Run` is: at its select, between the send of a tick and `c.Set = false`, or returned
pub data Place : Type 0 where
  selecting : Place
  ticked : Place
  returned : Place

pub record ControlTimer : Type 0 where
  pub set : Bool
  pub clock : Clock
  pub place : Place

-- an `int64` of a natural number
abbrev pub int64 : ℕ → ℤ
int64 n = if ltb (n % 2 ^ 64) (2 ^ 63) then pos (n % 2 ^ 64) else pos (n % 2 ^ 64) -ℤ pos (2 ^ 64)

-- the timeout of `NewRandomControlTimer`, for a base that is not negative; none for a nil channel
unfoldable pub random_timeout : ℕ → ℕ → Option ℤ
random_timeout base r = if eqb base 0 then none else some (int64 (base + r % base))

-- the channel of the timer's factory
unfoldable pub clock_of : ℕ → Clock
clock_of base = if eqb base 0 then no_clock else armed

-- `setTimer`
unfoldable pub set_timer : ℕ → ControlTimer → ControlTimer
unfolding clock_of
set_timer base c = record c { set = true; clock = clock_of base }

-- `Run` up to its loop
unfoldable pub start : ℕ → ControlTimer
unfolding set_timer
start base = set_timer base (record { set = false; clock = no_clock; place = selecting })

-- a step of `Run`
pub data Step (base : ℕ) (c d : ControlTimer) : Type 0 where
  tick :
      c.place ≡ selecting
      → c.clock ≡ armed
      → d ≡ record c { clock = spent; place = ticked }
      → Step base c d
  unset : c.place ≡ ticked → d ≡ record c { set = false; place = selecting } → Step base c d
  reset : c.place ≡ selecting → d ≡ set_timer base c → Step base c d
  stop : c.place ≡ selecting → d ≡ record c { set = false; clock = no_clock } → Step base c d
  shut_down : c.place ≡ selecting → d ≡ record c { set = false; place = returned } → Step base c d

pub data Reach (base : ℕ) (c : ControlTimer) : ControlTimer → Type 0 where
  here : Reach base c c
  next : {d e : ControlTimer} → Reach base c d → Step base d e → Reach base c e
