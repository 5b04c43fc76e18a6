-- ===== src/Common/Timer/Ticks.antt =====
-- What `Set` of common/timer/control_timer.go says, and how long a timeout is.
use paradigm.Prelude.{
  ℕ, ◌+◌, ◌*◌, ◌%◌, ◌^◌, ◌≤◌, ◌<◌, ◌≡◌, refl, sym, ◌∙◌, ◌≢◌, true, false, none, some, arith, eqb,
  if◌then◌else◌, pos, nat_eq, int_eq, string_eq, pair_eq,
}
use mathlib.Core.Path.{subst}
use native.Mathlib.Nat.{mod-lt, mod-eq_of_lt}
use paradigm.Common.Timer.{
  armed, spent, no_clock, selecting, ticked, returned, ControlTimer, int64, random_timeout,
  clock_of, set_timer, start, Step, tick, unset, reset, stop, shut_down, Reach, here, next,
}

-- At its select the timer is set exactly if it is armed; between the send of a tick and the reset of
-- `Set` it is set and spent; when it has returned it is not set.
pub data IsSynced (c : ControlTimer) : Type 0 where
  waits : c.place ≡ selecting → c.set ≡ true → c.clock ≡ armed → IsSynced c
  rests : c.place ≡ selecting → c.set ≡ false → c.clock ≢ armed → IsSynced c
  ticks : c.place ≡ ticked → c.set ≡ true → c.clock ≡ spent → IsSynced c
  over : c.place ≡ returned → c.set ≡ false → IsSynced c

spent-ne : spent ≢ armed
spent-ne h = cc

no_clock-ne : no_clock ≢ armed
no_clock-ne h = cc

set_timer-IsSynced :
    (base : ℕ) (c : ControlTimer) → 0 < base → c.place ≡ selecting → IsSynced (set_timer base c)
unfolding set_timer clock_of
set_timer-IsSynced base c h p = waits p refl (ground (arith, h))

Step-IsSynced : (base : ℕ) (c d : ControlTimer) → 0 < base → Step base c d → IsSynced c → IsSynced d
Step-IsSynced base c d h (tick p a e) (waits q s b) = subst IsSynced (sym e) (ticks refl s refl)
Step-IsSynced base c d h (tick p a e) (rests q s b) = absurd (b a)
Step-IsSynced base c d h (tick p a e) (ticks q s b) = absurd (ground (arith, p, q))
Step-IsSynced base c d h (tick p a e) (over q s) = absurd (ground (arith, p, q))
Step-IsSynced base c d h (unset p e) (ticks q s b) =
    subst IsSynced (sym e) (rests refl refl (λ f. spent-ne (sym b ∙ f)))
Step-IsSynced base c d h (unset p e) (waits q s b) = absurd (ground (arith, p, q))
Step-IsSynced base c d h (unset p e) (rests q s b) = absurd (ground (arith, p, q))
Step-IsSynced base c d h (unset p e) (over q s) = absurd (ground (arith, p, q))
Step-IsSynced base c d h (reset p e) i = subst IsSynced (sym e) (set_timer-IsSynced base c h p)
Step-IsSynced base c d h (stop p e) i = subst IsSynced (sym e) (rests p refl no_clock-ne)
Step-IsSynced base c d h (shut_down p e) i = subst IsSynced (sym e) (over refl refl)

-- However `Run` of a timer with a positive base goes on, at its select it is set exactly if it is armed;
-- only between the send of a tick and the reset of `Set` is it set and spent; and when it has returned
-- it is not set.
pub Reach-IsSynced :
    (base : ℕ) (c : ControlTimer) → 0 < base → Reach base (start base) c → IsSynced c
unfolding start
Reach-IsSynced base _ h here =
    set_timer-IsSynced base (record { set = false; clock = no_clock; place = selecting }) h refl
Reach-IsSynced base _ h (next {d} {e} r s) = Step-IsSynced base d e h s (Reach-IsSynced base d h r)

within :
    (base n : ℕ)
    → 0 < base
    → n < 2 ^ 63
    → (if eqb base 0 then none else some (int64 n)) ≡ some (pos n)
within base n h j =
    let small : n % 2 ^ 64 ≡ n = mod-eq_of_lt (omega (arith, j)) in ground (arith, h, j, small)

-- A timeout of a positive base of at most 2^62 does not overflow: it is at least the base and less than
-- twice the base.
pub random_timeout_lem :
    (base r : ℕ)
    → 0 < base
    → base ≤ 2 ^ 62
    → (t : ℕ) × (random_timeout base r ≡ some (pos t)) × (base ≤ t) × (t < 2 * base)
unfolding random_timeout
random_timeout_lem base r h j =
    let extra = mod-lt r h in
    (
      base + r % base,
      within base (base + r % base) h (omega (arith, j, extra)),
      omega arith,
      omega (arith, extra),
    )
