-- ===== src/Boot/Clocked/Tests/Turns.antt =====
-- Several steps of the timer thread in a row.
use os_to_read.Base.{
  ℕ, zero, suc, ◌+◌, ◌^◌, ◌<◌, ◌≤◌, ◌≡◌, refl, Option, none, some, inl, inr, arith, subst,
}
use os_to_read.Base.Int.{ℤ}
use os_to_read.Timer.{Timer, timer_step}
use os_to_read.Timer.Steps.{timer_step-time}
use os_to_read.Loader.{Stdio}
use os_to_read.Boot.{LdArgs}
use os_to_read.Boot.Clocked.{Clocked, ClockedRuns, one_more, timer_moves}

unfoldable pub turns_from : (Timer → Option Timer) → Option Timer → Option Timer
turns_from turn none = none
turns_from turn (some t) = turn t

-- `k` steps of the timer thread, if it has as many.
unfoldable pub turns : ℕ → Timer → Option Timer
unfolding turns_from
turns zero t = some t
turns (suc k) t = turns_from (turns k) (timer_step t)

first_turn :
    (turn : Timer → Option Timer) (o : Option Timer) {t' : Timer}
    → turns_from turn o ≡ some t'
    → (t : Timer) × (o ≡ some t) × (turn t ≡ some t')
unfolding turns_from
first_turn turn none e = absurd (cc e)
first_turn turn (some t) e = (t, refl, e)

module _ {F : Type 0} {io : Stdio F} {args : LdArgs} {n : ℕ} {time_slot : ℤ} where
  -- They make part of a run.
  pub timer_turn :
      (k : ℕ) {m₀ : Clocked} (m : Clocked) (t' : Timer)
      → ClockedRuns io args n time_slot m₀ m
      → m.timer.time + k < 2 ^ 64
      → turns k m.timer ≡ some t'
      → ClockedRuns io args n time_slot m₀ (record m { timer = t' })
  unfolding turns
  timer_turn zero {m₀} m t' r h e =
      let same : m.timer ≡ t' = cc e in
      subst (λ t. ClockedRuns io args n time_slot m₀ (record m { timer = t })) same r
  timer_turn (suc k) {m₀} m t' r h e =
      let (t, s, rest) = first_turn (turns k) (timer_step m.timer) e in
      let later : t.time ≤ m.timer.time + 1 = elim (timer_step-time m.timer t s) [
        | inl same ↦ omega (arith, same)
        | inr next ↦ omega (arith, next)
      ] in
      timer_turn k (record m { timer = t }) t' (one_more r (timer_moves m t s (omega (arith, h))))
        (omega (arith, h, later)) rest
