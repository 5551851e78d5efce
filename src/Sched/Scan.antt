-- ===== src/Sched/Scan.antt =====
-- The two loops of `get_mlq_proc`: the cursor goes round until the test holds.
use os_to_read.Base.{
  ℕ, zero, suc, ◌+◌, ◌%◌, ◌<◌, ◌≡◌, refl, Bool, true, false, Option, none, Bool-cases, ◌⊎◌, inl,
  inr, arith,
}
use os_to_read.Sched.{max_prio, Sched, advance, take, scan}

-- The state after `d` rounds without a hit.
pub after : Sched → ℕ → Sched
after s zero = s
after s (suc d) = after (advance s) d

pub after_lem :
    (s : Sched) (d : ℕ)
    → s.curr_prio < max_prio
    → after s d ≡ record s { curr_prio = (s.curr_prio + d) % max_prio }
unfolding after advance
after_lem s zero h = ground arith
after_lem s (suc d) h = ground (arith, after_lem (advance s) d)

-- The loop stops at the first round where the test holds, or it makes all `n` rounds.
pub record Hit (test : Sched → Bool) (n : ℕ) (s : Sched) (r : Option ℕ × Sched) : Type 0 where
  pub rounds : ℕ
  pub within : rounds < n
  pub skipped : (e : ℕ) → e < rounds → test (after s e) ≡ false
  pub here : test (after s rounds) ≡ true
  pub result : r ≡ take (after s rounds)

pub record Miss (test : Sched → Bool) (n : ℕ) (s : Sched) (r : Option ℕ × Sched) : Type 0 where
  pub skipped : (e : ℕ) → e < n → test (after s e) ≡ false
  pub result : r ≡ (none, after s n)

below-suc :
    (test : Sched → Bool) (s : Sched) (n : ℕ)
    → test s ≡ false
    → ((e : ℕ) → e < n → test (after (advance s) e) ≡ false)
    → (e : ℕ) → e < suc n
    → test (after s e) ≡ false
unfolding after
below-suc test s n h hs zero lt = h
below-suc test s n h hs (suc e) lt = hs e (omega arith)

pub scan_lem :
    (test : Sched → Bool) (n : ℕ) (s : Sched)
    → Hit test n s (scan test n s) ⊎ Miss test n s (scan test n s)
unfolding scan after
scan_lem test zero s = inr (record { skipped = λ e h. absurd (omega arith); result = refl })
scan_lem test (suc n) s = elim (Bool-cases (test s)) [
  | inl e ↦ rw e (
      inl (record {
        rounds = 0;
        within = omega arith;
        skipped = λ k h. absurd (omega arith);
        here = e;
        result = refl;
      }))
  | inr e ↦ rw e (elim (scan_lem test n (advance s)) [
    | inl h ↦ inl (record {
      rounds = suc h.rounds;
      within = omega (arith, h.within);
      skipped = below-suc test s h.rounds e h.skipped;
      here = h.here;
      result = h.result;
    })
    | inr m ↦ inr (record { skipped = below-suc test s n e m.skipped; result = m.result })
  ])
]
