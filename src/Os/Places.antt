-- ===== src/Os/Places.antt =====
-- In how many places a process stands: in the ready queues, and with a CPU. Each scheduler call moves
-- it from one to the other.
use os_to_read.Base.{
  ℕ, zero, suc, ◌+◌, ◌≤◌, ◌<◌, ◌≡◌, ◌≢◌, refl, ap, subst, Option, none, some, List, [], ◌∷◌, ◌++◌,
  arith, inl, inr, if◌then◌else◌, ◌==◌, leb, get_elem?, set, update, Bool-cases, ℕ_discrete,
  update_ne, update_self,
}
use os_to_read.Queue.Refine.{push_back}
use os_to_read.Sched.{max_prio, Sched, get_proc, put_proc, add_proc}
use os_to_read.Sched.Inv.{IsReady}
use os_to_read.Sched.Policy.{get_mlq_proc_lem}
use os_to_read.Sched.Put.{queued, put_mlq_proc_refines, add_mlq_proc-put}
use os_to_read.Os.{Cpu}

abbrev pub same : ℕ → ℕ → ℕ
same p q = if p == q then 1 else 0

-- How often `q` is in a list, and in the queues of the first `n` priorities.
unfoldable pub count : List ℕ → ℕ → ℕ
count [] q = 0
count (p ∷ l) q = same p q + count l q

unfoldable pub total : ℕ → (ℕ → List ℕ) → ℕ → ℕ
total zero ls q = 0
total (suc n) ls q = count (ls n) q + total n ls q

-- Whether a CPU has `q`, and how many CPUs have it.
unfoldable pub has : Option ℕ → ℕ → ℕ
has none q = 0
has (some p) q = same p q

unfoldable pub held : List Cpu → ℕ → ℕ
held [] q = 0
held (c ∷ cs) q = has c.proc q + held cs q

pub held-set :
    (cs : List Cpu) (i : ℕ) {c : Cpu} (c' : Cpu) (q : ℕ)
    → get_elem? cs i ≡ some c
    → held (set cs i c') q + has c.proc q ≡ held cs q + has c'.proc q
unfolding held
held-set [] i c' q e = absurd (ground arith)
held-set (d ∷ cs) zero c' q e = ground arith
held-set (d ∷ cs) (suc i) c' q e = omega (arith, held-set cs i c' q e)

pub held-one :
    (cs : List Cpu) (i : ℕ) {c : Cpu} (q : ℕ) → get_elem? cs i ≡ some c → has c.proc q ≤ held cs q
unfolding held
held-one [] i q e = absurd (ground arith)
held-one (d ∷ cs) zero q e = ground arith
held-one (d ∷ cs) (suc i) q e = omega (arith, held-one cs i q e)

pub held-two :
    (cs : List Cpu) (i j : ℕ) {c d : Cpu} (q : ℕ)
    → i ≢ j
    → get_elem? cs i ≡ some c
    → get_elem? cs j ≡ some d
    → has c.proc q + has d.proc q ≤ held cs q
unfolding held
held-two [] i j q ne e f = absurd (ground arith)
held-two (x ∷ cs) zero zero q ne e f = absurd (ne refl)
held-two (x ∷ cs) zero (suc j) q ne e f = ground (arith, held-one cs j q f)
held-two (x ∷ cs) (suc i) zero q ne e f = ground (arith, held-one cs i q e)
held-two (x ∷ cs) (suc i) (suc j) q ne e f =
    omega (arith, held-two cs i j q (λ h. ne (ap suc h)) e f)

total-beyond :
    (n : ℕ) (ls : ℕ → List ℕ) (i : ℕ) (l : List ℕ) (q : ℕ)
    → n ≤ i
    → total n (update ls i l) q ≡ total n ls q
unfolding total
total-beyond zero ls i l q h = refl
total-beyond (suc n) ls i l q h =
    let other : update ls i l n ≡ ls n = update_ne ls l (λ e. omega (arith, e, h)) in
    omega (arith, total-beyond n ls i l q (omega arith), ap (λ t. count t q) other)

total-update :
    (n : ℕ) (ls : ℕ → List ℕ) (i : ℕ) (l : List ℕ) (q : ℕ)
    → i < n
    → total n (update ls i l) q + count (ls i) q ≡ total n ls q + count l q
unfolding total
total-update zero ls i l q h = absurd (omega arith)
total-update (suc n) ls i l q h = elim (ℕ_discrete i n) [
  | yes e ↦
      let here : update ls i l n ≡ l = subst (λ k. update ls i l k ≡ l) e (update_self ls i l) in
      omega (
        arith,
        total-beyond n ls i l q (omega (arith, e)),
        ap (λ t. count t q) here,
        ap (λ k. count (ls k) q) e,
      )
  | no ne ↦
      let other : update ls i l n ≡ ls n = update_ne ls l ne in
      omega (arith, total-update n ls i l q (omega (arith, ne)), ap (λ t. count t q) other)
]

count-append : (l : List ℕ) (p q : ℕ) → count (l ++ (p ∷ [])) q ≡ count l q + same p q
unfolding count
count-append [] p q = omega arith
count-append (x ∷ l) p q = omega (arith, count-append l p q)

count-push_back : (l : List ℕ) (p q : ℕ) → count (push_back l p) q ≤ count l q + same p q
unfolding push_back
count-push_back l p q = ground (arith, count-append l p q)

total-queued :
    (ls : ℕ → List ℕ) (prio p q : ℕ)
    → total max_prio (queued ls prio p) q ≤ total max_prio ls q + same p q
unfolding queued
total-queued ls prio p q = elim (Bool-cases (leb max_prio prio)) [
  | inl out ↦ rw out (omega arith)
  | inr in_range ↦ rw in_range (
      omega (
        arith,
        total-update max_prio ls prio (push_back (ls prio) p) q (ground arith),
        count-push_back (ls prio) p q,
      ))
]

-- What `put_proc` and `add_proc` do to the places of every process.
pub record Put (ls : ℕ → List ℕ) (p : ℕ) (s' : Sched) : Type 0 where
  pub ls' : ℕ → List ℕ
  pub ready : IsReady s' ls'
  pub bound : (q : ℕ) → total max_prio ls' q ≤ total max_prio ls q + same p q

pub put_proc-Put :
    (prio : ℕ → ℕ) {s : Sched} {ls : ℕ → List ℕ} (p : ℕ)
    → IsReady s ls
    → Put ls p (put_proc prio (some p) s)
unfolding put_proc
put_proc-Put prio {s} {ls} p r = record {
  ls' = queued ls (prio p) p;
  ready = put_mlq_proc_refines prio p r;
  bound = λ q. total-queued ls (prio p) p q;
}

pub add_proc-Put :
    (prio : ℕ → ℕ) {s : Sched} {ls : ℕ → List ℕ} (p : ℕ)
    → IsReady s ls
    → Put ls p (add_proc prio (some p) s)
unfolding add_proc put_proc
add_proc-Put prio {s} {ls} p r = rw (add_mlq_proc-put prio (some p) s) (put_proc-Put prio p r)

-- `get_proc` takes a process out of the queues, or nothing.
pub record Got (ls : ℕ → List ℕ) (r : Option ℕ × Sched) : Type 0 where
  pub ls' : ℕ → List ℕ
  pub ready : IsReady r.1 ls'
  pub bound : (q : ℕ) → total max_prio ls' q + has (r.0) q ≡ total max_prio ls q

pub get_proc-Got : {s : Sched} {ls : ℕ → List ℕ} → IsReady s ls → Got ls (get_proc s)
unfolding get_proc
get_proc-Got {s} {ls} r = elim (get_mlq_proc_lem r) [
  | inl v ↦ record {
    ls' = update ls v.prio v.taken.rest;
    ready = v.taken.ready;
    bound = λ q.
        unfold count has in
        omega (
          arith,
          total-update max_prio ls v.prio v.taken.rest q v.taken.in_range,
          ap (λ l. count l q) v.taken.front,
          ap (λ o. has o q) v.taken.result,
        );
  }
  | inr idle ↦ record {
    ls' = ls;
    ready = idle.ready;
    bound = λ q. unfold has in omega (arith, ap (λ o. has o q) idle.result);
  }
]
