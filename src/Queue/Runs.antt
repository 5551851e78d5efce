-- ===== src/Queue/Runs.antt =====
-- Sequences of the operations of src/queue.c, against the same sequences on a bounded list.
use os_to_read.Base.{ℕ, ◌≡◌, refl, Option, none, some, List, [], ◌∷◌}
use os_to_read.Queue.{Queue, enqueue, enqueue_front, dequeue, purgequeue}
use os_to_read.Queue.Refine.{
  Holds, push_back, push_front, head_of, tail_of, enqueue_refines, enqueue_front_refines,
  dequeue_refines,
}
use os_to_read.Queue.Purge.{erase, found, purgequeue_refines}

-- What a queue of processes offers. Two operations return a process, or NULL.
pub record QueueOps (Q : Type 0) : Type 0 where
  pub add_last : ℕ → Q → Q
  pub add_front : ℕ → Q → Q
  pub take_first : Q → Option ℕ × Q
  pub purge : ℕ → Q → Option ℕ × Q

pub data Call : Type 0 where
  enqueues : (p : ℕ) → Call
  enqueues_front : (p : ℕ) → Call
  dequeues : Call
  purges : (p : ℕ) → Call

module _ {Q : Type 0} (ops : QueueOps Q) where
  unfoldable pub perform : Call → Q → Option ℕ × Q
  perform (enqueues p) q = (none, ops.add_last p q)
  perform (enqueues_front p) q = (none, ops.add_front p q)
  perform dequeues q = ops.take_first q
  perform (purges p) q = ops.purge p q

  -- What the calls return, in order, and the queue behind them.
  unfoldable pub perform_all : List Call → Q → List (Option ℕ) × Q
  unfolding perform
  perform_all [] q = ([], q)
  perform_all (c ∷ calls) q =
      let step = perform c q in let rest = perform_all calls (step.1) in ((step.0) ∷ rest.0, rest.1)

-- Each operation on one side does what it does on the other.
pub record Simulates {Q R : Type 0} (array : QueueOps Q) (spec : QueueOps R) (Rel : Q → R → Type 0)
    : Type 0 where
  pub add_last : (p : ℕ) {q : Q} {r : R} → Rel q r → Rel (array.add_last p q) (spec.add_last p r)
  pub add_front : (p : ℕ) {q : Q} {r : R} → Rel q r → Rel (array.add_front p q) (spec.add_front p r)
  pub take_first :
      {q : Q} {r : R}
      → Rel q r
      → ((array.take_first q).0 ≡ (spec.take_first r).0)
        × Rel (array.take_first q).1 (spec.take_first r).1
  pub purge :
      (p : ℕ) {q : Q} {r : R}
      → Rel q r
      → ((array.purge p q).0 ≡ (spec.purge p r).0) × Rel (array.purge p q).1 (spec.purge p r).1

module _ {Q R : Type 0} {array : QueueOps Q} {spec : QueueOps R} {Rel : Q → R → Type 0}
    (sim : Simulates array spec Rel) where
  perform_simulates :
      (c : Call) {q : Q} {r : R}
      → Rel q r
      → ((perform array c q).0 ≡ (perform spec c r).0)
        × Rel (perform array c q).1 (perform spec c r).1
  unfolding perform
  perform_simulates (enqueues p) h = (refl, sim.add_last p h)
  perform_simulates (enqueues_front p) h = (refl, sim.add_front p h)
  perform_simulates dequeues h = sim.take_first h
  perform_simulates (purges p) h = sim.purge p h

  perform_all_simulates :
      (calls : List Call) {q : Q} {r : R}
      → Rel q r
      → ((perform_all array calls q).0 ≡ (perform_all spec calls r).0)
        × Rel (perform_all array calls q).1 (perform_all spec calls r).1
  unfolding perform_all
  perform_all_simulates [] h = (refl, h)
  perform_all_simulates (c ∷ calls) h =
      let first = perform_simulates c h in
      let rest = perform_all_simulates calls first.1 in (cc (first.0, rest.0), rest.1)

-- The functions of src/queue.c, and the list of at most `MAX_QUEUE_SIZE` processes.
abbrev pub array_ops : QueueOps Queue
array_ops = record {
  add_last = λ p q. enqueue q (some p);
  add_front = λ p q. enqueue_front q (some p);
  take_first = dequeue;
  purge = λ p q. purgequeue q (some p);
}

abbrev pub list_ops : QueueOps (List ℕ)
list_ops = record {
  add_last = λ p l. push_back l p;
  add_front = λ p l. push_front l p;
  take_first = λ l. (head_of l, tail_of l);
  purge = λ p l. (found p l, erase p l);
}

array_simulates : Simulates array_ops list_ops Holds
array_simulates = record {
  add_last = λ p h. enqueue_refines p h;
  add_front = λ p h. enqueue_front_refines p h;
  take_first = λ {q} {r} h. dequeue_refines r h;
  purge = λ p {q} {r} h. purgequeue_refines p r h;
}

-- From a queue that holds a list, any sequence of calls of `enqueue`, `enqueue_front`, `dequeue` and
-- `purgequeue` returns what the same operations on the bounded list return, and leaves a queue that
-- holds the list they leave: at the back or the front below the capacity and nothing at it, the first
-- process, the first occurrence.
pub queue_refines :
    (calls : List Call) {q : Queue} {l : List ℕ}
    → Holds q l
    → ((perform_all array_ops calls q).0 ≡ (perform_all list_ops calls l).0)
      × Holds (perform_all array_ops calls q).1 (perform_all list_ops calls l).1
queue_refines calls h = perform_all_simulates array_simulates calls h
