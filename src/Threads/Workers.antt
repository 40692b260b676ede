-- ===== src/Threads/Workers.antt =====
-- muduo/base/ThreadPool.h and ThreadPool.cc: the pool of workers. A step is what one thread does
-- while it holds the mutex, up to a wait or the end of the call; a task is a number. `run` with no
-- threads runs the task at once.
use rfcs.Common.{
  ℕ, ◌≤◌, ◌≡◌, refl, sym, ap, ◌∙◌, Bool, true, false, not, ◌&&◌, List, [], ◌∷◌, ◌++◌, Option, some,
  none, if◌then◌else◌, leb, ltb, ◌==◌, length, arith, length-append, append_assoc, ◌⊎◌, inr, subst,
}

pub record ThreadPool : Type 0 where
  pub max_queue_size : ℕ
  pub threads : ℕ
  pub running : Bool
  pub queue : List ℕ

abbrev pub init : ThreadPool
init = record { max_queue_size = 0; threads = 0; running = false; queue = [] }

abbrev pub set_max_queue_size : ℕ → ThreadPool → ThreadPool
set_max_queue_size n p = record p { max_queue_size = n }

abbrev pub is_empty : List ℕ → Bool
is_empty [] = true
is_empty (t ∷ ts) = false

-- `none` if the threads have been started before
unfoldable pub start : ℕ → ThreadPool → Option ThreadPool
start n p = if p.threads == 0 then some (record p { running = true; threads = n }) else none

-- The first part of `stop`; the threads end then, and `stop` joins them.
unfoldable pub stop : ThreadPool → ThreadPool
stop p = record p { running = false }

abbrev pub is_full : ThreadPool → Bool
is_full p = ltb 0 p.max_queue_size && leb p.max_queue_size (length p.queue)

-- What a step of `run` comes to: the task is run by the caller, or the caller waits, or returns
-- without the task, or leaves the task in the queue.
pub data Run : Type 0 where
  runs_now waits gives_up fails : Run
  queues : ThreadPool → Run

unfoldable pub run : ℕ → ThreadPool → Run
run task p =
    if p.threads == 0
    then runs_now
    else if is_full p && p.running
    then waits
    else if not p.running
    then gives_up
    else if is_full p
    then fails
    else queues (record p { queue = p.queue ++ task ∷ [] })

-- A step of `take`, by a worker: it waits, or returns with a task or without one.
pub data Take : Type 0 where
  waits : Take
  returns : Option ℕ → ThreadPool → Take

unfoldable pub take : ThreadPool → Take
take p = elim p.queue [
  | [] ↦ if p.running then waits else returns none p
  | task ∷ rest ↦ returns (some task) (record p { queue = rest })
]

-- The loop of `runInThread` at its test: whether the worker goes on.
abbrev pub worker_goes_on : ThreadPool → Bool
worker_goes_on p = p.running

-- The steps of the threads: the tasks that `run` has put into the queue, and those that workers
-- have taken, oldest first.
pub data Runs (max_size : ℕ) : List ℕ → List ℕ → ThreadPool → Type 0 where
  begins : Runs max_size [] [] (set_max_queue_size max_size init)
  starts :
      {ins outs : List ℕ} {p p' : ThreadPool} (n : ℕ)
      → Runs max_size ins outs p
      → start n p ≡ some p'
      → Runs max_size ins outs p'
  stops :
      {ins outs : List ℕ} {p : ThreadPool}
      → Runs max_size ins outs p
      → Runs max_size ins outs (stop p)
  puts :
      {ins outs : List ℕ} {p p' : ThreadPool} (task : ℕ)
      → Runs max_size ins outs p
      → run task p ≡ queues p'
      → Runs max_size (ins ++ task ∷ []) outs p'
  takes :
      {ins outs : List ℕ} {p p' : ThreadPool} {task : ℕ}
      → Runs max_size ins outs p
      → take p ≡ returns (some task) p'
      → Runs max_size ins (outs ++ task ∷ []) p'

run_adds :
    (task : ℕ) (p p' : ThreadPool)
    → run task p ≡ queues p'
    → (p'.queue ≡ p.queue ++ task ∷ [])
      × (p'.max_queue_size ≡ p.max_queue_size)
      × (is_full p ≡ false)
      × (p.running ≡ true)
unfolding run
run_adds task p p' e = ground arith

take_removes :
    (task : ℕ) (p p' : ThreadPool)
    → take p ≡ returns (some task) p'
    → (p.queue ≡ task ∷ p'.queue) × (p'.max_queue_size ≡ p.max_queue_size)
unfolding take
take_removes task p p' e = ground arith

start_keeps :
    (n : ℕ) (p p' : ThreadPool)
    → start n p ≡ some p'
    → (p'.queue ≡ p.queue) × (p'.max_queue_size ≡ p.max_queue_size)
unfolding start
start_keeps n p p' e = ground arith

-- The pool is bounded by `n` tasks, or not at all when `n` is 0.
abbrev pub Bounded : ℕ → List ℕ → Type 0
Bounded n queue = (n ≡ 0) ⊎ (length queue ≤ n)

add-Bounded :
    (n task : ℕ) (queue : List ℕ)
    → ltb 0 n && leb n (length queue) ≡ false
    → Bounded n (queue ++ task ∷ [])
add-Bounded n task queue e = ground (arith, length-append queue (task ∷ []))

-- In every interleaving of the steps of the callers, of the workers, and of a stop: the tasks that
-- workers have taken, followed by those in the queue, are those that were put there, each once and in
-- order; and a bound on the queue that is not 0 is kept.
pub Runs-in_order :
    (max_size : ℕ) (ins outs : List ℕ) (p : ThreadPool)
    → Runs max_size ins outs p
    → (outs ++ p.queue ≡ ins) × (p.max_queue_size ≡ max_size) × Bounded max_size p.queue
unfolding stop
Runs-in_order max_size _ _ _ begins = (refl, refl, inr (omega arith))
Runs-in_order max_size _ _ p' (starts {ins} {outs} {p} n before e) =
    let (whole, same, few) = Runs-in_order max_size ins outs p before in
    let (q, m) = start_keeps n p p' e in
    (ap (λ l. outs ++ l) q ∙ whole, m ∙ same, subst (Bounded max_size) (sym q) few)
Runs-in_order max_size _ _ p' (stops {ins} {outs} {p} before) =
    Runs-in_order max_size ins outs p before
Runs-in_order max_size _ _ p' (puts {ins} {outs} {p} task before e) =
    let (whole, same, few) = Runs-in_order max_size ins outs p before in
    let (added, m, room, on) = run_adds task p p' e in
    (
      ap (λ l. outs ++ l) added
          ∙ sym (append_assoc outs p.queue (task ∷ []))
          ∙ ap (λ l. l ++ task ∷ []) whole,
      m ∙ same,
      subst (Bounded max_size) (sym added) (
          add-Bounded max_size task p.queue
            (ap (λ n. ltb 0 n && leb n (length p.queue)) (sym same) ∙ room)),
    )
Runs-in_order max_size _ _ p' (takes {ins} {outs} {p} {task = task} before e) =
    let (whole, same, few) = Runs-in_order max_size ins outs p before in
    let (removed, m) = take_removes task p p' e in
    (
      append_assoc outs (task ∷ []) p'.queue ∙ ap (λ l. outs ++ l) (sym removed) ∙ whole,
      m ∙ same,
      ground (arith, few, ap length removed),
    )
