-- ===== src/Threads/Queue.antt =====
-- muduo/base/BoundedBlockingQueue.h: the bounded queue between threads. A step is what one thread
-- does while it holds the mutex: a wait ends its step, and the thread takes the next one when it has
-- been woken, so that the test of its loop is made again. Which threads wait on the two conditions, and
-- whom a notification wakes, is left out. `boost::circular_buffer` is the list of its
-- items, oldest first, with its capacity.
use rfcs.Common.{
  ℕ, ◌≤◌, ◌<◌, ◌≡◌, refl, sym, ap, ◌∙◌, Bool, true, false, not, List, [], ◌∷◌, ◌++◌, if◌then◌else◌,
  leb, length, arith, length-append, append_assoc,
}

pub record BoundedBlockingQueue : Type 0 where
  pub items : List ℕ
  pub capacity : ℕ

abbrev pub init : ℕ → BoundedBlockingQueue
init max_size = record { items = []; capacity = max_size }

abbrev pub full : BoundedBlockingQueue → Bool
full q = leb q.capacity (length q.items)

abbrev pub size : BoundedBlockingQueue → ℕ
size q = length q.items

-- A step of `put` or `take`: it waits, or it ends.
pub data Turn (R : Type 0) : Type 0 where
  waits : Turn R
  ends : R → BoundedBlockingQueue → Turn R
  fails : Turn R

-- `push_back` on a circular buffer that is full takes the place of the oldest item.
unfoldable pub push_back : ℕ → BoundedBlockingQueue → BoundedBlockingQueue
push_back x q = elim (full q) [
  | false ↦ record q { items = q.items ++ x ∷ [] }
  | true ↦ elim q.items [ [] ↦ q | y ∷ ys ↦ record q { items = ys ++ x ∷ [] } ]
]

unfoldable pub put : ℕ → BoundedBlockingQueue → Turn (Unit {0})
unfolding push_back
put x q =
    if full q then waits else elim (not (full q)) [ true ↦ ends tt (push_back x q) | false ↦ fails ]

unfoldable pub take : BoundedBlockingQueue → Turn ℕ
take q = elim q.items [ [] ↦ waits | x ∷ xs ↦ ends x (record q { items = xs }) ]

-- The steps of the threads, with what was put and what was taken so far, oldest first.
pub data Runs (max_size : ℕ) : List ℕ → List ℕ → BoundedBlockingQueue → Type 0 where
  begins : Runs max_size [] [] (init max_size)
  puts :
      {ins outs : List ℕ} {q q' : BoundedBlockingQueue} (x : ℕ)
      → Runs max_size ins outs q
      → put x q ≡ ends tt q'
      → Runs max_size (ins ++ x ∷ []) outs q'
  takes :
      {ins outs : List ℕ} {q q' : BoundedBlockingQueue} {x : ℕ}
      → Runs max_size ins outs q
      → take q ≡ ends x q'
      → Runs max_size ins (outs ++ x ∷ []) q'

put_adds :
    (x : ℕ) (q q' : BoundedBlockingQueue)
    → put x q ≡ ends tt q'
    → (q'.items ≡ q.items ++ x ∷ []) × (q'.capacity ≡ q.capacity) × (length q.items < q.capacity)
unfolding put push_back
put_adds x q q' e = ground arith

take_removes :
    (x : ℕ) (q q' : BoundedBlockingQueue)
    → take q ≡ ends x q'
    → (q.items ≡ x ∷ q'.items) × (q'.capacity ≡ q.capacity)
unfolding take
take_removes x q q' e = ground arith

-- In every interleaving of the steps of the threads that put and take: what was taken, followed by
-- what is in the queue, is what was put, each item once and in its order, and the queue never holds
-- more than its capacity.
pub Runs-fifo :
    (max_size : ℕ) (ins outs : List ℕ) (q : BoundedBlockingQueue)
    → Runs max_size ins outs q
    → (outs ++ q.items ≡ ins) × (q.capacity ≡ max_size) × (length q.items ≤ max_size)
Runs-fifo max_size _ _ _ begins = (refl, refl, omega arith)
Runs-fifo max_size _ _ q' (puts {ins} {outs} {q} x before e) =
    let (whole, cap, few) = Runs-fifo max_size ins outs q before in
    let (added, same, less) = put_adds x q q' e in
    (
      ap (λ l. outs ++ l) added
          ∙ sym (append_assoc outs q.items (x ∷ []))
          ∙ ap (λ l. l ++ x ∷ []) whole,
      same ∙ cap,
      omega (arith, ap length added, length-append q.items (x ∷ [])),
    )
Runs-fifo max_size _ _ q' (takes {ins} {outs} {q} {x = x} before e) =
    let (whole, cap, few) = Runs-fifo max_size ins outs q before in
    let (removed, same) = take_removes x q q' e in
    (
      append_assoc outs (x ∷ []) q'.items ∙ ap (λ l. outs ++ l) (sym removed) ∙ whole,
      same ∙ cap,
      omega (arith, ap length removed),
    )
