-- ===== src/Threads/Loops.antt =====
-- muduo/net/EventLoopThreadPool.h and EventLoopThreadPool.cc: the event loops that share the
-- connections. A loop is a number; the loop that thread `i` starts is `start_loop i`. `none` is a
-- failed assertion.
use native.Mathlib.Nat.{mod-lt, mod-add-mod, mod-eq_of_lt, mod_self, zero-mod}
use rfcs.Common.{
  ℕ, zero, suc, ◌+◌, ◌%◌, ◌<◌, ◌≡◌, refl, sym, ap, ap₂, ◌∙◌, Bool, true, false, not, List, [], ◌∷◌,
  ◌++◌, Option, some, none, if◌then◌else◌, leb, ◌>>=◌, ◌>>◌, assert, length, arith, dec_lt,
  lt→not_leb, le→leb, append-nil, append_assoc,
}

pub record LoopPool : Type 0 where
  pub base_loop : ℕ
  pub started : Bool
  pub num_threads : ℕ
  pub next : ℕ
  pub loops : List ℕ

abbrev pub init : ℕ → LoopPool
init base_loop = record {
  base_loop = base_loop;
  started = false;
  num_threads = 0;
  next = 0;
  loops = [];
}

abbrev pub set_thread_num : ℕ → LoopPool → LoopPool
set_thread_num n p = record p { num_threads = n }

-- The loop over the threads at thread `i`, with `left` to go.
unfoldable pub launch : (ℕ → ℕ) → ℕ → ℕ → List ℕ → List ℕ
launch start_loop i zero loops = loops
launch start_loop i (suc left) loops = launch start_loop (i + 1) left (loops ++ start_loop i ∷ [])

unfoldable pub start : (ℕ → ℕ) → LoopPool → Option LoopPool
unfolding launch
start start_loop p = do
  assert (not p.started)
  some (record p { started = true; loops = launch start_loop 0 p.num_threads p.loops })

-- `loops_[i]`, undefined out of range
unfoldable pub at : ℕ → List ℕ → Option ℕ
at i [] = none
at zero (l ∷ ls) = some l
at (suc i) (l ∷ ls) = at i ls

abbrev pub is_empty : List ℕ → Bool
is_empty [] = true
is_empty (l ∷ ls) = false

unfoldable pub get_next_loop : LoopPool → Option (ℕ × LoopPool)
unfolding at
get_next_loop p =
    assert p.started
    >> (if is_empty p.loops
        then some (p.base_loop, p)
        else (at p.next p.loops >>= λ loop.
            let next = p.next + 1 in
            some (loop, record p { next = if leb (length p.loops) next then 0 else next })))

unfoldable pub get_loop_for_hash : ℕ → LoopPool → Option ℕ
unfolding at
get_loop_for_hash hash_code p =
    if is_empty p.loops then some p.base_loop else at (hash_code % length p.loops) p.loops

unfoldable pub get_all_loops : LoopPool → Option (List ℕ)
get_all_loops p = do assert p.started; some (if is_empty p.loops then p.base_loop ∷ [] else p.loops)

-- The loop that the next call gives after `k` calls.
unfoldable pub serve : ℕ → LoopPool → Option (ℕ × LoopPool)
unfolding get_next_loop
serve zero p = get_next_loop p
serve (suc k) p = get_next_loop p >>= λ (loop, q). serve k q

-- The loops that the threads `i` to `i + left - 1` start.
abbrev pub started_loops : (ℕ → ℕ) → ℕ → ℕ → List ℕ
started_loops start_loop i zero = []
started_loops start_loop i (suc left) = start_loop i ∷ started_loops start_loop (i + 1) left

launch-started :
    (f : ℕ → ℕ) (i left : ℕ) (ls : List ℕ) → launch f i left ls ≡ ls ++ started_loops f i left
unfolding launch
launch-started f i zero ls = sym (append-nil ls)
launch-started f i (suc left) ls =
    launch-started f (i + 1) left (ls ++ f i ∷ [])
    ∙ append_assoc ls (f i ∷ []) (started_loops f (i + 1) left)

length-started_loops : (f : ℕ → ℕ) (i left : ℕ) → length (started_loops f i left) ≡ left
length-started_loops f i zero = refl
length-started_loops f i (suc left) = ap suc (length-started_loops f (i + 1) left)

at-started_loops :
    (f : ℕ → ℕ) (i left k : ℕ) → k < left → at k (started_loops f i left) ≡ some (f (i + k))
unfolding at
at-started_loops f i zero k h = absurd (omega arith)
at-started_loops f i (suc left) zero h = ap (λ m. some (f m)) (omega arith)
at-started_loops f i (suc left) (suc k) h =
    at-started_loops f (i + 1) left k (omega arith) ∙ ap (λ m. some (f m)) (omega arith)

-- A pool whose `n` threads run, and which has given the loops out `k` times.
record Serves (f : ℕ → ℕ) (n k : ℕ) (p : LoopPool) : Type 0 where
  pub started : p.started ≡ true
  pub loops : p.loops ≡ started_loops f 0 n
  pub next : p.next ≡ k % n

get_next_loop_at :
    (p : LoopPool) (loop : ℕ)
    → p.started ≡ true
    → is_empty p.loops ≡ false
    → at p.next p.loops ≡ some loop
    → get_next_loop p
      ≡ some (loop, record p { next = if leb (length p.loops) (p.next + 1) then 0 else p.next + 1 })
unfolding get_next_loop
get_next_loop_at p loop on full here = ground arith

not_empty : (f : ℕ → ℕ) (n : ℕ) → 0 < n → is_empty (started_loops f 0 n) ≡ false
not_empty f zero h = absurd (omega arith)
not_empty f (suc n) h = refl

next_turn : (n k : ℕ) → 0 < n → (if leb n (k % n + 1) then 0 else k % n + 1) ≡ (k + 1) % n
next_turn n k h = elim (dec_lt (k % n + 1) n) [
  | yes inside ↦
      ap (λ b. if b then 0 else k % n + 1) (lt→not_leb (k % n + 1) n inside)
      ∙ sym (sym (mod-add-mod k n 1) ∙ mod-eq_of_lt inside)
  | no over ↦
      let last : k % n + 1 ≡ n = omega (arith, mod-lt k h) in
      ap (λ b. if b then 0 else k % n + 1) (le→leb n (k % n + 1) (omega arith))
      ∙ sym (sym (mod-add-mod k n 1) ∙ ap (λ m. m % n) last ∙ mod_self n)
]

serve-suc :
    (k : ℕ) {loop : ℕ} (p q : LoopPool)
    → get_next_loop p ≡ some (loop, q)
    → serve (suc k) p ≡ serve k q
unfolding serve
serve-suc k p q e = rw e refl

module _ (f : ℕ → ℕ) (n : ℕ) (some_threads : 0 < n) where
  get_next_loop-Serves :
      (k : ℕ) (p : LoopPool)
      → Serves f n k p
      → (q : LoopPool) × (get_next_loop p ≡ some (f (k % n), q)) × Serves f n (k + 1) q
  get_next_loop-Serves k p s = (
    record p { next = if leb (length p.loops) (p.next + 1) then 0 else p.next + 1 },
    get_next_loop_at p (f (k % n)) s.started (ap is_empty s.loops ∙ not_empty f n some_threads) (
        ap₂ at s.next s.loops
        ∙ at-started_loops f 0 n (k % n) (mod-lt k some_threads)
        ∙ ap (λ m. some (f m)) (omega arith)),
    record {
      started = s.started;
      loops = s.loops;
      next =
          ap₂ (λ m l. if leb l (m + 1) then 0 else m + 1) s.next
            (ap length s.loops ∙ length-started_loops f 0 n)
          ∙ next_turn n k some_threads;
    },
  )

  serve-Serves :
      (j k : ℕ) (p : LoopPool)
      → Serves f n k p
      → (q : LoopPool) × (serve j p ≡ some (f ((k + j) % n), q))
  unfolding serve
  serve-Serves zero k p s =
      let (q, e, t) = get_next_loop-Serves k p s in
      (q, e ∙ ap (λ m. some (f (m % n), q)) (omega arith))
  serve-Serves (suc j) k p s =
      let (q, e, t) = get_next_loop-Serves k p s in
      let (r, e') = serve-Serves j (k + 1) q t in
      (r, serve-suc j p q e ∙ e' ∙ ap (λ m. some (f (m % n), r)) (omega arith))

-- A pool of `n` threads, `n` not 0, that has been started: the call of `getNextLoop` after `k` calls
-- gives the loop of thread `k % n`, so that the loops take turns.
pub serve-start :
    (f : ℕ → ℕ) (n base k : ℕ)
    → 0 < n
    → (p : LoopPool) × (start f (set_thread_num n (init base)) ≡ some p)
      × ((q : LoopPool) × (serve k p ≡ some (f (k % n), q)))
unfolding start
serve-start f n base k h =
    let (q, e) =
      serve-Serves f n h k 0
        (record (set_thread_num n (init base)) { started = true; loops = launch f 0 n [] })
        (record { started = refl; loops = launch-started f 0 n []; next = sym (zero-mod n) }) in
    (
      record (set_thread_num n (init base)) { started = true; loops = launch f 0 n [] },
      refl,
      (q, e ∙ ap (λ m. some (f (m % n), q)) (omega arith)),
    )
