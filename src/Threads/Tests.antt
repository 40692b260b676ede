-- ===== src/Threads/Tests.antt =====
-- The theorems of the threads at concrete runs.
use rfcs.Common.{◌++◌, ℕ, ◌+◌, ◌≤◌, ◌≡◌, refl, [], ◌∷◌, some, arith, length, true}
use rfcs.Threads.Loops
use rfcs.Threads.Loops.{LoopPool, serve, serve-start}
use rfcs.Threads.Queue
use rfcs.Threads.Queue.{BoundedBlockingQueue, put, push_back, Runs-fifo}
use rfcs.Threads.Workers
use rfcs.Threads.Workers.{ThreadPool, Bounded}

abbrev loop_of : ℕ → ℕ
loop_of i = i + 10

serve-start_example :
    (p : LoopPool) × (Loops.start loop_of (Loops.set_thread_num 2 (Loops.init 5)) ≡ some p)
    × ((q : LoopPool) × (serve 3 p ≡ some (11, q)))
serve-start_example = serve-start loop_of 2 5 3 (omega arith)

-- Two items through a queue of two.
abbrev two : BoundedBlockingQueue
two = record (Queue.init 2) { items = 7 ∷ 8 ∷ [] }

abbrev one : BoundedBlockingQueue
one = record (Queue.init 2) { items = 8 ∷ [] }

put_first : put 7 (Queue.init 2) ≡ Queue.ends tt (record (Queue.init 2) { items = 7 ∷ [] })
unfolding put push_back
put_first = refl

put_second : put 8 (record (Queue.init 2) { items = 7 ∷ [] }) ≡ Queue.ends tt two
unfolding put push_back
put_second = refl

take_seven : Queue.take two ≡ Queue.ends 7 one
unfolding Queue.take
take_seven = refl

traffic : Queue.Runs 2 (7 ∷ 8 ∷ []) (7 ∷ []) one
traffic = Queue.takes (Queue.puts 8 (Queue.puts 7 Queue.begins put_first) put_second) take_seven

Runs-fifo_example :
    ((7 ∷ []) ++ one.items ≡ 7 ∷ 8 ∷ []) × (one.capacity ≡ 2) × (length one.items ≤ 2)
Runs-fifo_example = Runs-fifo 2 (7 ∷ 8 ∷ []) (7 ∷ []) one traffic

-- A pool of one worker that queues one task and takes it.
abbrev started : ThreadPool
started = record (Workers.set_max_queue_size 3 Workers.init) { threads = 1; running = true }

abbrev holds_task : ThreadPool
holds_task = record started { queue = 4 ∷ [] }

started-run : Workers.start 1 (Workers.set_max_queue_size 3 Workers.init) ≡ some started
unfolding Workers.start
started-run = refl

task_queued : Workers.run 4 started ≡ Workers.queues holds_task
unfolding Workers.run
task_queued = refl

work : Workers.Runs 3 (4 ∷ []) [] holds_task
work = Workers.puts 4 (Workers.starts 1 Workers.begins started-run) task_queued

Runs-in_order_example :
    ([] ++ holds_task.queue ≡ 4 ∷ []) × (holds_task.max_queue_size ≡ 3) × Bounded 3 (4 ∷ [])
Runs-in_order_example = Workers.Runs-in_order 3 (4 ∷ []) [] holds_task work
