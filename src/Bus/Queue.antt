-- ===== src/Bus/Queue.antt =====
-- `CommandQueue` without its worker task: what waits, and which command the worker takes next.
-- The tuples of the `PriorityQueue` compare by priority and then by `seq`, which is never twice the
-- same, so that the command itself is not compared. The queue is kept in that order.
use home_assistant_dess_moni.Base.{
  ℕ, suc, Bool, ◌&&◌, ◌||◌, List, [], ◌∷◌, Option, none, some, ltb, eqb, if◌then◌else◌, string_eq,
  list_eq, nat_eq,
}
use home_assistant_dess_moni.Base.Text.{Text, codes, starts_with}

abbrev pub priority_user : ℕ
priority_user = 0

abbrev pub priority_poll : ℕ
priority_poll = 1

-- A command that waits: `fn` is its number.
pub record Entry : Type 0 where
  pub priority : ℕ
  pub seq : ℕ
  pub fn : ℕ

pub record CommandQueue : Type 0 where
  pub queue : List Entry
  pub next_seq : ℕ

abbrev pub new_queue : CommandQueue
new_queue = record { queue = []; next_seq = 0 }

-- The order of the tuples.
abbrev pub goes_first : Entry → Entry → Bool
goes_first a b = ltb a.priority b.priority || eqb a.priority b.priority && ltb a.seq b.seq

unfoldable pub put : Entry → List Entry → List Entry
put e [] = e ∷ []
put e (f ∷ queue) = let rest = put e queue in if goes_first e f then e ∷ f ∷ queue else f ∷ rest

unfoldable pub enqueue : CommandQueue → ℕ → ℕ → CommandQueue
enqueue q priority fn = record {
  queue = put (record { priority = priority; seq = q.next_seq; fn = fn }) q.queue;
  next_seq = suc q.next_seq;
}

-- `self._queue.get()`, `none` where the worker has to wait.
unfoldable pub get_next : CommandQueue → Option (Entry × CommandQueue)
get_next q = elim q.queue as (λ _. Option (Entry × CommandQueue)) [
  | [] ↦ none
  | e ∷ rest ↦ some (e, record q { queue = rest })
]

-- `is_tcp_transport`
unfoldable pub is_tcp_transport : Text → Bool
is_tcp_transport uri =
    starts_with uri (codes "tcp://")
    || starts_with uri (codes "pi18://")
    || starts_with uri (codes "modbus://")
    || starts_with uri (codes "agent://")

-- Whether `run_on_bus` runs the command at once, past the queue.
unfoldable pub bypasses : Text → ℕ → Bool → Bool
unfolding is_tcp_transport
bypasses uri priority concurrent_writes =
    starts_with uri (codes "eybond")
    || concurrent_writes && eqb priority priority_user && is_tcp_transport uri
