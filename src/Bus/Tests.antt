-- ===== src/Bus/Tests.antt =====
-- Runs of the queue.
use home_assistant_dess_moni.Base.{ltb, list_eq, nat_eq, ◌≡◌, refl, true, false, List, [], ◌∷◌}
use home_assistant_dess_moni.Base.Text.{codes}
use home_assistant_dess_moni.Base.Dict.{lookup_or, contains}
use home_assistant_dess_moni.Bus.Registry.{new_registry}
use home_assistant_dess_moni.Bus.Owners.{owners}
use home_assistant_dess_moni.Bus.Counts.{KeyOp, use_key, unload, run_ops, refcount-owners}
use home_assistant_dess_moni.Bus.Queue.{new_queue, enqueue, put, get_next}
use home_assistant_dess_moni.Base.{some, none}
use home_assistant_dess_moni.Bus.Lanes.{Event, comes, takes, queue_run, lanes_run, queue-lanes}
use home_assistant_dess_moni.Bus.Order.{Request, enqueue_all, drain}

-- Two polls, a write of the user, a poll, and a second write.
abbrev five_requests : List Request
five_requests = (false, 1) ∷ (false, 2) ∷ (true, 3) ∷ (false, 4) ∷ (true, 5) ∷ []

drain_run : drain 5 (enqueue_all new_queue five_requests) ≡ 3 ∷ 5 ∷ 1 ∷ 2 ∷ 4 ∷ []
unfolding drain enqueue put get_next
drain_run = refl

-- Two entries share a transport, and the first is unloaded.
abbrev shared : List KeyOp
shared =
    use_key (codes "a") (codes "tcp:x")
    ∷ use_key (codes "b") (codes "tcp:x")
    ∷ unload (codes "a")
    ∷ []

refcount-owners_example :
    (lookup_or (codes "tcp:x") 0 (run_ops shared new_registry).refcount
      ≡ owners (codes "tcp:x") (run_ops shared new_registry).entry_keys)
    × (contains (codes "tcp:x") (run_ops shared new_registry).queues
        ≡ ltb 0 (owners (codes "tcp:x") (run_ops shared new_registry).entry_keys))
refcount-owners_example = refcount-owners shared (codes "tcp:x")

-- Two polls come, the worker takes one, and a user comes in front of the other.
abbrev interleaved : List Event
interleaved = comes false 1 ∷ comes false 2 ∷ takes ∷ comes true 3 ∷ takes ∷ takes ∷ takes ∷ []

lanes_run_lem : queue_run new_queue interleaved ≡ some 1 ∷ some 3 ∷ some 2 ∷ none ∷ []
unfolding queue_run enqueue put get_next
lanes_run_lem = refl

queue-lanes_example :
    queue_run new_queue interleaved ≡ lanes_run (record { users = []; polls = [] }) interleaved
queue-lanes_example = queue-lanes interleaved
