-- ===== src/Bus/Lanes.antt =====
-- The queue of a bus implements two lanes, of which that of the users has the right of way.
use home_assistant_dess_moni.Base.{
  ℕ, suc, ◌≡◌, refl, ap, ◌∙◌, Bool, true, false, List, [], ◌∷◌, ◌++◌, Option, none, some, map,
  if◌then◌else◌,
}
use home_assistant_dess_moni.Bus.Queue.{
  Entry, CommandQueue, new_queue, priority_user, priority_poll, enqueue, get_next,
}
use home_assistant_dess_moni.Bus.Order.{Waits, later, with_last, put_user, put_poll, map-append}

-- The commands that wait, those of users and those of polls.
pub record Lanes : Type 0 where
  pub users : List ℕ
  pub polls : List ℕ

-- What may happen to a queue: a command comes, of a user or not, or the worker is free.
pub data Event : Type 0 where
  comes : Bool → ℕ → Event
  takes : Event

abbrev pub join_lane : Lanes → Bool → ℕ → Lanes
join_lane l true fn = record l { users = l.users ++ fn ∷ [] }
join_lane l false fn = record l { polls = l.polls ++ fn ∷ [] }

abbrev pub from_polls : List ℕ → Option (ℕ × Lanes)
from_polls [] = none
from_polls (fn ∷ polls) = some (fn, record { users = []; polls = polls })

abbrev pub take_lane : List ℕ → List ℕ → Option (ℕ × Lanes)
take_lane [] polls = from_polls polls
take_lane (fn ∷ users) polls = some (fn, record { users = users; polls = polls })

-- What the worker gets each time that it is free, `none` where it has to wait.
unfoldable pub lanes_run : Lanes → List Event → List (Option ℕ)
lanes_run l [] = []
lanes_run l (comes by_user fn ∷ events) = lanes_run (join_lane l by_user fn) events
lanes_run l (takes ∷ events) = elim (take_lane l.users l.polls) [
  | none ↦ none ∷ lanes_run l events
  | some (fn, rest) ↦ some fn ∷ lanes_run rest events
]

-- The same of the queue.
unfoldable pub queue_run : CommandQueue → List Event → List (Option ℕ)
queue_run q [] = []
queue_run q (comes by_user fn ∷ events) =
    queue_run (enqueue q (if by_user then priority_user else priority_poll) fn) events
queue_run q (takes ∷ events) = elim (get_next q) [
  | none ↦ none ∷ queue_run q events
  | some (e, rest) ↦ some e.fn ∷ queue_run rest events
]

abbrev fns : List Entry → List ℕ
fns entries = map (λ e. e.fn) entries

abbrev queue_of : List Entry → List Entry → ℕ → CommandQueue
queue_of users polls n = record { queue = users ++ polls; next_seq = n }

abbrev lanes_of : List Entry → List Entry → Lanes
lanes_of users polls = record { users = fns users; polls = fns polls }

run_from :
    (events : List Event) (users polls : List Entry) (n : ℕ)
    → Waits n priority_user users
    → Waits n priority_poll polls
    → queue_run (queue_of users polls n) events ≡ lanes_run (lanes_of users polls) events
unfolding queue_run lanes_run enqueue get_next
run_from [] users polls n h k = refl
run_from (comes true fn ∷ events) users polls n h k =
    let e : Entry = record { priority = priority_user; seq = n; fn = fn } in
    ap (λ (q : List Entry). queue_run (record { queue = q; next_seq = suc n }) events)
      (put_user n fn users polls h k)
    ∙ run_from events (users ++ (e ∷ [])) polls (suc n) (with_last n 0 fn users h)
        (later n 1 polls k)
    ∙ ap (λ (us : List ℕ). lanes_run (record { users = us; polls = fns polls }) events)
        (map-append users (e ∷ []))
run_from (comes false fn ∷ events) users polls n h k =
    let e : Entry = record { priority = priority_poll; seq = n; fn = fn } in
    ap (λ (q : List Entry). queue_run (record { queue = q; next_seq = suc n }) events)
      (put_poll n fn users polls h k)
    ∙ run_from events users (polls ++ (e ∷ [])) (suc n) (later n 0 users h)
        (with_last n 1 fn polls k)
    ∙ ap (λ (ps : List ℕ). lanes_run (record { users = fns users; polls = ps }) events)
        (map-append polls (e ∷ []))
run_from (takes ∷ events) [] [] n h k =
    ap (λ (t : List (Option ℕ)). none ∷ t) (run_from events [] [] n h k)
run_from (takes ∷ events) [] (e ∷ polls) n h (_, k) =
    ap (λ (t : List (Option ℕ)). some e.fn ∷ t) (run_from events [] polls n h k)
run_from (takes ∷ events) (e ∷ users) polls n (_, h) k =
    ap (λ (t : List (Option ℕ)). some e.fn ∷ t) (run_from events users polls n h k)

-- However commands come and the worker takes them, a queue that starts empty hands out what two
-- lanes would: each lane in the order of arrival, and a poll only where no user waits.
pub queue-lanes :
    (events : List Event)
    → queue_run new_queue events ≡ lanes_run (record { users = []; polls = [] }) events
queue-lanes events = run_from events [] [] 0 tt tt
