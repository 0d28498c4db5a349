-- ===== src/Bus/Order.antt =====
-- The order in which the worker of a queue takes the commands.
use home_assistant_dess_moni.Base.{
  ℕ, zero, suc, ◌<◌, ◌≡◌, refl, ap, ap₂, sym, ◌∙◌, arith, Bool, true, false, not, List, [], ◌∷◌,
  ◌++◌, none, some, map, keep_if, if◌then◌else◌, All, length, append-nil, append_assoc,
}
use home_assistant_dess_moni.Bus.Queue.{
  Entry, CommandQueue, new_queue, priority_user, priority_poll, goes_first, put, enqueue, get_next,
}

-- A request is a command, and whether a user made it.
abbrev pub Request : Type 0
Request = Bool × ℕ

abbrev pub enqueue_all : CommandQueue → List Request → CommandQueue
enqueue_all q [] = q
enqueue_all q ((by_user, fn) ∷ requests) =
    enqueue_all (enqueue q (if by_user then priority_user else priority_poll) fn) requests

-- What the worker takes until nothing waits; `fuel` bounds the number of commands.
unfoldable pub drain : ℕ → CommandQueue → List ℕ
unfolding get_next
drain zero q = []
drain (suc fuel) q = elim (get_next q) as (λ _. List ℕ) [
  | none ↦ []
  | some (e, rest) ↦ e.fn ∷ drain fuel rest
]

abbrev pub made_by_user : List Request → List ℕ
made_by_user requests = map (λ r. r.1) (keep_if (λ r. r.0) requests)

abbrev pub made_by_poll : List Request → List ℕ
made_by_poll requests = map (λ r. r.1) (keep_if (λ r. not r.0) requests)

-- What waits: commands of users and then polls, each numbered below `n`.
abbrev pub Waits : ℕ → ℕ → List Entry → Type 0
Waits n p entries = All (λ e. (e.priority ≡ p) × (e.seq < n)) entries

put-last :
    (e : Entry) (queue : List Entry)
    → All (λ f. goes_first e f ≡ false) queue
    → put e queue ≡ queue ++ (e ∷ [])
unfolding put
put-last e [] h = refl
put-last e (f ∷ queue) (h, hs) = rw (put, h) (ap (λ (q : List Entry). f ∷ q) (put-last e queue hs))

put-between :
    (e : Entry) (users polls : List Entry)
    → All (λ f. goes_first e f ≡ false) users
    → All (λ f. goes_first e f ≡ true) polls
    → put e (users ++ polls) ≡ users ++ (e ∷ polls)
unfolding put
put-between e [] [] h k = refl
put-between e [] (f ∷ polls) h (k, ks) = rw (put, k) refl
put-between e (f ∷ users) polls (h, hs) k =
    rw (put, h) (ap (λ (q : List Entry). f ∷ q) (put-between e users polls hs k))

All-map :
    (P Q : Entry → Type 0) (entries : List Entry)
    → ((e : Entry) → P e → Q e)
    → All P entries
    → All Q entries
All-map P Q [] f h = tt
All-map P Q (e ∷ entries) f (h, hs) = (f e h, All-map P Q entries f hs)

All-append : (P : Entry → Type 0) (xs ys : List Entry) → All P xs → All P ys → All P (xs ++ ys)
All-append P [] ys h k = k
All-append P (x ∷ xs) ys (h, hs) k = (h, All-append P xs ys hs k)

pub map-append :
    (xs ys : List Entry) → map (λ e. e.fn) (xs ++ ys) ≡ map (λ e. e.fn) xs ++ map (λ e. e.fn) ys
map-append [] ys = refl
map-append (x ∷ xs) ys = ap (λ (t : List ℕ). x.fn ∷ t) (map-append xs ys)

drain-queue : (q : CommandQueue) → drain (length q.queue) q ≡ map (λ e. e.fn) q.queue
unfolding drain get_next
drain-queue q = go q.queue q.next_seq
  where
    go :
        (entries : List Entry) (n : ℕ)
        → drain (length entries) (record { queue = entries; next_seq = n })
          ≡ map (λ e. e.fn) entries
    go [] n = refl
    go (e ∷ entries) n = ap (λ (t : List ℕ). e.fn ∷ t) (go entries n)

pub later : (n p : ℕ) (entries : List Entry) → Waits n p entries → Waits (suc n) p entries
later n p entries h =
    All-map (λ e. (e.priority ≡ p) × (e.seq < n)) (λ e. (e.priority ≡ p) × (e.seq < suc n)) entries
      (λ e k. (k.0, omega arith)) h

pub with_last :
    (n p fn : ℕ) (entries : List Entry)
    → Waits n p entries
    → Waits (suc n) p (entries ++ (record { priority = p; seq = n; fn = fn } ∷ []))
with_last n p fn entries h =
    All-append (λ e. (e.priority ≡ p) × (e.seq < suc n)) entries
      (record { priority = p; seq = n; fn = fn } ∷ []) (later n p entries h)
      ((refl, omega arith), tt)

pub put_user :
    (n fn : ℕ) (users polls : List Entry)
    → Waits n priority_user users
    → Waits n priority_poll polls
    → let e : Entry = record { priority = priority_user; seq = n; fn = fn } in
      put e (users ++ polls) ≡ (users ++ (e ∷ [])) ++ polls
put_user n fn users polls h k =
    let e : Entry = record { priority = priority_user; seq = n; fn = fn } in
    put-between e users polls
      (All-map (λ f. (f.priority ≡ 0) × (f.seq < n)) (λ f. goes_first e f ≡ false) users
        (λ f p. ground arith) h)
      (All-map (λ f. (f.priority ≡ 1) × (f.seq < n)) (λ f. goes_first e f ≡ true) polls
        (λ f p. ground arith) k)
    ∙ sym (append_assoc users (e ∷ []) polls)

pub put_poll :
    (n fn : ℕ) (users polls : List Entry)
    → Waits n priority_user users
    → Waits n priority_poll polls
    → let e : Entry = record { priority = priority_poll; seq = n; fn = fn } in
      put e (users ++ polls) ≡ users ++ (polls ++ (e ∷ []))
put_poll n fn users polls h k =
    let e : Entry = record { priority = priority_poll; seq = n; fn = fn } in
    put-last e (users ++ polls) (
      All-append (λ f. goes_first e f ≡ false) users polls
        (All-map (λ f. (f.priority ≡ 0) × (f.seq < n)) (λ f. goes_first e f ≡ false) users
          (λ f p. ground arith) h)
        (All-map (λ f. (f.priority ≡ 1) × (f.seq < n)) (λ f. goes_first e f ≡ false) polls
          (λ f p. ground arith) k))
    ∙ append_assoc users polls (e ∷ [])

order_from :
    (requests : List Request) (n : ℕ) (users polls : List Entry)
    → Waits n priority_user users
    → Waits n priority_poll polls
    → map (λ e. e.fn) (enqueue_all (record { queue = users ++ polls; next_seq = n }) requests).queue
      ≡ (map (λ e. e.fn) users ++ made_by_user requests)
        ++ (map (λ e. e.fn) polls ++ made_by_poll requests)
unfolding enqueue
order_from [] n users polls h k =
    map-append users polls
    ∙ ap₂ (λ (s : List ℕ) (t : List ℕ). s ++ t) (sym (append-nil (map (λ (e : Entry). e.fn) users)))
        (sym (append-nil (map (λ (e : Entry). e.fn) polls)))
order_from ((true, fn) ∷ requests) n users polls h k =
    let e : Entry = record { priority = priority_user; seq = n; fn = fn } in
    ap
      (λ (q : List Entry).
        map (λ (f : Entry). f.fn)
          (enqueue_all (record { queue = q; next_seq = suc n }) requests).queue)
      (put_user n fn users polls h k)
    ∙ order_from requests (suc n) (users ++ (e ∷ [])) polls (with_last n 0 fn users h)
        (later n 1 polls k)
    ∙ ap (λ (t : List ℕ). t ++ (map (λ (f : Entry). f.fn) polls ++ made_by_poll requests))
        (ap (λ (t : List ℕ). t ++ made_by_user requests) (map-append users (e ∷ []))
          ∙ append_assoc (map (λ (f : Entry). f.fn) users) (fn ∷ []) (made_by_user requests))
order_from ((false, fn) ∷ requests) n users polls h k =
    let e : Entry = record { priority = priority_poll; seq = n; fn = fn } in
    ap
      (λ (q : List Entry).
        map (λ (f : Entry). f.fn)
          (enqueue_all (record { queue = q; next_seq = suc n }) requests).queue)
      (put_poll n fn users polls h k)
    ∙ order_from requests (suc n) users (polls ++ (e ∷ [])) (later n 0 users h)
        (with_last n 1 fn polls k)
    ∙ ap (λ (t : List ℕ). (map (λ (f : Entry). f.fn) users ++ made_by_user requests) ++ t)
        (ap (λ (t : List ℕ). t ++ made_by_poll requests) (map-append polls (e ∷ []))
          ∙ append_assoc (map (λ (f : Entry). f.fn) polls) (fn ∷ []) (made_by_poll requests))

-- Whatever waits on an idle bus is taken completely, the commands of users before all polls, and each
-- kind in the order of its arrival.
pub drain-enqueue_all :
    (requests : List Request)
    → let q = enqueue_all new_queue requests in
      drain (length q.queue) q ≡ made_by_user requests ++ made_by_poll requests
drain-enqueue_all requests =
    drain-queue (enqueue_all new_queue requests) ∙ order_from requests 0 [] [] tt tt
