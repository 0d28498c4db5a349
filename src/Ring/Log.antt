-- ===== src/Ring/Log.antt =====
-- The two buffers as state. `deque(maxlen=n)` drops its oldest item when it is full.
use home_assistant_dess_moni.Base.{
  ℕ, ◌-◌, Bool, true, false, List, [], ◌∷◌, ◌++◌, length, drop, eqb, ltb, if◌then◌else◌, list_eq,
  nat_eq, keep_if, not, ◌||◌,
}
use home_assistant_dess_moni.Base.Text.{Text}
use home_assistant_dess_moni.Base.Dict.{Dict, lookup_or, insert}

-- `_MAX_FRAMES_PER_COMMAND`
abbrev pub max_frames_per_command : ℕ
max_frames_per_command = 20

-- `_RING_MAX`
abbrev pub ring_max : ℕ
ring_max = 1000

-- `buf.append(x)`, of the standard library's deque.
unfoldable pub append_bounded {ℓ} : {A : Type ℓ} → ℕ → List A → A → List A
append_bounded maxlen buf x = let full = buf ++ (x ∷ []) in drop (length full - maxlen) full

-- One entry of the log: the time, the bytes and the verdict on the checksum. The texts that the source
-- keeps beside them are made of the bytes.
pub record FrameRecord : Type 0 where
  pub timestamp : Text
  pub raw : List ℕ
  pub crc_valid : Bool

abbrev pub FrameLog : Type 0
FrameLog = Dict Text (List FrameRecord)

-- `record`
unfoldable pub log_frame : FrameLog → Text → FrameRecord → FrameLog
unfolding append_bounded
log_frame frames command entry =
    insert command (append_bounded max_frames_per_command (lookup_or command [] frames) entry)
      frames

-- A queue of a subscriber, full at its capacity.
pub record Subscriber : Type 0 where
  pub queue_id : ℕ
  pub capacity : ℕ
  pub items : List ℕ

-- Events are numbers here.
pub record DiagHub : Type 0 where
  pub ring : List ℕ
  pub subscribers : List Subscriber

-- `bool(_subscribers)`
unfoldable pub active : DiagHub → Bool
active hub = elim hub.subscribers [ [] ↦ false | s ∷ more ↦ true ]

-- `q.put_nowait(event)`, with the exception of a full queue caught.
unfoldable pub put_nowait : ℕ → Subscriber → Subscriber
put_nowait event s =
    if ltb (length s.items) s.capacity then record s { items = s.items ++ (event ∷ []) } else s

unfoldable pub fan_out : ℕ → List Subscriber → List Subscriber
unfolding put_nowait
fan_out event [] = []
fan_out event (s ∷ subscribers) = put_nowait event s ∷ fan_out event subscribers

unfoldable pub publish : DiagHub → ℕ → DiagHub
unfolding active fan_out append_bounded
publish hub event =
    if active hub
    then record {
      ring = append_bounded ring_max hub.ring event;
      subscribers = fan_out event hub.subscribers;
    }
    else hub

-- `_subscribers.add(queue)`: the set has a queue once.
abbrev pub is_subscribed : ℕ → List Subscriber → Bool
is_subscribed q [] = false
is_subscribed q (s ∷ subscribers) = eqb s.queue_id q || is_subscribed q subscribers

unfoldable pub subscribe : DiagHub → Subscriber → DiagHub
subscribe hub s =
    if is_subscribed s.queue_id hub.subscribers
    then hub
    else record hub { subscribers = s ∷ hub.subscribers }

unfoldable pub unsubscribe : DiagHub → ℕ → DiagHub
unsubscribe hub q = record hub {
  subscribers = keep_if (λ s. not (eqb s.queue_id q)) hub.subscribers;
}

-- `recent`: `items[-limit:]`, or all of them where the limit is 0 or None.
unfoldable pub recent : DiagHub → ℕ → List ℕ
recent hub limit = if eqb limit 0 then hub.ring else drop (length hub.ring - limit) hub.ring

abbrev pub cleared_hub : DiagHub
cleared_hub = record { ring = []; subscribers = [] }
