-- ===== src/EyBond/Manager.antt =====
-- `EybondManager`: the sessions of a listener, the routing by PN, and the requests that wait for an
-- answer. A session object is a number into `store`, so that `_sessions`, `_sessions_by_pn` and the
-- handler of the connection share it; a future is a number into `futures`.
use home_assistant_dess_moni.Base.{
  ℕ, suc, ◌+◌, ◌%◌, ◌^◌, Bool, true, false, not, ◌&&◌, ◌||◌, List, [], ◌∷◌, Option, none, some,
  if◌then◌else◌, eqb, keep_if, nat_eq, list_eq,
}
use home_assistant_dess_moni.Base.Text.{Text}
use home_assistant_dess_moni.Base.Dict.{Dict, lookup, lookup_or, insert, erase, contains}
use home_assistant_dess_moni.EyBond.Registry.{
  Registry, connected, record_seen, mark_disconnected, enabled_pns,
}

pub record Session : Type 0 where
  pub peer : Text
  pub pn : Text
  pub tid : ℕ
  pub pending : Dict ℕ ℕ

-- `_Session(...)`
abbrev pub new_session : Text → Session
new_session peer = record { peer = peer; pn = []; tid = 0; pending = [] }

pub data Future : Type 0 where
  waiting : Future
  answered : List ℕ → Future
  aborted : Future

-- `running` holds the sessions whose `_handle_session` has not ended, and `next_id` numbers the objects.
pub record Manager : Type 0 where
  pub store : Dict ℕ Session
  pub next_id : ℕ
  pub running : List ℕ
  pub sessions : List ℕ
  pub by_pn : Dict Text ℕ
  pub ready : Dict Text Bool
  pub any_ready : Bool
  pub registry : Registry
  pub futures : Dict ℕ Future

-- `EybondManager(...)`
abbrev pub new_manager : Registry → Manager
new_manager registry = record {
  store = [];
  next_id = 0;
  running = [];
  sessions = [];
  by_pn = [];
  ready = [];
  any_ready = false;
  registry = registry;
  futures = [];
}

abbrev pub session : Manager → ℕ → Session
session m sid = lookup_or sid (new_session []) m.store

-- `sid in ids`
abbrev pub is_in : ℕ → List ℕ → Bool
is_in sid [] = false
is_in sid (x ∷ ids) = eqb x sid || is_in sid ids

-- `ids.discard(sid)`
abbrev pub discard : ℕ → List ℕ → List ℕ
discard sid = keep_if (λ x. not (eqb x sid))

abbrev pub is_empty {ℓ} : {A : Type ℓ} → List A → Bool
is_empty [] = true
is_empty (x ∷ xs) = false

-- `(self._tid + 1) & 0xFFFF`
unfoldable pub next_tid : ℕ → ℕ
next_tid tid = (tid + 1) % 2 ^ 16

abbrev pub or_new_event : Text → Dict Text Bool → Option Bool → Dict Text Bool
or_new_event pn ready none = insert pn false ready
or_new_event pn ready (some event) = ready

-- `_ready_event_for`, for its effect on the events.
unfoldable pub ready_event_for : Text → Dict Text Bool → Dict Text Bool
ready_event_for pn ready = or_new_event pn ready (lookup pn ready)

abbrev pub clear_known : Text → Dict Text Bool → Option Bool → Dict Text Bool
clear_known pn ready none = ready
clear_known pn ready (some event) = insert pn false ready

-- `ev.clear()`, where the event exists.
abbrev pub clear_event : Text → Dict Text Bool → Dict Text Bool
clear_event pn ready = clear_known pn ready (lookup pn ready)

-- `fut.set_exception(...)`, for each future that is not done.
abbrev pub abort : Option Future → Future
abort none = aborted
abort (some waiting) = aborted
abort (some (answered payload)) = answered payload
abort (some aborted) = aborted

abbrev pub abort_all : Dict ℕ ℕ → Dict ℕ Future → Dict ℕ Future
abort_all [] futures = futures
abort_all ((tid, fut) ∷ pending) futures =
    abort_all pending (insert fut (abort (lookup fut futures)) futures)

-- `self._sessions_by_pn.get(sess.pn) is sess`, with `sess.pn` not empty
abbrev pub is_mapped : Manager → ℕ → Text → Bool
is_mapped m sid pn =
    not (is_empty pn) && elim (lookup pn m.by_pn) [ none ↦ false | some s ↦ eqb s sid ]

unfoldable pub drop_session : Manager → ℕ → Manager
drop_session m sid =
    let sess = session m sid in
    let sessions = discard sid m.sessions in
    let mapped = is_mapped m sid sess.pn in
    record m {
      sessions = sessions;
      by_pn = if mapped then erase sess.pn m.by_pn else m.by_pn;
      ready = if mapped then clear_event sess.pn m.ready else m.ready;
      futures = abort_all sess.pending m.futures;
      store = insert sid (record sess { pending = [] }) m.store;
      any_ready = if is_empty sessions then false else m.any_ready;
    }

-- `_handle_session` up to its loop.
unfoldable pub connect : Manager → Text → Manager
connect m peer = record m {
  store = insert m.next_id (new_session peer) m.store;
  next_id = suc m.next_id;
  running = m.next_id ∷ m.running;
  sessions = m.next_id ∷ m.sessions;
  any_ready = true;
}

-- `old`, the session that is bound to the PN, is dropped unless it is this one.
abbrev pub replace : Manager → ℕ → Option ℕ → Manager
replace m sid none = m
replace m sid (some old) = if eqb old sid then m else drop_session m old

abbrev pub claim : Text → ℕ → Manager → Manager
claim pn sid m = record m {
  by_pn = insert pn sid m.by_pn;
  ready = insert pn true (ready_event_for pn m.ready);
}

abbrev pub set_pn : ℕ → Text → Manager → Manager
set_pn sid pn m = record m { store = insert sid (record (session m sid) { pn = pn }) m.store }

abbrev pub seen_at : Text → Text → Text → Manager → Manager
seen_at now pn peer m = record m { registry = record_seen now pn peer connected m.registry }

-- The branch FC_HEARTBEAT, with the PN that the payload carries.
unfoldable pub on_heartbeat : Text → Manager → ℕ → Text → Manager
on_heartbeat now m sid pn =
    let sess = session m sid in
    let named = set_pn sid pn m in
    if not (is_empty pn) && is_empty sess.pn
    then seen_at now pn sess.peer (claim pn sid (replace named sid (lookup pn named.by_pn)))
    else if is_empty sess.pn
    then m
    else seen_at now sess.pn sess.peer m

-- `fut.set_result(payload)`, where the future is not done.
abbrev pub resolve : List ℕ → Option Future → Future
resolve payload none = answered payload
resolve payload (some waiting) = answered payload
resolve payload (some (answered old)) = answered old
resolve payload (some aborted) = aborted

-- The branch FC_FORWARD2DEVICE.
unfoldable pub on_forward : Manager → ℕ → ℕ → List ℕ → Manager
on_forward m sid tid payload =
    let sess = session m sid in
    let popped = insert sid (record sess { pending = erase tid sess.pending }) m.store in
    elim (lookup tid sess.pending) [
      | none ↦ record m { store = popped }
      | some fut ↦ record m {
        store = popped;
        futures = insert fut (resolve payload (lookup fut m.futures)) m.futures;
      }
    ]

-- The `finally` of `_handle_session`.
unfoldable pub disconnect : Text → Manager → ℕ → Manager
disconnect now m sid =
    let dropped = drop_session m sid in
    let pn = (session m sid).pn in
    let ended = record dropped { running = discard sid m.running } in
    if not (is_empty pn) && not (contains pn dropped.by_pn)
    then record ended { registry = mark_disconnected now pn m.registry }
    else ended

-- `send_frame` up to the write: the transaction number is taken and `fut`, a new future, waits for it.
unfoldable pub begin_send : Manager → ℕ → ℕ → Manager
begin_send m sid fut =
    let sess = session m sid in
    let tid = next_tid sess.tid in
    record m {
      store = insert sid (record sess { tid = tid; pending = insert tid fut sess.pending }) m.store;
      futures = insert fut waiting m.futures;
    }

-- `sess.pending.pop(tid, None)`, after a failed write or a timeout.
unfoldable pub give_up_send : Manager → ℕ → ℕ → Manager
give_up_send m sid tid =
    let sess = session m sid in
    record m { store = insert sid (record sess { pending = erase tid sess.pending }) m.store }

-- A keepalive also takes a transaction number.
unfoldable pub heartbeat_tid : Manager → ℕ → Manager
heartbeat_tid m sid =
    let sess = session m sid in
    record m { store = insert sid (record sess { tid = next_tid sess.tid }) m.store }

-- The session, where exactly one is connected.
unfoldable pub pnless_target : Manager → Option ℕ
pnless_target m = elim m.sessions as (λ _. Option ℕ) [
  | [] ↦ none
  | sid ∷ more ↦ if is_empty more then some sid else none
]

-- What `_wait_for_session` does at once: a session, none to be had, or a wait for the event.
pub data Target : Type 0 where
  to_session : ℕ → Target
  no_target : Target
  wait_pn : Text → Target
  wait_any : Target

abbrev pub at_once : Option ℕ → Target
at_once none = no_target
at_once (some sid) = to_session sid

unfoldable pub find_session : Manager → Text → Target × Manager
find_session m [] = (if is_empty m.sessions then wait_any else at_once (pnless_target m), m)
find_session m (c ∷ pn) = elim (lookup (c ∷ pn) m.by_pn) [
  | some sid ↦ (to_session sid, m)
  | none ↦ (wait_pn (c ∷ pn), record m { ready = ready_event_for (c ∷ pn) m.ready })
]

-- After the wait, in the state of that moment.
unfoldable pub after_wait : Manager → Text → Option ℕ
after_wait m [] = pnless_target m
after_wait m (c ∷ pn) = lookup (c ∷ pn) m.by_pn

-- `_should_announce`; `forced` says that a forced rediscovery is still running.
unfoldable pub should_announce : Bool → Manager → Bool
should_announce forced m =
    let expected = enabled_pns m.registry in
    let missing = keep_if (λ pn. not (contains pn m.by_pn)) expected in
    if forced then true else if is_empty expected then is_empty m.by_pn else not (is_empty missing)

-- `shutdown`, on the state: every session is dropped and everything is cleared.
abbrev pub drop_all : List ℕ → Manager → Manager
drop_all [] m = m
drop_all (sid ∷ sids) m = drop_all sids (drop_session m sid)

unfoldable pub shutdown : Manager → Manager
shutdown m = record (drop_all m.sessions m) {
  sessions = [];
  by_pn = [];
  ready = [];
  any_ready = false;
}
