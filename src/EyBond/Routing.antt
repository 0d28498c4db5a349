-- ===== src/EyBond/Routing.antt =====
-- The routing of the manager by PN: what holds between its maps in every state that it can reach.
use home_assistant_dess_moni.Base.{
  ℕ, ◌<◌, ◌≡◌, refl, ap, ◌∙◌, arith, Bool, true, false, not, ◌&&◌, List, [], ◌∷◌, Option, none,
  some, if◌then◌else◌, eqb, nat_eq, list_eq, ◌==◌, Bool-cases, inl, inr, list_beq_iff,
}
use home_assistant_dess_moni.Base.Text.{Text}
use home_assistant_dess_moni.Base.Dict.{
  Dict, lookup, lookup_or, insert, erase, contains, lookup-insert, lookup-erase, lookup_or-insert,
}
use home_assistant_dess_moni.EyBond.Manager.{
  Manager, new_session, session, is_in, discard, is_empty, ready_event_for, is_mapped, drop_session,
  or_new_event, clear_known,
}

-- A PN leads to a connected session that has this PN.
abbrev pub IsRouted : Manager → Type 0
IsRouted m =
    (pn : Text) (sid : ℕ)
    → lookup pn m.by_pn ≡ some sid
    → (is_in sid m.sessions ≡ true) × ((session m sid).pn ≡ pn) × (is_empty pn ≡ false)

-- The event of a PN is set exactly while the PN has a session, and the common one while there is any.
abbrev pub IsSignalled : Manager → Type 0
IsSignalled m =
    ((pn : Text) → lookup_or pn false m.ready ≡ contains pn m.by_pn)
    × (m.any_ready ≡ not (is_empty m.sessions))

-- Objects are numbered from below.
abbrev pub IsNumbered : Manager → Type 0
IsNumbered m = (sid : ℕ) → is_in sid m.sessions ≡ true → sid < m.next_id

-- A session that a handler still reads from, and that has told no PN, is connected.
abbrev pub IsAttached : Manager → Type 0
IsAttached m =
    (sid : ℕ)
    → is_in sid m.running ≡ true
    → is_empty (session m sid).pn ≡ true
    → is_in sid m.sessions ≡ true

abbrev pub IsConsistent : Manager → Type 0
IsConsistent m = IsRouted m × IsSignalled m × IsNumbered m × IsAttached m

pub is_in-discard :
    (x sid : ℕ) (l : List ℕ) → is_in x (discard sid l) ≡ (is_in x l && not (eqb sid x))
is_in-discard x sid [] = refl
is_in-discard x sid (y ∷ l) = ground (arith, is_in-discard x sid l)

pub text_beq : (a b : Text) → (a == b ≡ true) → a ≡ b
text_beq a b = (list_beq_iff a b).0

or_new_event-lookup :
    (pn q : Text) (ready : Dict Text Bool) (known : Option Bool)
    → lookup pn ready ≡ known
    → lookup_or q false (or_new_event pn ready known) ≡ lookup_or q false ready
or_new_event-lookup pn q ready none e =
    ground (arith, lookup_or-insert pn q false false ready, text_beq pn q)
or_new_event-lookup pn q ready (some event) e = refl

clear_known-lookup :
    (pn q : Text) (ready : Dict Text Bool) (known : Option Bool)
    → lookup pn ready ≡ known
    → lookup_or q false (clear_known pn ready known)
      ≡ (if pn == q then false else lookup_or q false ready)
clear_known-lookup pn q ready none e = ground (arith, text_beq pn q)
clear_known-lookup pn q ready (some event) e =
    ground (arith, lookup_or-insert pn q false false ready)

pub ready_event_for-lookup :
    (pn q : Text) (ready : Dict Text Bool)
    → lookup_or q false (ready_event_for pn ready) ≡ lookup_or q false ready
unfolding ready_event_for
ready_event_for-lookup pn q ready = or_new_event-lookup pn q ready (lookup pn ready) refl

pub contains-insert :
    (k j : Text) (v : ℕ) (d : Dict Text ℕ)
    → contains j (insert k v d) ≡ (if k == j then true else contains j d)
contains-insert k j v d = ground (arith, lookup-insert k j v d)

contains-erase :
    (k j : Text) (d : Dict Text ℕ)
    → contains j (erase k d) ≡ (if k == j then false else contains j d)
contains-erase k j d = ground (arith, lookup-erase k j d)

pub drop-pn : (m : Manager) (sid x : ℕ) → (session (drop_session m sid) x).pn ≡ (session m x).pn
unfolding drop_session
drop-pn m sid x =
    let sess = session m sid in
    ground (arith, lookup_or-insert sid x (new_session []) (record sess { pending = [] }) m.store)

pub drop-sessions :
    (m : Manager) (sid x : ℕ)
    → is_in x (drop_session m sid).sessions ≡ (is_in x m.sessions && not (eqb sid x))
unfolding drop_session
drop-sessions m sid x = is_in-discard x sid m.sessions

-- Dropping a session takes away its own route and no other.
pub drop-lookup :
    (m : Manager) (sid : ℕ) (q : Text)
    → lookup q (drop_session m sid).by_pn ≡ (
        if is_mapped m sid (session m sid).pn && (session m sid).pn == q
        then none
        else lookup q m.by_pn)
unfolding drop_session
drop-lookup m sid q = elim (Bool-cases (is_mapped m sid (session m sid).pn)) [
  | inl e ↦ rw e (lookup-erase (session m sid).pn q m.by_pn)
  | inr e ↦ rw e refl
]

is_mapped-lookup :
    (m : Manager) (sid : ℕ) (pn : Text)
    → is_empty pn ≡ false
    → lookup pn m.by_pn ≡ some sid
    → is_mapped m sid pn ≡ true
is_mapped-lookup m sid pn e h = rw (e, h) (ground arith)

-- What is still routed was routed before, and elsewhere.
pub drop-route :
    (m : Manager) (sid : ℕ) (q : Text) (x : ℕ)
    → IsRouted m
    → lookup q (drop_session m sid).by_pn ≡ some x
    → (lookup q m.by_pn ≡ some x) × (eqb sid x ≡ false)
drop-route m sid q x r h =
    let pn = (session m sid).pn in
    let gone : is_mapped m sid pn && pn == q ≡ false = ground (arith, drop-lookup m sid q) in
    let before : lookup q m.by_pn ≡ some x = ground (arith, drop-lookup m sid q) in
    let (live, named, full) = r q x before in
    (
      before,
      ground (
        arith,
        ap (λ (y : ℕ). (session m y).pn) {x = sid} {y = x},
        is_mapped-lookup m sid q full,
        (list_beq_iff pn q).1,
      ),
    )

pub drop-IsRouted : (m : Manager) (sid : ℕ) → IsRouted m → IsRouted (drop_session m sid)
drop-IsRouted m sid r q x h =
    let (before, other) = drop-route m sid q x r h in
    let (live, named, full) = r q x before in
    (ground (arith, drop-sessions m sid x), drop-pn m sid x ∙ named, full)

pub drop-IsSignalled : (m : Manager) (sid : ℕ) → IsSignalled m → IsSignalled (drop_session m sid)
unfolding drop_session
drop-IsSignalled m sid (events, any) =
    let pn = (session m sid).pn in
    let rest = discard sid m.sessions in
    (
      λ q. elim (Bool-cases (is_mapped m sid pn)) [
        | inl e ↦
            rw
              (
                e,
                clear_known-lookup pn q m.ready (lookup pn m.ready) refl,
                contains-erase pn q m.by_pn,
              )
              (ap (λ (b : Bool). if pn == q then false else b) (events q))
        | inr e ↦ rw e (events q)
      ],
      elim (Bool-cases (is_empty rest)) [
        | inl e ↦ rw e refl
        | inr e ↦ rw e (any ∙ ap not (is_empty-discard sid m.sessions e))
      ],
    )
  where
    is_empty-discard :
        (sid : ℕ) (l : List ℕ) → is_empty (discard sid l) ≡ false → is_empty l ≡ false
    is_empty-discard sid [] h = h
    is_empty-discard sid (x ∷ l) h = refl

pub drop-IsNumbered : (m : Manager) (sid : ℕ) → IsNumbered m → IsNumbered (drop_session m sid)
unfolding drop_session
drop-IsNumbered m sid n x h = n x (ground (arith, drop-sessions m sid x))

pub drop-running : (m : Manager) (sid : ℕ) → (drop_session m sid).running ≡ m.running
unfolding drop_session
drop-running m sid = refl

drop-next_id : (m : Manager) (sid : ℕ) → (drop_session m sid).next_id ≡ m.next_id
unfolding drop_session
drop-next_id m sid = refl

-- A session that has told its PN may go without the others noticing.
pub drop-IsAttached :
    (m : Manager) (sid : ℕ)
    → is_empty (session m sid).pn ≡ false
    → IsAttached m
    → IsAttached (drop_session m sid)
drop-IsAttached m sid e a x r p = ground (
  arith,
  drop-running m sid,
  drop-pn m sid x,
  drop-sessions m sid x,
  a x (ground (arith, drop-running m sid)) (ground (arith, drop-pn m sid x)),
  ap (λ (y : ℕ). (session m y).pn) {x = sid} {y = x},
)
