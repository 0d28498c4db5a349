-- ===== src/EyBond/Invariant.antt =====
-- The single operations of the manager keep its maps consistent.
use mathlib.Core.Path.{subst}
use home_assistant_dess_moni.Base.{
  ℕ, ◌<◌, ◌≡◌, refl, ap, sym, ◌∙◌, arith, true, false, not, List, [], ◌∷◌, Option, none, some,
  if◌then◌else◌, eqb, nat_eq, list_eq, Bool-cases, Option-cases, inl, inr,
}
use home_assistant_dess_moni.Base.Text.{Text}
use home_assistant_dess_moni.Base.Dict.{
  Dict, lookup, lookup_or, insert, contains, lookup-insert, lookup_or-insert,
}
use home_assistant_dess_moni.EyBond.Manager.{
  Session, Manager, new_session, session, is_in, is_empty, ready_event_for, drop_session, connect,
  replace, claim, set_pn, on_forward, begin_send, give_up_send, heartbeat_tid, find_session,
}
use home_assistant_dess_moni.EyBond.Routing.{
  IsConsistent, text_beq, contains-insert, ready_event_for-lookup, drop-pn, drop-sessions,
  drop-IsRouted, drop-IsSignalled, drop-IsNumbered, drop-IsAttached,
}

-- Two states whose sessions have the same PNs, and whose other parts are the same.
abbrev pub SamePns : Manager → Manager → Type 0
SamePns m m' =
    ((x : ℕ) → (session m' x).pn ≡ (session m x).pn)
    × (m'.by_pn ≡ m.by_pn)
    × (m'.sessions ≡ m.sessions)
    × (m'.any_ready ≡ m.any_ready)
    × (m'.running ≡ m.running)
    × (m'.next_id ≡ m.next_id)
    × ((q : Text) → lookup_or q false m'.ready ≡ lookup_or q false m.ready)

pub same-IsConsistent : (m m' : Manager) → SamePns m m' → IsConsistent m → IsConsistent m'
same-IsConsistent m m' (pns, routes, live, any, run, next, events) (r, (s, t), n, a) = (
  λ q x h.
      (let (l, p, f) = r q x (ap (λ (d : Dict Text ℕ). lookup q d) (sym routes) ∙ h) in
        (ap (is_in x) live ∙ l, pns x ∙ p, f)),
  (
    λ q. events q ∙ s q ∙ ap (λ (d : Dict Text ℕ). contains q d) (sym routes),
    any ∙ t ∙ ap (λ (l : List ℕ). not (is_empty l)) (sym live),
  ),
  λ x h. subst (λ (k : ℕ). x < k) (sym next) (n x (ap (is_in x) (sym live) ∙ h)),
  λ x h p.
      ap (is_in x) live
      ∙ a x (ap (is_in x) (sym run) ∙ h) (ap (λ (q : Text). is_empty q) (sym (pns x)) ∙ p),
)

write-SamePns :
    (m : Manager) (sid : ℕ) (s : Session)
    → s.pn ≡ (session m sid).pn
    → (x : ℕ) → (session (record m { store = insert sid s m.store }) x).pn ≡ (session m x).pn
write-SamePns m sid s e x = ground (
  arith,
  lookup_or-insert sid x (new_session []) s m.store,
  ap (λ (y : ℕ). (session m y).pn) {x = sid} {y = x},
)

pub on_forward-SamePns :
    (m : Manager) (sid tid : ℕ) (payload : List ℕ) → SamePns m (on_forward m sid tid payload)
unfolding on_forward
on_forward-SamePns m sid tid payload = elim (Option-cases (lookup tid (session m sid).pending)) [
  | inl e ↦ rw (on_forward, e) (write-SamePns m sid _ refl, refl, refl, refl, refl, refl, λ q. refl)
  | inr (fut, e) ↦
      rw (on_forward, e) (write-SamePns m sid _ refl, refl, refl, refl, refl, refl, λ q. refl)
]

pub begin_send-SamePns : (m : Manager) (sid fut : ℕ) → SamePns m (begin_send m sid fut)
unfolding begin_send
begin_send-SamePns m sid fut = (write-SamePns m sid _ refl, refl, refl, refl, refl, refl, λ q. refl)

pub give_up_send-SamePns : (m : Manager) (sid tid : ℕ) → SamePns m (give_up_send m sid tid)
unfolding give_up_send
give_up_send-SamePns m sid tid =
    (write-SamePns m sid _ refl, refl, refl, refl, refl, refl, λ q. refl)

pub heartbeat_tid-SamePns : (m : Manager) (sid : ℕ) → SamePns m (heartbeat_tid m sid)
unfolding heartbeat_tid
heartbeat_tid-SamePns m sid = (write-SamePns m sid _ refl, refl, refl, refl, refl, refl, λ q. refl)

pub find_session-SamePns : (m : Manager) (pn : Text) → SamePns m (find_session m pn).1
unfolding find_session
find_session-SamePns m [] = (λ x. refl, refl, refl, refl, refl, refl, λ q. refl)
find_session-SamePns m (c ∷ pn) = elim (Option-cases (lookup (c ∷ pn) m.by_pn)) [
  | inl e ↦
      rw (find_session, e)
        (λ x. refl, refl, refl, refl, refl, refl, λ q. ready_event_for-lookup (c ∷ pn) q m.ready)
  | inr (sid, e) ↦ rw (find_session, e) (λ x. refl, refl, refl, refl, refl, refl, λ q. refl)
]

pub connect-IsConsistent :
    (m : Manager) (peer : Text) → IsConsistent m → IsConsistent (connect m peer)
unfolding connect
connect-IsConsistent m peer (r, (s, t), n, a) =
    let pns = λ (x : ℕ). lookup_or-insert m.next_id x (new_session []) (new_session peer) m.store in
    (
      λ q x h. (let (l, p, f) = r q x h in ground (arith, pns x, n x l)),
      (s, refl),
      λ x h. ground (arith, n x),
      λ x h p. ground (arith, pns x, a x),
    )

pub set_pn-pns :
    (m : Manager) (sid : ℕ) (pn : Text) (x : ℕ)
    → (session (set_pn sid pn m) x).pn ≡ (if eqb sid x then pn else (session m x).pn)
set_pn-pns m sid pn x =
    ground
      (arith, lookup_or-insert sid x (new_session []) (record (session m sid) { pn = pn }) m.store)

-- A session that had no PN gets one.
pub set_pn-IsConsistent :
    (m : Manager) (sid : ℕ) (pn : Text)
    → is_empty pn ≡ false
    → is_empty (session m sid).pn ≡ true
    → IsConsistent m
    → IsConsistent (set_pn sid pn m)
set_pn-IsConsistent m sid pn full e (r, (s, t), n, a) = (
  λ q x h.
      (let (l, p, f) = r q x h in
        ground (arith, set_pn-pns m sid pn x, ap (λ (y : ℕ). (session m y).pn) {x = sid} {y = x})),
  (s, t),
  n,
  λ x h p. ground (arith, set_pn-pns m sid pn x, a x),
)

-- What is known when the session takes over the PN.
abbrev pub IsClaimable : Text → ℕ → Manager → Type 0
IsClaimable pn sid m = IsConsistent m × ((session m sid).pn ≡ pn) × (is_in sid m.sessions ≡ true)

pub drop-IsConsistent :
    (m : Manager) (sid : ℕ)
    → is_empty (session m sid).pn ≡ false
    → IsConsistent m
    → IsConsistent (drop_session m sid)
drop-IsConsistent m sid e (r, s, n, a) = (
  drop-IsRouted m sid r,
  drop-IsSignalled m sid s,
  drop-IsNumbered m sid n,
  drop-IsAttached m sid e a,
)

pub replace-IsClaimable :
    (m : Manager) (pn : Text) (sid : ℕ) (old : Option ℕ)
    → lookup pn m.by_pn ≡ old
    → IsClaimable pn sid m
    → IsClaimable pn sid (replace m sid old)
replace-IsClaimable m pn sid none e c = c
replace-IsClaimable m pn sid (some old) e (c, p, l) = elim (Bool-cases (eqb old sid)) [
  | inl b ↦ rw b (c, p, l)
  | inr b ↦ rw b (
      let (l', p', f) = c.0 pn old e in
      (
        drop-IsConsistent m old (ap (λ (q : Text). is_empty q) p' ∙ f) c,
        drop-pn m old sid ∙ p,
        ground (arith, drop-sessions m old sid),
      ))
]

pub claim-IsConsistent :
    (m : Manager) (pn : Text) (sid : ℕ)
    → is_empty pn ≡ false
    → IsClaimable pn sid m
    → IsConsistent (claim pn sid m)
claim-IsConsistent m pn sid full ((r, (s, t), n, a), p, l) = (
  λ q x h. ground (arith, lookup-insert pn q sid m.by_pn, text_beq pn q, r q x),
  (
    λ q. ground (
      arith,
      lookup_or-insert pn q false true (ready_event_for pn m.ready),
      contains-insert pn q sid m.by_pn,
      ready_event_for-lookup pn q m.ready,
      s q,
    ),
    t,
  ),
  n,
  a,
)
