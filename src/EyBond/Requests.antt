-- ===== src/EyBond/Requests.antt =====
-- Requests and their answers: which future a frame resolves, and what a lost session does.
use home_assistant_dess_moni.Base.{
  ℕ, ◌≡◌, ◌≢◌, ◌↔◌, refl, ap, sym, ◌∙◌, arith, not, ◌&&◌, List, [], ◌∷◌, Option, none, some, eqb,
  nat_eq, list_eq, Bool-cases, inl, inr, ==_refl,
}
use home_assistant_dess_moni.Base.Text.{Text}
use home_assistant_dess_moni.Base.Dict.{
  Dict, lookup, insert, erase, contains, lookup-insert, lookup-erase, lookup_or-insert,
  lookup-insert_self, lookup-insert_ne,
}
use home_assistant_dess_moni.EyBond.Manager.{
  Session, Manager, Future, waiting, answered, aborted, new_session, session, is_empty, next_tid,
  on_forward, begin_send, disconnect, drop_session, resolve, abort, abort_all,
}
use home_assistant_dess_moni.EyBond.Registry.{Registry}
use home_assistant_dess_moni.EyBond.Routing.{drop-lookup, drop-route, text_beq}
use home_assistant_dess_moni.EyBond.Reachable.{Reachable, Reachable-IsConsistent}

sent_session :
    (m : Manager) (sid fut : ℕ)
    → let sess = session m sid in
      session (begin_send m sid fut) sid ≡ record sess {
        tid = next_tid sess.tid;
        pending = insert (next_tid sess.tid) fut sess.pending;
      }
unfolding begin_send
sent_session m sid fut =
    let sess = session m sid in
    ground (
      arith,
      lookup_or-insert sid sid (new_session [])
          (record sess {
            tid = next_tid sess.tid;
            pending = insert (next_tid sess.tid) fut sess.pending;
          })
          m.store,
      ==_refl sid,
    )

on_forward-found :
    (m : Manager) (sid tid fut : ℕ) (payload : List ℕ)
    → lookup tid (session m sid).pending ≡ some fut
    → let done = on_forward m sid tid payload in
      (done.futures ≡ insert fut (resolve payload (lookup fut m.futures)) m.futures)
      × (session done sid
          ≡ (let sess = session m sid in record sess { pending = erase tid sess.pending }))
unfolding on_forward
on_forward-found m sid tid fut payload e =
    let sess = session m sid in
    rw (on_forward, e)
      (
        refl,
        ground (
          arith,
          lookup_or-insert sid sid (new_session [])
              (record sess { pending = erase tid sess.pending }) m.store,
          ==_refl sid,
        ),
      )

on_forward-unknown :
    (m : Manager) (sid tid : ℕ) (payload : List ℕ)
    → lookup tid (session m sid).pending ≡ none
    → (on_forward m sid tid payload).futures ≡ m.futures
unfolding on_forward
on_forward-unknown m sid tid payload e = rw (on_forward, e) refl

sent-futures :
    (m : Manager) (sid fut : ℕ) → (begin_send m sid fut).futures ≡ insert fut waiting m.futures
unfolding begin_send
sent-futures m sid fut = refl

-- The frame that carries the number of a request gives its payload to that request and to no other
-- future. The same frame a second time changes no future.
pub send-answer :
    (m : Manager) (sid fut other : ℕ) (payload again : List ℕ)
    → fut ≢ other
    → let sent = begin_send m sid fut in
      let tid = (session sent sid).tid in
      let done = on_forward sent sid tid payload in
      (lookup fut done.futures ≡ some (answered payload))
      × (lookup other done.futures ≡ lookup other m.futures)
      × ((on_forward done sid tid again).futures ≡ done.futures)
send-answer m sid fut other payload again ne =
    let sent = begin_send m sid fut in
    let tid = (session sent sid).tid in
    let done = on_forward sent sid tid payload in
    let sess = session m sid in
    let pending : lookup tid (session sent sid).pending ≡ some fut =
      ap (λ (s : Session). lookup s.tid s.pending) (sent_session m sid fut)
      ∙ lookup-insert_self (next_tid sess.tid) fut sess.pending in
    let (futures, after) = on_forward-found sent sid tid fut payload pending in
    let waits : lookup fut sent.futures ≡ some waiting =
      ap (λ (d : Dict ℕ Future). lookup fut d) (sent-futures m sid fut)
      ∙ lookup-insert_self fut waiting m.futures in
    let f : done.futures ≡ insert fut (answered payload) sent.futures =
      futures ∙ ap (λ (o : Option Future). insert fut (resolve payload o) sent.futures) waits in
    (
      ap (λ (d : Dict ℕ Future). lookup fut d) f
          ∙ lookup-insert_self fut (answered payload) sent.futures,
      ap (λ (d : Dict ℕ Future). lookup other d) f
          ∙ lookup-insert_ne fut other (answered payload) sent.futures ne
          ∙ ap (λ (d : Dict ℕ Future). lookup other d) (sent-futures m sid fut)
          ∙ lookup-insert_ne fut other waiting m.futures ne,
      on_forward-unknown done sid tid again (
          ap (λ (s : Session). lookup tid s.pending) after
          ∙ ground (arith, lookup-erase tid tid (session sent sid).pending, ==_refl tid)),
    )

-- While a request waits, a frame with a number that is not its own and that no other request of
-- the session waits for changes no future.
pub unsolicited :
    (m : Manager) (sid fut tid : ℕ) (payload : List ℕ)
    → lookup tid (session m sid).pending ≡ none
    → tid ≢ next_tid (session m sid).tid
    → (on_forward (begin_send m sid fut) sid tid payload).futures ≡ insert fut waiting m.futures
unsolicited m sid fut tid payload e ne =
    let sess = session m sid in
    on_forward-unknown (begin_send m sid fut) sid tid payload (
      ap (λ (s : Session). lookup tid s.pending) (sent_session m sid fut)
      ∙ lookup-insert_ne (next_tid sess.tid) tid fut sess.pending (λ p. ne (sym p))
      ∙ e)
    ∙ sent-futures m sid fut

abort_all-aborted :
    (pending : Dict ℕ ℕ) (futures : Dict ℕ Future) (fut : ℕ)
    → lookup fut futures ≡ some aborted
    → lookup fut (abort_all pending futures) ≡ some aborted
abort_all-aborted [] futures fut h = h
abort_all-aborted ((tid, f) ∷ pending) futures fut h =
    abort_all-aborted pending (insert f (abort (lookup f futures)) futures) fut (
      ground (
        arith,
        lookup-insert f fut (abort (lookup f futures)) futures,
        ap (λ (x : ℕ). lookup x futures) {x = f} {y = fut},
      ))

-- Each future that waits on a session is woken with an error when the session is dropped.
abort_all-waiting :
    (pending : Dict ℕ ℕ) (futures : Dict ℕ Future) (tid fut : ℕ)
    → lookup tid pending ≡ some fut
    → lookup fut futures ≡ some waiting
    → lookup fut (abort_all pending futures) ≡ some aborted
abort_all-waiting [] futures tid fut h w = ground arith
abort_all-waiting ((t, f) ∷ pending) futures tid fut h w = elim (Bool-cases (eqb f fut)) [
  | inl e ↦ abort_all-aborted pending (insert f (abort (lookup f futures)) futures) fut (
      ground (
        arith,
        lookup-insert f fut (abort (lookup f futures)) futures,
        ap (λ (x : ℕ). lookup x futures) {x = f} {y = fut},
      ))
  | inr e ↦
      abort_all-waiting pending (insert f (abort (lookup f futures)) futures) tid fut (ground arith)
        (ground (arith, lookup-insert f fut (abort (lookup f futures)) futures))
]

disconnect-maps :
    (now : Text) (m : Manager) (sid : ℕ)
    → let gone = disconnect now m sid in
      (gone.futures ≡ (drop_session m sid).futures) × (gone.by_pn ≡ (drop_session m sid).by_pn)
unfolding disconnect
disconnect-maps now m sid =
    elim (Bool-cases (
      not (is_empty (session m sid).pn)
      && not (contains (session m sid).pn (drop_session m sid).by_pn))) [
        | inl e ↦ rw (disconnect, e) (refl, refl)
        | inr e ↦ rw (disconnect, e) (refl, refl)
      ]

drop-futures :
    (m : Manager) (sid : ℕ)
    → (drop_session m sid).futures ≡ abort_all (session m sid).pending m.futures
unfolding drop_session
drop-futures m sid = refl

-- The end of a session wakes every request that still waits on it with an error.
pub disconnect-wakes :
    (now : Text) (m : Manager) (sid tid fut : ℕ)
    → lookup tid (session m sid).pending ≡ some fut
    → lookup fut m.futures ≡ some waiting
    → lookup fut (disconnect now m sid).futures ≡ some aborted
disconnect-wakes now m sid tid fut h w =
    ap (λ (d : Dict ℕ Future). lookup fut d) ((disconnect-maps now m sid).0 ∙ drop-futures m sid)
    ∙ abort_all-waiting (session m sid).pending m.futures tid fut h w

-- In a state that can be reached from a new manager, the end of a session takes its own route
-- away and leaves the routes of all other sessions.
pub disconnect-routes :
    (reg : Registry) (now : Text) (m : Manager) (sid other : ℕ) (q : Text)
    → Reachable reg m
    → (lookup q (disconnect now m sid).by_pn ≡ some other)
      ↔ ((lookup q m.by_pn ≡ some other) × (sid ≢ other))
disconnect-routes reg now m sid other q reached =
    let r = (Reachable-IsConsistent reg m reached).0 in
    let pn = (session m sid).pn in
    let same : lookup q (disconnect now m sid).by_pn ≡ lookup q (drop_session m sid).by_pn =
      ap (λ (d : Dict Text ℕ). lookup q d) (disconnect-maps now m sid).1 in
    (
      λ h. ground (arith, same, drop-lookup m sid q, drop-route m sid q other r (sym same ∙ h)),
      λ h. ground (
        arith,
        same,
        drop-lookup m sid q,
        r q other,
        text_beq pn q,
        ap (λ (p : Text). lookup p m.by_pn) {x = pn} {y = q},
      ),
    )
