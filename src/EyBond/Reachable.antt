-- ===== src/EyBond/Reachable.antt =====
-- The steps of the manager, and the consistency of its maps after any sequence of them.
use home_assistant_dess_moni.Base.{
  eqb, ℕ, ◌≡◌, refl, arith, true, false, not, ◌&&◌, List, [], ◌∷◌, some, nat_eq, list_eq,
  Bool-cases, inl, inr,
}
use home_assistant_dess_moni.Base.Text.{Text}
use home_assistant_dess_moni.Base.Dict.{lookup, lookup_or, contains}
use home_assistant_dess_moni.EyBond.Registry.{Registry}
use home_assistant_dess_moni.EyBond.Wire.{EyHeader, fc_heartbeat, fc_forward2device}
use home_assistant_dess_moni.EyBond.Handler.{handle_frame, pn_of}
use home_assistant_dess_moni.EyBond.Manager.{
  Manager, new_manager, session, is_in, discard, is_empty, drop_session, connect, replace, claim,
  set_pn, seen_at, on_heartbeat, on_forward, disconnect, begin_send, give_up_send, heartbeat_tid,
  find_session,
}
use home_assistant_dess_moni.EyBond.Routing.{
  IsConsistent, drop-pn, drop-sessions, drop-IsRouted, drop-IsSignalled, drop-IsNumbered,
  is_in-discard,
}
use home_assistant_dess_moni.EyBond.Invariant.{
  IsClaimable, same-IsConsistent, on_forward-SamePns, begin_send-SamePns, give_up_send-SamePns,
  heartbeat_tid-SamePns, find_session-SamePns, connect-IsConsistent, set_pn-IsConsistent,
  set_pn-pns, replace-IsClaimable, claim-IsConsistent,
}

-- The events of the loop: connections, frames, ends of connections, sends and their ends. A frame or
-- an end of a session comes from the handler of the session, which is still running.
pub data Step (m : Manager) : Manager → Type 0 where
  connects : (peer : Text) → Step m (connect m peer)
  receives :
      (now : Text) (sid : ℕ) (h : EyHeader) (payload : List ℕ)
      → is_in sid m.running ≡ true
      → Step m (handle_frame now m sid h payload)
  ends : (now : Text) (sid : ℕ) → is_in sid m.running ≡ true → Step m (disconnect now m sid)
  sends : (sid fut : ℕ) → Step m (begin_send m sid fut)
  gives_up : (sid tid : ℕ) → Step m (give_up_send m sid tid)
  keeps_alive : (sid : ℕ) → Step m (heartbeat_tid m sid)
  looks_up : (pn : Text) → Step m (find_session m pn).1

pub data Reachable (reg : Registry) : Manager → Type 0 where
  start : Reachable reg (new_manager reg)
  step : {m m' : Manager} → Reachable reg m → Step m m' → Reachable reg m'

seen-IsConsistent :
    (m : Manager) (now pn peer : Text) → IsConsistent m → IsConsistent (seen_at now pn peer m)
seen-IsConsistent m now pn peer c = c

identify-IsConsistent :
    (m : Manager) (now pn : Text) (sid : ℕ)
    → is_in sid m.running ≡ true
    → is_empty pn ≡ false
    → is_empty (session m sid).pn ≡ true
    → IsConsistent m
    → let named = set_pn sid pn m in
      IsConsistent (
        seen_at now pn
          (session m sid).peer
          (claim pn sid (replace named sid (lookup pn named.by_pn))))
identify-IsConsistent m now pn sid run full e c =
    let named = set_pn sid pn m in
    let claimable : IsClaimable pn sid named = (
      set_pn-IsConsistent m sid pn full e c,
      ground (arith, set_pn-pns m sid pn sid),
      c.3 sid run e,
    ) in
    claim-IsConsistent (replace named sid (lookup pn named.by_pn)) pn sid full
      (replace-IsClaimable named pn sid (lookup pn named.by_pn) refl claimable)

on_heartbeat-IsConsistent :
    (m : Manager) (now pn : Text) (sid : ℕ)
    → is_in sid m.running ≡ true
    → IsConsistent m
    → IsConsistent (on_heartbeat now m sid pn)
unfolding on_heartbeat
on_heartbeat-IsConsistent m now [] sid run c = elim (Bool-cases (is_empty (session m sid).pn)) [
  | inl e ↦ rw e c
  | inr e ↦ rw e c
]
on_heartbeat-IsConsistent m now (b ∷ pn) sid run c =
    elim (Bool-cases (is_empty (session m sid).pn)) [
      | inl e ↦ rw e (identify-IsConsistent m now (b ∷ pn) sid run refl e c)
      | inr e ↦ rw e c
    ]

ended-IsConsistent :
    (m : Manager) (sid : ℕ)
    → IsConsistent m
    → IsConsistent (record (drop_session m sid) { running = discard sid m.running })
ended-IsConsistent m sid (r, s, n, a) = (
  drop-IsRouted m sid r,
  drop-IsSignalled m sid s,
  drop-IsNumbered m sid n,
  λ x h p.
      ground (arith, is_in-discard x sid m.running, drop-pn m sid x, drop-sessions m sid x, a x),
)

disconnect-IsConsistent :
    (m : Manager) (now : Text) (sid : ℕ) → IsConsistent m → IsConsistent (disconnect now m sid)
unfolding disconnect
disconnect-IsConsistent m now sid c =
    elim (Bool-cases (
      not (is_empty (session m sid).pn)
      && not (contains (session m sid).pn (drop_session m sid).by_pn))) [
        | inl e ↦ rw e (ended-IsConsistent m sid c)
        | inr e ↦ rw e (ended-IsConsistent m sid c)
      ]

handle_frame-IsConsistent :
    (m : Manager) (now : Text) (sid : ℕ) (h : EyHeader) (payload : List ℕ)
    → is_in sid m.running ≡ true
    → IsConsistent m
    → IsConsistent (handle_frame now m sid h payload)
unfolding handle_frame
handle_frame-IsConsistent m now sid h payload run c = elim (Bool-cases (eqb h.fcode fc_heartbeat)) [
  | inl e ↦ rw e (on_heartbeat-IsConsistent m now (pn_of payload) sid run c)
  | inr e ↦ rw e (elim (Bool-cases (eqb h.fcode fc_forward2device)) [
    | inl f ↦ rw f (
        same-IsConsistent m (on_forward m sid h.tid payload)
          (on_forward-SamePns m sid h.tid payload) c)
    | inr f ↦ rw f c
  ])
]

Step-IsConsistent : {m m' : Manager} → Step m m' → IsConsistent m → IsConsistent m'
Step-IsConsistent {m} (connects peer) c = connect-IsConsistent m peer c
Step-IsConsistent {m} (receives now sid h payload run) c =
    handle_frame-IsConsistent m now sid h payload run c
Step-IsConsistent {m} (ends now sid run) c = disconnect-IsConsistent m now sid c
Step-IsConsistent {m} (sends sid fut) c =
    same-IsConsistent m (begin_send m sid fut) (begin_send-SamePns m sid fut) c
Step-IsConsistent {m} (gives_up sid tid) c =
    same-IsConsistent m (give_up_send m sid tid) (give_up_send-SamePns m sid tid) c
Step-IsConsistent {m} (keeps_alive sid) c =
    same-IsConsistent m (heartbeat_tid m sid) (heartbeat_tid-SamePns m sid) c
Step-IsConsistent {m} (looks_up pn) c =
    same-IsConsistent m (find_session m pn).1 (find_session-SamePns m pn) c

pub Reachable-IsConsistent : (reg : Registry) (m : Manager) → Reachable reg m → IsConsistent m
Reachable-IsConsistent reg _ start =
    (λ q x h. ground arith, (λ q. refl, refl), λ x h. ground arith, λ x h p. ground arith)
Reachable-IsConsistent reg _ (step before s) =
    Step-IsConsistent s (Reachable-IsConsistent reg _ before)

-- After any sequence of connections, frames, sends and disconnections of a new manager, a PN that
-- has a session leads to one that is connected and has told this PN.
pub Reachable-route :
    (reg : Registry) (m : Manager) (pn : Text) (sid : ℕ)
    → Reachable reg m
    → lookup pn m.by_pn ≡ some sid
    → (is_in sid m.sessions ≡ true) × ((session m sid).pn ≡ pn)
Reachable-route reg m pn sid reached h =
    (let (live, named, full) = (Reachable-IsConsistent reg m reached).0 pn sid h in (live, named))

-- After any sequence of connections, frames, sends and disconnections of a new manager, the
-- event of a PN is set exactly while the PN has a session, and the common event exactly while a
-- session is connected.
pub Reachable-events :
    (reg : Registry) (m : Manager) (pn : Text)
    → Reachable reg m
    → (lookup_or pn false m.ready ≡ contains pn m.by_pn) × (m.any_ready ≡ not (is_empty m.sessions))
Reachable-events reg m pn reached =
    (let (events, any) = (Reachable-IsConsistent reg m reached).1 in (events pn, any))
