-- ===== src/EyBond/Lifecycle.antt =====
-- The registry through the life of a hub: its keys, and what the session events leave alone.
use home_assistant_dess_moni.Base.{
  ℕ, Bool, true, [], ◌∷◌, Option, some, if◌then◌else◌, ◌≡◌, refl, arith, list_eq, nat_eq, ◌==◌,
  list_beq_iff, Option-cases, Bool-cases, inl, inr, ap, ◌∙◌,
}
use mathlib.Core.Path.{subst}
use home_assistant_dess_moni.Base.Text.{Text}
use home_assistant_dess_moni.Base.Dict.{
  lookup, insert, erase, contains, lookup-insert, lookup-erase,
}
use home_assistant_dess_moni.EyBond.Registry.{
  DongleStatus, DongleRecord, fresh, Registry, seen, record_seen, mark_disconnected,
  reset_connection_state, update, remove, put, IsKeyed, set_enabled, set_protocol, set_devaddr,
  set_name, disconnected,
}

contains-insert :
    (pn k : Text) (rec : DongleRecord) (reg : Registry)
    → contains k (insert pn rec reg) ≡ (if pn == k then true else contains k reg)
contains-insert pn k rec reg = ground (arith, lookup-insert pn k rec reg)

insert-IsKeyed :
    (pn : Text) (rec : DongleRecord) (reg : Registry)
    → rec.pn ≡ pn
    → IsKeyed reg
    → IsKeyed (insert pn rec reg)
insert-IsKeyed pn rec [] e h = (e, refl, tt)
insert-IsKeyed pn rec ((k, old) ∷ reg) e h = ground (
  arith,
  insert-IsKeyed pn rec reg e h.2,
  lookup-insert pn k rec reg,
  list_beq_iff k pn,
  list_beq_iff pn k,
)

erase-IsKeyed : (pn : Text) (reg : Registry) → IsKeyed reg → IsKeyed (erase pn reg)
erase-IsKeyed pn [] h = tt
erase-IsKeyed pn ((k, old) ∷ reg) h =
    ground (arith, erase-IsKeyed pn reg h.2, lookup-erase pn k reg)

contains-reset :
    (k : Text) (reg : Registry) → contains k (reset_connection_state reg) ≡ contains k reg
unfolding reset_connection_state
contains-reset k [] = refl
contains-reset k ((pn, rec) ∷ reg) = ground (arith, contains-reset k reg)

reset-IsKeyed : (reg : Registry) → IsKeyed reg → IsKeyed (reset_connection_state reg)
unfolding reset_connection_state
reset-IsKeyed [] h = tt
reset-IsKeyed ((pn, rec) ∷ reg) h = (h.0, contains-reset pn reg ∙ h.1, reset-IsKeyed reg h.2)

lookup-pn :
    (pn : Text) (reg : Registry) {rec : DongleRecord}
    → IsKeyed reg
    → lookup pn reg ≡ some rec
    → rec.pn ≡ pn
lookup-pn pn [] h e = cc
lookup-pn pn ((k, old) ∷ reg) {rec} h e =
    ground (arith, lookup-pn pn reg {rec = rec} h.2, list_beq_iff k pn)

-- Every operation of the registry.
pub data Op : Type 0 where
  see : Text → Text → Text → DongleStatus → Op
  drop_link : Text → Text → Op
  reset : Op
  enable : Text → Bool → Op
  assign : Text → Option Text → Op
  address : Text → ℕ → Op
  rename : Text → Text → Op
  forget : Text → Op
  store : DongleRecord → Op

abbrev pub apply : Op → Registry → Registry
apply (see now pn peer status) = record_seen now pn peer status
apply (drop_link now pn) = mark_disconnected now pn
apply reset = reset_connection_state
apply (enable pn enabled) = set_enabled pn enabled
apply (assign pn protocol) = set_protocol pn protocol
apply (address pn devaddr) = set_devaddr pn devaddr
apply (rename pn name) = set_name pn name
apply (forget pn) = remove pn
apply (store rec) = put rec

update-IsKeyed :
    (pn : Text) (write : DongleRecord → DongleRecord) (reg : Registry)
    → ((rec : DongleRecord) → (write rec).pn ≡ rec.pn)
    → IsKeyed reg
    → IsKeyed (update pn write reg)
unfolding update
update-IsKeyed pn write reg keep h = elim (Option-cases (lookup pn reg)) [
  | inl e ↦ rw (update, e) (insert-IsKeyed pn (write (fresh pn)) reg (keep (fresh pn)) h)
  | inr (rec, e) ↦
      rw (update, e) (insert-IsKeyed pn (write rec) reg (keep rec ∙ lookup-pn pn reg h e) h)
]

-- Every operation keeps each record under its own PN, and each PN once.
pub apply-IsKeyed : (op : Op) (reg : Registry) → IsKeyed reg → IsKeyed (apply op reg)
unfolding record_seen mark_disconnected set_enabled set_protocol set_devaddr set_name remove put
apply-IsKeyed (see now pn peer status) reg h = elim (Option-cases (lookup pn reg)) [
  | inl e ↦ rw (record_seen, e) (insert-IsKeyed pn _ reg refl h)
  | inr (rec, e) ↦ rw (record_seen, e) (insert-IsKeyed pn _ reg (lookup-pn pn reg h e) h)
]
apply-IsKeyed (drop_link now pn) reg h = elim (Option-cases (lookup pn reg)) [
  | inl e ↦ rw (mark_disconnected, e) h
  | inr (rec, e) ↦ rw (mark_disconnected, e) (insert-IsKeyed pn _ reg (lookup-pn pn reg h e) h)
]
apply-IsKeyed reset reg h = reset-IsKeyed reg h
apply-IsKeyed (enable pn enabled) reg h = update-IsKeyed pn _ reg (λ rec. refl) h
apply-IsKeyed (assign pn protocol) reg h = update-IsKeyed pn _ reg (λ rec. refl) h
apply-IsKeyed (address pn devaddr) reg h = update-IsKeyed pn _ reg (λ rec. refl) h
apply-IsKeyed (rename pn name) reg h = update-IsKeyed pn _ reg (λ rec. refl) h
apply-IsKeyed (forget pn) reg h = erase-IsKeyed pn reg h
apply-IsKeyed (store rec) reg h = insert-IsKeyed rec.pn rec reg refl h

-- The events of sessions and of a restart.
pub data IsLifecycle : Op → Type 0 where
  sees : {now pn peer : Text} {status : DongleStatus} → IsLifecycle (see now pn peer status)
  drops : {now pn : Text} → IsLifecycle (drop_link now pn)
  resets : IsLifecycle reset

-- `b` is `a` but for its status, its peer and the time when it was last seen.
pub record SameConfig (a b : DongleRecord) : Type 0 where
  pub pn : a.pn ≡ b.pn
  pub name : a.name ≡ b.name
  pub enabled : a.enabled ≡ b.enabled
  pub protocol : a.protocol ≡ b.protocol
  pub devaddr : a.devaddr ≡ b.devaddr
  pub first_seen : a.first_seen ≡ b.first_seen
  pub model_hint : a.model_hint ≡ b.model_hint
  pub legacy_id : a.legacy_id ≡ b.legacy_id

SameConfig-refresh :
    (rec : DongleRecord) (status : DongleStatus) (peer last : Text)
    → SameConfig (record rec { status = status; peer = peer; last_seen = last }) rec
SameConfig-refresh rec status peer last = record {
  pn = refl;
  name = refl;
  enabled = refl;
  protocol = refl;
  devaddr = refl;
  first_seen = refl;
  model_hint = refl;
  legacy_id = refl;
}

-- A write over a known record keeps what is known of every PN, if it does so for its own.
insert-SameConfig :
    (pn k : Text) (new : DongleRecord) (reg : Registry) {old rec : DongleRecord}
    → lookup pn reg ≡ some old
    → SameConfig new old
    → lookup k reg ≡ some rec
    → (after : DongleRecord) × (lookup k (insert pn new reg) ≡ some after) × SameConfig after rec
insert-SameConfig pn k new reg {old} {rec} f same e = elim (Bool-cases (pn == k)) [
  | inl y ↦
      let p : pn ≡ k = (list_beq_iff pn k).0 y in
      let q : old ≡ rec = cc (f, e, ap (λ (t : Text). lookup t reg) p) in
      (new, ground (arith, lookup-insert pn k new reg), subst (SameConfig new) q same)
  | inr n ↦ (
    rec,
    ground (arith, lookup-insert pn k new reg),
    SameConfig-refresh rec rec.status rec.peer rec.last_seen,
  )
]

lookup-reset :
    (k : Text) (reg : Registry) {rec : DongleRecord}
    → lookup k reg ≡ some rec
    → lookup k (reset_connection_state reg) ≡ some (record rec { status = disconnected; peer = [] })
unfolding reset_connection_state
lookup-reset k [] e = cc
lookup-reset k ((pn, old) ∷ reg) {rec} e = ground (arith, lookup-reset k reg {rec = rec})

-- An event of a session, or a restart, never forgets a dongle, and never changes what the user
-- has configured for it.
pub lifecycle-SameConfig :
    (op : Op) (reg : Registry) (k : Text) {rec : DongleRecord}
    → IsLifecycle op
    → lookup k reg ≡ some rec
    → (after : DongleRecord) × (lookup k (apply op reg) ≡ some after) × SameConfig after rec
unfolding record_seen mark_disconnected
lifecycle-SameConfig (see now pn peer status) reg k {rec} sees e =
    elim (Option-cases (lookup pn reg)) [
      | inl f ↦ (
        rec,
        ground (
          arith,
          lookup-insert pn k
              (record (fresh pn) {
                first_seen = now;
                last_seen = now;
                status = status;
                peer = peer;
              })
              reg,
          list_beq_iff pn k,
        ),
        SameConfig-refresh rec rec.status rec.peer rec.last_seen,
      )
      | inr (old, f) ↦
          rw (record_seen, f)
            (insert-SameConfig pn k (seen now peer status old) reg f
              (SameConfig-refresh old status _ now) e)
    ]
lifecycle-SameConfig (drop_link now pn) reg k {rec} drops e = elim (Option-cases (lookup pn reg)) [
  | inl f ↦
      rw (mark_disconnected, f) (rec, e, SameConfig-refresh rec rec.status rec.peer rec.last_seen)
  | inr (old, f) ↦
      rw (mark_disconnected, f)
        (insert-SameConfig pn k _ reg f (SameConfig-refresh old disconnected old.peer now) e)
]
lifecycle-SameConfig reset reg k {rec} resets e = (
  record rec { status = disconnected; peer = [] },
  lookup-reset k reg e,
  SameConfig-refresh rec disconnected [] rec.last_seen,
)
lifecycle-SameConfig (enable _ _) reg k h e = elim h [ ]
lifecycle-SameConfig (assign _ _) reg k h e = elim h [ ]
lifecycle-SameConfig (address _ _) reg k h e = elim h [ ]
lifecycle-SameConfig (rename _ _) reg k h e = elim h [ ]
lifecycle-SameConfig (forget _) reg k h e = elim h [ ]
lifecycle-SameConfig (store _) reg k h e = elim h [ ]
