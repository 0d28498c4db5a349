-- ===== src/EyBond/Identity.antt =====
-- Poll targets: distinct identities, and URIs that reach the adapter of the dongle's protocol.
use home_assistant_dess_moni.Base.{
  ℕ, false, List, [], ◌∷◌, ◌++◌, Option, none, some, ◌==◌, list_eq, nat_eq, if◌then◌else◌, ◌≡◌, ◌≢◌,
  refl, ap, sym, ◌∙◌, arith, All, Option-cases, Bool-cases, inl, inr, list_beq_iff, map,
}
use mathlib.Core.Path.{subst}
use home_assistant_dess_moni.Base.Text.{Text, codes}
use home_assistant_dess_moni.Base.Decimal.{decimal, decimal-injective, decimal-digits, IsDigit}
use home_assistant_dess_moni.Base.Dict.{contains, values}
use home_assistant_dess_moni.Adapters.{Adapter, get_adapter}
use home_assistant_dess_moni.EyBond.Registry.{DongleRecord, Registry, IsKeyed}
use home_assistant_dess_moni.EyBond.Children.{
  or_text, add_target, DeviceTarget, child_id, child_scheme, Listener, build_child_uri,
  child_target, target_of, collect_targets, build_child_targets, pi18, modbus,
}

no_mark : (c : ℕ) (xs us : List ℕ) → All (λ x. x ≢ c) (xs ++ (c ∷ us)) → ⊥
no_mark c [] us h = h.0 refl
no_mark c (x ∷ xs) us h = no_mark c xs us h.1

tail_eq : {x y : ℕ} (xs ys : List ℕ) → x ∷ xs ≡ y ∷ ys → xs ≡ ys
tail_eq xs ys e = cc

-- The last mark of a text splits it in one way only.
split_last :
    (c : ℕ) (xs ys us vs : List ℕ)
    → All (λ x. x ≢ c) us
    → All (λ x. x ≢ c) vs
    → xs ++ (c ∷ us) ≡ ys ++ (c ∷ vs)
    → (xs ≡ ys) × (us ≡ vs)
split_last c [] [] us vs p q e = (refl, cc)
split_last c [] (y ∷ ys) us vs p q e =
    absurd (no_mark c ys vs (subst (All (λ x. x ≢ c)) (tail_eq us (ys ++ (c ∷ vs)) e) p))
split_last c (x ∷ xs) [] us vs p q e =
    absurd (no_mark c xs us (subst (All (λ x. x ≢ c)) (sym (tail_eq (xs ++ (c ∷ us)) vs e)) q))
split_last c (x ∷ xs) (y ∷ ys) us vs p q e =
    let rest = split_last c xs ys us vs p q (tail_eq (xs ++ (c ∷ us)) (ys ++ (c ∷ vs)) e) in
    ground (arith, rest)

digits_no_colon : (s : List ℕ) → All IsDigit s → All (λ x. x ≢ b':') s
digits_no_colon [] h = tt
digits_no_colon (c ∷ s) h = (omega arith, digits_no_colon s h.1)

drop_prefix : (xs ys : List ℕ) → codes "eybond:" ++ xs ≡ codes "eybond:" ++ ys → xs ≡ ys
drop_prefix xs ys e = cc

-- The identity of a child determines its dongle and its address on the bus.
pub child_id-injective :
    (a b : DongleRecord) → child_id a ≡ child_id b → (a.pn ≡ b.pn) × (a.devaddr ≡ b.devaddr)
unfolding child_id
child_id-injective a b e =
    let parts =
      split_last b':' a.pn b.pn (decimal a.devaddr) (decimal b.devaddr)
        (digits_no_colon (decimal a.devaddr) (decimal-digits a.devaddr))
        (digits_no_colon (decimal b.devaddr) (decimal-digits b.devaddr)) (drop_prefix _ _ e) in
    (parts.0, decimal-injective a.devaddr b.devaddr parts.1)

-- What a round of the loop lets through.
target-cases :
    (hub : Listener) (rec : DongleRecord) {t : DeviceTarget}
    → child_target hub rec ≡ some t
    → (p : Text) × (rec.protocol ≡ some p) × (t ≡ target_of hub rec p)
unfolding child_target
target-cases hub rec {t} e = elim (Option-cases rec.protocol) [
  | inl n ↦ absurd (ground arith)
  | inr (p, q) ↦ (p, q, ground arith)
]

scheme-adapter :
    (p rest : Text)
    → get_adapter (child_scheme (some p) ++ (codes "://" ++ rest))
      ≡ (if p == modbus then Adapter.modbus else Adapter.eybond (p == pi18))
unfolding get_adapter child_scheme
scheme-adapter p rest = elim (Bool-cases (p == pi18)) [
  | inl y ↦ rw y (rw ((list_beq_iff p pi18).0 y) refl)
  | inr n ↦ elim (Bool-cases (p == modbus)) [ inl y ↦ rw (n, y) refl | inr m ↦ rw (n, m) refl ]
]

-- A target's URI is served by the Modbus adapter for an SMG-II behind its dongle, and otherwise by
-- the EyBond adapter, in its PI18 dialect exactly for PI18.
pub uri-adapter :
    (hub : Listener) (rec : DongleRecord) {t : DeviceTarget}
    → child_target hub rec ≡ some t
    → get_adapter t.uri
      ≡ (if t.protocol == modbus then Adapter.modbus else Adapter.eybond (t.protocol == pi18))
unfolding build_child_uri
uri-adapter hub rec {t} e =
    let (p, q, same) = target-cases hub rec e in
    subst
      (λ (u : DeviceTarget).
        get_adapter u.uri
        ≡ (if u.protocol == modbus then Adapter.modbus else Adapter.eybond (u.protocol == pi18)))
      (sym same)
      (subst
        (λ (o : Option Text).
          get_adapter (build_child_uri (record rec { protocol = o }) hub)
          ≡ (if p == modbus then Adapter.modbus else Adapter.eybond (p == pi18)))
        (sym q) (scheme-adapter p _))

target_id :
    (hub : Listener) (rec : DongleRecord) {t : DeviceTarget}
    → rec.legacy_id ≡ []
    → child_target hub rec ≡ some t
    → t.id ≡ child_id rec
target_id hub rec {t} l e =
    let (p, q, same) = target-cases hub rec e in
    ap (λ (u : DeviceTarget). u.id) same ∙ ap (λ (i : Text). or_text i (child_id rec)) l

abbrev pub Distinct : List Text → Type 0
Distinct [] = Unit
Distinct (x ∷ xs) = All (λ y. y ≢ x) xs × Distinct xs

abbrev pub ids : List DeviceTarget → List Text
ids = map (λ t. t.id)

All-add :
    {i : Text} (o : Option DeviceTarget) (targets : List DeviceTarget)
    → ((t : DeviceTarget) → o ≡ some t → t.id ≢ i)
    → All (λ y. y ≢ i) (ids targets)
    → All (λ y. y ≢ i) (ids (add_target o targets))
All-add none targets f h = h
All-add (some t) targets f h = (f t refl, h)

Distinct-add :
    (o : Option DeviceTarget) (targets : List DeviceTarget)
    → ((t : DeviceTarget) → o ≡ some t → All (λ y. y ≢ t.id) (ids targets))
    → Distinct (ids targets)
    → Distinct (ids (add_target o targets))
Distinct-add none targets f h = h
Distinct-add (some t) targets f h = (f t refl, h)

other_ids :
    (hub : Listener) (rec : DongleRecord) (reg : Registry)
    → IsKeyed reg
    → contains rec.pn reg ≡ false
    → All (λ r. r.legacy_id ≡ []) (values reg)
    → All (λ y. y ≢ child_id rec) (ids (collect_targets hub (values reg)))
other_ids hub rec [] k c l = tt
other_ids hub rec ((pn, r) ∷ reg) k c l =
    All-add (child_target hub r) (collect_targets hub (values reg))
      (λ t e same.
        let pns = child_id-injective r rec (sym (target_id hub r l.0 e) ∙ same) in
        ground (arith, pns.0, list_beq_iff pn rec.pn))
      (other_ids hub rec reg k.2 (ground arith) l.1)

-- Without migrated entries, in a registry with each record under its own PN and each PN once,
-- no two poll targets share an identity.
pub targets-Distinct :
    (hub : Listener) (reg : Registry)
    → IsKeyed reg
    → All (λ r. r.legacy_id ≡ []) (values reg)
    → Distinct (ids (build_child_targets hub reg))
unfolding build_child_targets
targets-Distinct hub [] k l = tt
targets-Distinct hub ((pn, r) ∷ reg) k l =
    Distinct-add (child_target hub r) (collect_targets hub (values reg))
      (λ t e.
        subst (λ (i : Text). All (λ y. y ≢ i) (ids (collect_targets hub (values reg))))
          (sym (target_id hub r l.0 e))
          (other_ids hub r reg k.2 (ap (λ (i : Text). contains i reg) k.0 ∙ k.1) l.1))
      (targets-Distinct hub reg k.2 l.1)
