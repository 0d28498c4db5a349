-- ===== src/Bus/Counts.antt =====
-- The reference counts after any sequence of uses and releases.
use mathlib.Core.Path.{subst}
use home_assistant_dess_moni.Base.{
  ℕ, ◌+◌, ◌-◌, ◌≡◌, refl, ap, sym, ◌∙◌, arith, true, false, List, [], ◌∷◌, leb, ltb, list_eq,
  nat_eq, ◌==◌, ==_refl, Bool-cases, inl, inr,
}
use home_assistant_dess_moni.Base.Text.{Text}
use home_assistant_dess_moni.Base.Dict.{
  Dict, lookup, lookup_or, insert, erase, contains, lookup-insert, lookup-erase,
}
use home_assistant_dess_moni.Bus.Registry.{
  QueueRegistry, new_registry, owns, with_queue, add_owner, ensure, release_key, release_keys,
  release_entry,
}
use home_assistant_dess_moni.Bus.Owners.{
  owners, IsKeySet, IsUnique, IsCounted, owners-insert, owners-erase, text_beq,
  release_keys-IsCounted, with_queue-IsCounted,
}

abbrev counts : QueueRegistry → Text → ℕ
counts reg k = owners k reg.entry_keys

insert-IsUnique :
    (e : Text) (l : List Text) (d : Dict Text (List Text))
    → IsKeySet l
    → IsUnique d
    → IsUnique (insert e l d)
insert-IsUnique e l [] s u = (refl, s, tt)
insert-IsUnique e l ((j, owned) ∷ d) s (n, t, u) = elim (Bool-cases (j == e)) [
  | inl p ↦ rw p (n, s, u)
  | inr p ↦
      rw p (
        ground (arith, lookup-insert e j l d, text_beq e j, ==_refl e),
        t,
        insert-IsUnique e l d s u,
      )
]

erase-IsUnique : (e : Text) (d : Dict Text (List Text)) → IsUnique d → IsUnique (erase e d)
erase-IsUnique e [] u = tt
erase-IsUnique e ((j, owned) ∷ d) (n, t, u) = elim (Bool-cases (j == e)) [
  | inl p ↦ rw p (erase-IsUnique e d u)
  | inr p ↦ rw p (ground (arith, lookup-erase e j d), t, erase-IsUnique e d u)
]

lookup-IsKeySet : (e : Text) (d : Dict Text (List Text)) → IsUnique d → IsKeySet (lookup_or e [] d)
lookup-IsKeySet e [] u = tt
lookup-IsKeySet e ((j, owned) ∷ d) (n, t, u) = elim (Bool-cases (j == e)) [
  | inl p ↦ subst IsKeySet (sym (found p)) t
  | inr p ↦ subst IsKeySet (sym (passed p)) (lookup-IsKeySet e d u)
]
  where
    found : j == e ≡ true → lookup_or e [] ((j, owned) ∷ d) ≡ owned
    found p = ground arith

    passed : j == e ≡ false → lookup_or e [] ((j, owned) ∷ d) ≡ lookup_or e [] d
    passed p = ground arith

abbrev IsSound : QueueRegistry → Type 0
IsSound reg = IsUnique reg.entry_keys × IsCounted (counts reg) reg

with_queue-entry_keys :
    (key : Text) (reg : QueueRegistry) → (with_queue key reg).entry_keys ≡ reg.entry_keys
unfolding with_queue
with_queue-entry_keys key reg = elim (Bool-cases (contains key reg.queues)) [
  | inl e ↦ ground arith
  | inr e ↦ ground arith
]

owned_lem :
    (key e : Text) (d : Dict Text (List Text))
    → owns key (lookup_or e [] d) ≡ true
    → ltb 0 (owners key d) ≡ true
owned_lem key e [] h = ground arith
owned_lem key e ((j, owned) ∷ d) h = elim (Bool-cases (j == e)) [
  | inl p ↦ ground arith
  | inr p ↦ ground (arith, owned_lem key e d)
]

ensure-IsSound : (e key : Text) (reg : QueueRegistry) → IsSound reg → IsSound (ensure e key reg)
unfolding ensure add_owner
ensure-IsSound e key reg (u, h) =
    let used = with_queue key reg in
    let same = with_queue-entry_keys key reg in
    let owned = lookup_or e [] used.entry_keys in
    let unique : IsUnique used.entry_keys = subst IsUnique (sym same) u in
    elim (Bool-cases (owns key owned)) [
      | inl p ↦ rw p (
        unique,
        λ k. ground (
          arith,
          with_queue-IsCounted (counts reg) key reg h k,
          ap (λ (d : Dict Text (List Text)). owners k d) same,
          ap (λ (d : Dict Text (List Text)). owners key d) same,
          owned_lem key e used.entry_keys p,
          text_beq key k,
          ap (λ (x : Text). owners x reg.entry_keys) {x = key} {y = k},
        ),
      )
      | inr p ↦ rw p (
        insert-IsUnique e (key ∷ owned) used.entry_keys
            (p, lookup-IsKeySet e used.entry_keys unique) unique,
        λ k. ground (
          arith,
          with_queue-IsCounted (counts reg) key reg h k,
          ap (λ (d : Dict Text (List Text)). owners k d) same,
          owners-insert k e (key ∷ owned) used.entry_keys,
          lookup-insert key k (lookup_or key 0 used.refcount + 1) used.refcount,
          text_beq key k,
          ap (λ (x : Text). owns x owned) {x = key} {y = k},
          ap (λ (x : Text). lookup x used.refcount) {x = key} {y = k},
        ),
      )
    ]

release_keys-entry_keys :
    (keys : List Text) (reg : QueueRegistry) → (release_keys keys reg).entry_keys ≡ reg.entry_keys
unfolding release_key
release_keys-entry_keys [] reg = refl
release_keys-entry_keys (key ∷ keys) reg =
    release_keys-entry_keys keys (release_key key reg)
    ∙ (elim (Bool-cases (leb (lookup_or key 1 reg.refcount - 1) 0)) [
      | inl e ↦ ground arith
      | inr e ↦ ground arith
    ])

release-IsSound : (e : Text) (reg : QueueRegistry) → IsSound reg → IsSound (release_entry e reg)
unfolding release_entry
release-IsSound e reg (u, h) =
    let d = reg.entry_keys in
    let keys = lookup_or e [] d in
    let popped : QueueRegistry = record reg { entry_keys = erase e d } in
    let same = release_keys-entry_keys keys popped in
    let counted =
      release_keys-IsCounted (λ k. owners k (erase e d)) keys popped (lookup-IsKeySet e d u)
        (λ k. ground (arith, h k, owners-erase k e d u)) in
    (
      subst IsUnique (sym same) (erase-IsUnique e d u),
      λ k. ground (arith, counted k, ap (λ (x : Dict Text (List Text)). owners k x) same),
    )

-- A use of a transport by a config entry, or the end of an entry.
pub data KeyOp : Type 0 where
  use_key : Text → Text → KeyOp
  unload : Text → KeyOp

abbrev pub run_ops : List KeyOp → QueueRegistry → QueueRegistry
run_ops [] reg = reg
run_ops (use_key entry_id key ∷ ops) reg = run_ops ops (ensure entry_id key reg)
run_ops (unload entry_id ∷ ops) reg = run_ops ops (release_entry entry_id reg)

run_ops-IsSound : (ops : List KeyOp) (reg : QueueRegistry) → IsSound reg → IsSound (run_ops ops reg)
run_ops-IsSound [] reg s = s
run_ops-IsSound (use_key entry_id key ∷ ops) reg s =
    run_ops-IsSound ops (ensure entry_id key reg) (ensure-IsSound entry_id key reg s)
run_ops-IsSound (unload entry_id ∷ ops) reg s =
    run_ops-IsSound ops (release_entry entry_id reg) (release-IsSound entry_id reg s)

-- After any sequence of uses and ends of config entries, the count of a transport is the number of
-- entries that use it, and it has a queue exactly while that is not zero.
pub refcount-owners :
    (ops : List KeyOp) (key : Text)
    → let reg = run_ops ops new_registry in
      (lookup_or key 0 reg.refcount ≡ owners key reg.entry_keys)
      × (contains key reg.queues ≡ ltb 0 (owners key reg.entry_keys))
refcount-owners ops key =
    let sound = run_ops-IsSound ops new_registry (tt, λ k. (refl, refl, refl)) in
    let (count, known, queued) = sound.1 key in (count, queued)
