-- ===== src/Bus/Owners.antt =====
-- Reference counts: a queue exists exactly as long as an entry uses it.
use home_assistant_dess_moni.Base.{
  ℕ, ◌+◌, ◌-◌, ◌≡◌, refl, ap, sym, ◌∙◌, arith, Bool, true, false, List, [], ◌∷◌, leb, ltb,
  if◌then◌else◌, list_eq, nat_eq, ◌==◌, ==_refl, list_beq_iff, Bool-cases, inl, inr,
}
use home_assistant_dess_moni.Base.Text.{Text}
use home_assistant_dess_moni.Base.Dict.{
  Dict, lookup_or, insert, erase, contains, lookup-insert, lookup-erase,
}
use home_assistant_dess_moni.Bus.Queue.{new_queue}
use home_assistant_dess_moni.Bus.Registry.{
  QueueRegistry, owns, with_queue, release_key, release_keys,
}

abbrev pub one_if : Bool → ℕ
one_if true = 1
one_if false = 0

-- How many entries own the key.
abbrev pub owners : Text → Dict Text (List Text) → ℕ
owners key [] = 0
owners key ((e, owned) ∷ d) = one_if (owns key owned) + owners key d

abbrev pub IsKeySet : List Text → Type 0
IsKeySet [] = Unit
IsKeySet (k ∷ ks) = (owns k ks ≡ false) × IsKeySet ks

-- Each entry once, with a set of keys.
abbrev pub IsUnique : Dict Text (List Text) → Type 0
IsUnique [] = Unit
IsUnique ((e, owned) ∷ d) = (contains e d ≡ false) × IsKeySet owned × IsUnique d

pub owners-insert :
    (key e : Text) (l : List Text) (d : Dict Text (List Text))
    → owners key (insert e l d) + one_if (owns key (lookup_or e [] d))
      ≡ owners key d + one_if (owns key l)
owners-insert key e l [] = omega arith
owners-insert key e l ((j, owned) ∷ d) = elim (Bool-cases (j == e)) [
  | inl p ↦ ground arith
  | inr p ↦ ground (arith, owners-insert key e l d)
]

erase_absent : (e : Text) (d : Dict Text (List Text)) → contains e d ≡ false → erase e d ≡ d
erase_absent e [] h = refl
erase_absent e ((j, owned) ∷ d) h = ground (arith, erase_absent e d)

pub owners-erase :
    (key e : Text) (d : Dict Text (List Text))
    → IsUnique d
    → owners key (erase e d) + one_if (owns key (lookup_or e [] d)) ≡ owners key d
owners-erase key e [] u = refl
owners-erase key e ((j, owned) ∷ d) (n, s, u) = elim (Bool-cases (j == e)) [
  | inl p ↦ ground (
    arith,
    ap (λ (x : Text). contains x d) ((list_beq_iff j e).0 p),
    ap (λ (x : Dict Text (List Text)). owners key x)
        (erase_absent e d (ap (λ (x : Text). contains x d) (sym ((list_beq_iff j e).0 p)) ∙ n)),
  )
  | inr p ↦ ground (arith, owners-erase key e d u)
]

-- The counts, where key `k` has `n k` owners.
abbrev pub IsCounted : (Text → ℕ) → QueueRegistry → Type 0
IsCounted n reg =
    (k : Text)
    → (lookup_or k 0 reg.refcount ≡ n k)
      × (contains k reg.refcount ≡ ltb 0 (n k))
      × (contains k reg.queues ≡ ltb 0 (n k))

pub text_beq : (a b : Text) → a == b ≡ true → a ≡ b
text_beq a b = (list_beq_iff a b).0

lookup_or-present :
    (key : Text) (d : Dict Text ℕ) → contains key d ≡ true → lookup_or key 1 d ≡ lookup_or key 0 d
lookup_or-present key d h = ground arith

release_key-IsCounted :
    (n : Text → ℕ) (key : Text) (reg : QueueRegistry)
    → IsCounted (λ k. n k + one_if (key == k)) reg
    → IsCounted n (release_key key reg)
unfolding release_key
release_key-IsCounted n key reg h k =
    let (count, known, queued) = h key in
    let left : lookup_or key 1 reg.refcount - 1 ≡ n key =
      ground (arith, lookup_or-present key reg.refcount, ==_refl key) in
    elim (Bool-cases (leb (lookup_or key 1 reg.refcount - 1) 0)) [
      | inl e ↦ ground (
        arith,
        lookup-erase key k reg.refcount,
        lookup-erase key k reg.queues,
        text_beq key k,
        ap n {x = key} {y = k},
        h k,
      )
      | inr e ↦ ground (
        arith,
        lookup-insert key k (lookup_or key 1 reg.refcount - 1) reg.refcount,
        text_beq key k,
        ==_refl key,
        ap n {x = key} {y = k},
        ap (λ (x : Text). contains x reg.queues) {x = key} {y = k},
        h k,
      )
    ]

pub release_keys-IsCounted :
    (n : Text → ℕ) (keys : List Text) (reg : QueueRegistry)
    → IsKeySet keys
    → IsCounted (λ k. n k + one_if (owns k keys)) reg
    → IsCounted n (release_keys keys reg)
release_keys-IsCounted n [] reg s h = λ k. (let (a, b, c) = h k in ground arith)
release_keys-IsCounted n (key ∷ keys) reg (absent, s) h =
    release_keys-IsCounted n keys (release_key key reg) s (
      release_key-IsCounted (λ k. n k + one_if (owns k keys)) key reg
        (λ k.
          ground (arith, h k, text_beq key k, ap (λ (x : Text). owns x keys) {x = key} {y = k})))

pub with_queue-IsCounted :
    (n : Text → ℕ) (key : Text) (reg : QueueRegistry)
    → IsCounted n reg
    → (k : Text)
    → (lookup_or k 0 (with_queue key reg).refcount ≡ n k)
      × (contains k (with_queue key reg).queues ≡ contains k (with_queue key reg).refcount)
      × (contains k (with_queue key reg).queues ≡ (if key == k then true else ltb 0 (n k)))
unfolding with_queue
with_queue-IsCounted n key reg h k = elim (Bool-cases (contains key reg.queues)) [
  | inl e ↦ ground (
    arith,
    h k,
    h key,
    text_beq key k,
    ap (λ (x : Text). contains x reg.queues) {x = key} {y = k},
  )
  | inr e ↦ ground (
    arith,
    h k,
    h key,
    text_beq key k,
    ap n {x = key} {y = k},
    lookup-insert key k 0 reg.refcount,
    lookup-insert key k new_queue reg.queues,
  )
]
