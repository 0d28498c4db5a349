-- ===== src/Ring/Recent.antt =====
-- A bounded buffer holds the latest items, in the order of their arrival.
use home_assistant_dess_moni.Base.{
  ℕ, zero, suc, ◌+◌, ◌-◌, ◌≤◌, ◌≡◌, refl, ap, sym, ◌∙◌, arith, List, [], ◌∷◌, ◌++◌, none, length,
  drop, length-append, length-drop, append-nil, append_assoc, list_eq, nat_eq, list_beq_iff, Bool,
  true, false, Bool-cases, inl, inr, ◌==◌, if◌then◌else◌,
}
use home_assistant_dess_moni.Base.Text.{Text}
use home_assistant_dess_moni.Base.Dict.{lookup, lookup_or, lookup_or-insert}
use home_assistant_dess_moni.Ring.Log.{append_bounded, FrameRecord, FrameLog, log_frame}

module _ {ℓ} {A : Type ℓ} where
  -- The last `n` items.
  abbrev pub latest : ℕ → List A → List A
  latest n xs = drop (length xs - n) xs

  drop_nil : (n : ℕ) → drop {A = A} n [] ≡ []
  drop_nil zero = refl
  drop_nil (suc n) = refl

  drop-drop : (m n : ℕ) (xs : List A) → drop m (drop n xs) ≡ drop (n + m) xs
  drop-drop m zero xs = ap (λ (k : ℕ). drop k xs) {y = zero + m} (omega arith)
  drop-drop m (suc n) [] = drop_nil m ∙ sym (drop_nil (suc n + m))
  drop-drop m (suc n) (x ∷ xs) =
      drop-drop m n xs ∙ ap (λ (k : ℕ). drop k (x ∷ xs)) {x = suc (n + m)} (omega arith)

  drop_before : (n : ℕ) (xs ys : List A) → n ≤ length xs → drop n (xs ++ ys) ≡ drop n xs ++ ys
  drop_before zero xs ys h = refl
  drop_before (suc n) [] ys h = absurd (omega arith)
  drop_before (suc n) (x ∷ xs) ys h = drop_before n xs ys (omega arith)

  append_bounded-latest :
      (n : ℕ) (xs : List A) (x : A) → append_bounded n (latest n xs) x ≡ latest n (xs ++ (x ∷ []))
  unfolding append_bounded
  append_bounded-latest n xs x =
      let k = length xs - n in
      let full = drop k xs ++ (x ∷ []) in
      let joined : full ≡ drop k (xs ++ (x ∷ [])) = sym (drop_before k xs (x ∷ []) (omega arith)) in
      let size : length full ≡ length xs - k + 1 =
        omega (arith, length-append (drop k xs) (x ∷ []), length-drop k xs) in
      ap (λ (l : List A). drop (length full - n) l) joined
      ∙ drop-drop (length full - n) k (xs ++ (x ∷ []))
      ∙ ap (λ (m : ℕ). drop m (xs ++ (x ∷ []))) (omega (arith, length-append xs (x ∷ []), size))

-- Frames that are recorded one after the other, each for its command.
abbrev pub log_all : FrameLog → List (Text × FrameRecord) → FrameLog
log_all frames [] = frames
log_all frames ((command, entry) ∷ entries) = log_all (log_frame frames command entry) entries

-- Those of one command.
abbrev pub entries_of : Text → List (Text × FrameRecord) → List FrameRecord
entries_of command [] = []
entries_of command ((c, entry) ∷ entries) =
    let rest = entries_of command entries in if c == command then entry ∷ rest else rest

lookup-log_frame :
    (frames : FrameLog) (command c : Text) (entry : FrameRecord) (before : List FrameRecord)
    → lookup_or command [] frames ≡ latest 20 before
    → lookup_or command [] (log_frame frames c entry)
      ≡ latest 20 (if c == command then before ++ (entry ∷ []) else before)
unfolding log_frame
lookup-log_frame frames command c entry before h = elim (Bool-cases (c == command)) [
  | inl e ↦
      lookup_or-insert c command [] _ frames
      ∙ rw e (
          ap (λ (k : Text). append_bounded 20 (lookup_or k [] frames) entry)
            ((list_beq_iff c command).0 e)
          ∙ ap (λ (b : List FrameRecord). append_bounded 20 b entry) h
          ∙ append_bounded-latest 20 before entry)
  | inr e ↦ lookup_or-insert c command [] _ frames ∙ rw e h
]

moved :
    (b : Bool) (before : List FrameRecord) (entry : FrameRecord) (rest : List FrameRecord)
    → (if b then before ++ (entry ∷ []) else before) ++ rest
      ≡ before ++ (if b then entry ∷ rest else rest)
moved true before entry rest = append_assoc before (entry ∷ []) rest
moved false before entry rest = refl

log_from :
    (frames : FrameLog) (command : Text) (before : List FrameRecord)
    (entries : List (Text × FrameRecord))
    → lookup_or command [] frames ≡ latest 20 before
    → lookup_or command [] (log_all frames entries)
      ≡ latest 20 (before ++ entries_of command entries)
log_from frames command before [] h = h ∙ ap (latest 20) (sym (append-nil before))
log_from frames command before ((c, entry) ∷ entries) h =
    log_from (log_frame frames c entry) command
      (if c == command then before ++ (entry ∷ []) else before) entries
      (lookup-log_frame frames command c entry before h)
    ∙ ap (latest 20) (moved (c == command) before entry (entries_of command entries))

-- Whatever frames are recorded, for this command and for others in any order, the log of a command
-- that had none before holds the latest twenty of its own, in the order in which they came.
pub log_all-latest :
    (frames : FrameLog) (command : Text) (entries : List (Text × FrameRecord))
    → lookup command frames ≡ none
    → lookup_or command [] (log_all frames entries) ≡ latest 20 (entries_of command entries)
log_all-latest frames command entries h = log_from frames command [] entries (ground arith)
