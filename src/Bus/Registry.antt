-- ===== src/Bus/Registry.antt =====
-- `QueueRegistry`: the queues of the transports, and which config entries use them. A set of keys is
-- a list without repetitions.
use home_assistant_dess_moni.Base.{
  ℕ, ◌+◌, ◌-◌, Bool, false, ◌||◌, List, [], ◌∷◌, leb, if◌then◌else◌, list_eq, nat_eq, ◌==◌,
}
use home_assistant_dess_moni.Base.Text.{Text}
use home_assistant_dess_moni.Base.Dict.{Dict, lookup_or, insert, erase, contains}
use home_assistant_dess_moni.Bus.Queue.{CommandQueue, new_queue}

pub record QueueRegistry : Type 0 where
  pub queues : Dict Text CommandQueue
  pub refcount : Dict Text ℕ
  pub entry_keys : Dict Text (List Text)

abbrev pub new_registry : QueueRegistry
new_registry = record { queues = []; refcount = []; entry_keys = [] }

-- `key in owned`
abbrev pub owns : Text → List Text → Bool
owns key [] = false
owns key (k ∷ owned) = k == key || owns key owned

-- The queue of the key exists from here on.
unfoldable pub with_queue : Text → QueueRegistry → QueueRegistry
with_queue key reg = if contains key reg.queues then reg else record reg {
  queues = insert key new_queue reg.queues;
  refcount = insert key 0 reg.refcount;
}

-- The entry owns the key from here on.
unfoldable pub add_owner : Text → Text → QueueRegistry → QueueRegistry
add_owner entry_id key reg =
    let owned = lookup_or entry_id [] reg.entry_keys in
    if owns key owned then reg else record reg {
      entry_keys = insert entry_id (key ∷ owned) reg.entry_keys;
      refcount = insert key (lookup_or key 0 reg.refcount + 1) reg.refcount;
    }

-- `_ensure`, for its effect on the registry.
unfoldable pub ensure : Text → Text → QueueRegistry → QueueRegistry
ensure entry_id key reg = add_owner entry_id key (with_queue key reg)

-- One round of the loop of `release_entry`.
unfoldable pub release_key : Text → QueueRegistry → QueueRegistry
release_key key reg =
    let left = lookup_or key 1 reg.refcount - 1 in
    if leb left 0
    then record reg { refcount = erase key reg.refcount; queues = erase key reg.queues }
    else record reg { refcount = insert key left reg.refcount }

abbrev pub release_keys : List Text → QueueRegistry → QueueRegistry
release_keys [] reg = reg
release_keys (key ∷ keys) reg = release_keys keys (release_key key reg)

unfoldable pub release_entry : Text → QueueRegistry → QueueRegistry
release_entry entry_id reg =
    release_keys (lookup_or entry_id [] reg.entry_keys)
      (record reg { entry_keys = erase entry_id reg.entry_keys })
