-- ===== src/Processing/Locks.antt =====
-- src/logicblocks/event/processing/locks/memory.py: the in-memory lock manager as a state machine. A
-- step runs from one `await` to the next. A lock object is its number; `locked()` holds of one that
-- is held, and a waiter gets its object when that is free. Time is not modelled: a wait may time out
-- whenever it waits.
pub mod Trying
pub mod Refusing
use event_store.Prelude.{
  ℕ, zero, suc, String, string_eq, nat_eq, pair_eq, ◌≡◌, Bool, true, false, not, Option, none, some,
  List, [], ◌∷◌, any, select, member, HasEquality, ◌==◌, Dict, lookup, assign, pop,
}

pub record InMemoryLockManager : Type 0 where
  -- the number of the next lock object
  pub next : ℕ
  -- `self._locks`
  pub locks : Dict String ℕ
  -- the callers that hold a lock object, by the name that they asked for
  pub held : List (String × ℕ)
  -- those that wait for one
  pub waiting : List (String × ℕ)
  -- the names asked for by callers whose wait has timed out and that have not left yet
  pub expired : List String

unfoldable pub new_manager : InMemoryLockManager
new_manager = record { next = 0; locks = []; held = []; waiting = []; expired = [] }

-- `control.locked()`
unfoldable pub is_locked : InMemoryLockManager → ℕ → Bool
is_locked self control = any (λ holder. holder.1 == control) self.held

-- `self._locks[lock_name]`, of a `defaultdict`: the object, and the manager that it leaves.
unfoldable pub control : InMemoryLockManager → String → ℕ × InMemoryLockManager
control self lock_name = elim (lookup lock_name self.locks) [
  | some c ↦ (c, self)
  | none ↦ (
    self.next,
    record self { next = suc self.next; locks = assign lock_name self.next self.locks },
  )
]

unfoldable pub acquire : InMemoryLockManager → String → ℕ → InMemoryLockManager
acquire self lock_name c = record self { held = (lock_name, c) ∷ self.held }

unfoldable pub wait : InMemoryLockManager → String → ℕ → InMemoryLockManager
wait self lock_name c = record self { waiting = (lock_name, c) ∷ self.waiting }

unfoldable pub stop_waiting : InMemoryLockManager → String → ℕ → InMemoryLockManager
stop_waiting self lock_name c = record self {
  waiting = select (λ waiter. not (waiter == (lock_name, c))) self.waiting;
}

-- `self._locks.pop(lock_name)`, if it is there
unfoldable pub forget : InMemoryLockManager → String → InMemoryLockManager
forget self lock_name = record self { locks = pop lock_name self.locks }

-- What a holder does at the end.
unfoldable pub release : InMemoryLockManager → String → ℕ → InMemoryLockManager
unfolding forget
release self lock_name c =
    forget (record self { held = select (λ holder. not (holder == (lock_name, c))) self.held })
      lock_name

unfoldable pub time_out : InMemoryLockManager → String → ℕ → InMemoryLockManager
unfolding stop_waiting
time_out self lock_name c =
    let left = stop_waiting self lock_name c in record left { expired = lock_name ∷ left.expired }

-- What a caller whose wait has timed out does at the end.
unfoldable pub leave : InMemoryLockManager → String → InMemoryLockManager
unfolding forget
leave self lock_name =
    forget (record self { expired = select (λ name. not (name == lock_name)) self.expired })
      lock_name

-- The steps of `try_lock`.
pub data TryStep : InMemoryLockManager → InMemoryLockManager → Type 0 where
  refused :
      (self : InMemoryLockManager) (lock_name : String)
      → is_locked (control self lock_name).1 (control self lock_name).0 ≡ true
      → TryStep self (control self lock_name).1
  granted :
      (self : InMemoryLockManager) (lock_name : String)
      → is_locked (control self lock_name).1 (control self lock_name).0 ≡ false
      → TryStep self (acquire (control self lock_name).1 lock_name (control self lock_name).0)
  released :
      (self : InMemoryLockManager) (lock_name : String) (c : ℕ)
      → member (lock_name, c) self.held ≡ true
      → TryStep self (release self lock_name c)

-- The steps of both methods.
pub data Step : InMemoryLockManager → InMemoryLockManager → Type 0 where
  tries : {self self' : InMemoryLockManager} → TryStep self self' → Step self self'
  waits :
      (self : InMemoryLockManager) (lock_name : String)
      → Step self (wait (control self lock_name).1 lock_name (control self lock_name).0)
  woken :
      (self : InMemoryLockManager) (lock_name : String) (c : ℕ)
      → member (lock_name, c) self.waiting ≡ true
      → is_locked self c ≡ false
      → Step self (acquire (stop_waiting self lock_name c) lock_name c)
  timed_out :
      (self : InMemoryLockManager) (lock_name : String) (c : ℕ)
      → member (lock_name, c) self.waiting ≡ true
      → Step self (time_out self lock_name c)
  leaves :
      (self : InMemoryLockManager) (lock_name : String)
      → member lock_name self.expired ≡ true
      → Step self (leave self lock_name)
