-- ===== src/Examples/Locks.antt =====
-- Callers of the in-memory lock manager.
use event_store.Prelude.{
  string_eq, nat_eq, pair_eq, ℕ, ◌≤◌, ◌≡◌, refl, String, [], ◌∷◌, map, any, ◌==◌, count,
}
use event_store.Processing.Locks.{
  InMemoryLockManager, new_manager, control, acquire, wait, stop_waiting, release, forget,
  is_locked, granted, released, Step, tries, waits, woken,
}
use event_store.Processing.Locks.Trying.{Tries, done, then_, Tries-exclusive}
use event_store.Processing.Locks.Refusing.{is_locked-held}

abbrev one_holder : InMemoryLockManager
one_holder = record {
  next = 1;
  locks = ("a", 0) ∷ [];
  held = ("a", 0) ∷ [];
  waiting = [];
  expired = [];
}

one_holder-Tries : Tries new_manager one_holder
unfolding new_manager control acquire is_locked
one_holder-Tries = then_ done (granted new_manager "a" refl)

Tries-exclusive_example : count "a" (map (λ (h : String × ℕ). h.0) one_holder.held) ≤ 1
Tries-exclusive_example = Tries-exclusive one_holder "a" one_holder-Tries

is_locked-held_example :
    is_locked (control one_holder "a").1 (control one_holder "a").0
    ≡ any (λ (h : String × ℕ). h.0 == "a") one_holder.held
is_locked-held_example = is_locked-held one_holder "a" one_holder-Tries

-- A caller holds `a` while another waits for it.
abbrev one_waiting : InMemoryLockManager
one_waiting = record {
  next = 1;
  locks = ("a", 0) ∷ [];
  held = ("a", 0) ∷ [];
  waiting = ("a", 0) ∷ [];
  expired = [];
}

one_waiting-Step : Step one_holder one_waiting
unfolding control wait
one_waiting-Step = waits one_holder "a"

-- The holder releases and the dictionary loses the object that the other waits for.
abbrev one_left : InMemoryLockManager
one_left = record { next = 1; locks = []; held = []; waiting = ("a", 0) ∷ []; expired = [] }

one_left-Step : Step one_waiting one_left
unfolding release forget
one_left-Step = tries (released one_waiting "a" 0 refl)

-- The other has the old object now.
abbrev one_woken : InMemoryLockManager
one_woken = record { next = 1; locks = []; held = ("a", 0) ∷ []; waiting = []; expired = [] }

one_woken-Step : Step one_left one_woken
unfolding is_locked acquire stop_waiting
one_woken-Step = woken one_left "a" 0 refl refl

-- A third caller is granted a new one: `a` has two holders.
abbrev two_holders : InMemoryLockManager
two_holders = record {
  next = 2;
  locks = ("a", 1) ∷ [];
  held = ("a", 1) ∷ ("a", 0) ∷ [];
  waiting = [];
  expired = [];
}

two_holders-Step : Step one_woken two_holders
unfolding control acquire is_locked
two_holders-Step = tries (granted one_woken "a" refl)
