-- ===== src/Store/Db/Represents.antt =====
-- The database seen as an append-only log of events: which log a database represents, and that
-- adding an event appends it.
use mathlib.Core.List.{map-append, append-nil}
use event_store.Prelude.{
  ℕ, ◌+◌, ◌-◌, ◌<◌, ◌≡◌, refl, ap, ◌≢◌, inl, inr, String, Bool, Option, none, some, List, [], ◌∷◌,
  ◌++◌, map, arith, length, get_elem?, set, replicate, HasEquality, ◌==◌, pair_eq, string_eq,
  select, All, All-append, select-append, length-append, length-replicate, get_elem?-set_self,
  get_elem?-set_ne, get_elem?-append_left, Bool-cases, ◌∙◌, sym,
}
use event_store.Types.Event.{SerialisedEvent}
use event_store.Sources.{QueryConstraint, QueryConstraintCheck}
use event_store.Store.Db.{EventsDb, StreamKey, new_db, index_append, grown, add}

abbrev pub Log : Type 0
Log = List SerialisedEvent

abbrev pub sequence_numbers : Log → List ℕ
sequence_numbers = map (λ e. e.sequence_number)

abbrev pub in_category : String → SerialisedEvent → Bool
in_category c event = event.category == c

abbrev pub in_stream : StreamKey → SerialisedEvent → Bool
in_stream k event = (event.category, event.stream) == k

-- The slot of an event's sequence number holds the event.
abbrev pub IsStored : List (Option SerialisedEvent) → SerialisedEvent → Type 0
IsStored events e = get_elem? events e.sequence_number ≡ some (some e)

-- The events of the log are stored, and each index lists its part of the log in the log's order.
pub record Represents (db : EventsDb) (events : Log) : Type 0 where
  pub stored : All (IsStored db.events) events
  pub by_log : db.log_index ≡ sequence_numbers events
  pub by_category :
      (c : String) → db.category_index c ≡ sequence_numbers (select (in_category c) events)
  pub by_stream :
      (k : StreamKey) → db.stream_index k ≡ sequence_numbers (select (in_stream k) events)

-- No event of the log has the number.
abbrev pub IsFresh : ℕ → Log → Type 0
IsFresh n = All (λ e. e.sequence_number ≢ n)

pub Represents-new_db :
    (converter : QueryConstraint → QueryConstraintCheck SerialisedEvent)
    → Represents (new_db converter) []
unfolding new_db
Represents-new_db converter = record {
  stored = tt;
  by_log = refl;
  by_category = λ c. refl;
  by_stream = λ k. refl;
}

grown-length : (events : List (Option SerialisedEvent)) (n : ℕ) → n < length (grown events n)
unfolding grown
grown-length events n = ground (
  arith,
  length-append events (replicate (n - length events + 1) none),
  length-replicate {A = Option SerialisedEvent} (n - length events + 1) none,
)

grown-IsStored :
    (events : List (Option SerialisedEvent)) (n : ℕ) (e : SerialisedEvent)
    → IsStored events e
    → IsStored (grown events n) e
unfolding grown
grown-IsStored events n e h = ground (
  arith,
  get_elem?-append_left events (replicate (n - length events + 1) none) e.sequence_number (some e),
)

set-IsStored :
    (events : List (Option SerialisedEvent)) (n : ℕ) (slot : Option SerialisedEvent) (l : Log)
    → IsFresh n l
    → All (IsStored events) l
    → All (IsStored (set (grown events n) n slot)) l
set-IsStored events n slot [] f h = tt
set-IsStored events n slot (e ∷ l) f h = (
  get_elem?-set_ne (grown events n) n e.sequence_number slot (λ p. f.0 (sym p))
      ∙ grown-IsStored events n e h.0,
  set-IsStored events n slot l f.1 h.1,
)

-- One more event in the index of its key, and none elsewhere.
index_append-select {ℓ} :
    {K : Type ℓ} ⦃q : HasEquality K⦄ (index : K → List ℕ) (key : SerialisedEvent → K)
    (event : SerialisedEvent) (l : Log)
    → ((k : K) → index k ≡ sequence_numbers (select (λ e. key e == k) l))
    → (k : K)
    → index_append index (key event) event.sequence_number k
      ≡ sequence_numbers (select (λ e. key e == k) (l ++ event ∷ []))
unfolding index_append
index_append-select ⦃q⦄ index key event l h k = elim (Bool-cases (key event == k)) [
  | inl e ↦
      rw (select-append, map-append)
        (rw e (
          ap (λ t. t ++ event.sequence_number ∷ [])
            (ap index ((q.test_iff (key event) k).0 e) ∙ h k)))
  | inr e ↦ rw (select-append, map-append) (rw e (h k ∙ sym (append-nil _)))
]

-- To add an event with a fresh sequence number is to append it to the log.
pub Represents-add :
    (db : EventsDb) (l : Log) (event : SerialisedEvent)
    → IsFresh event.sequence_number l
    → Represents db l
    → Represents (add db event) (l ++ event ∷ [])
unfolding add
Represents-add db l event f r = record {
  stored =
      All-append
        (IsStored (set (grown db.events event.sequence_number) event.sequence_number (some event)))
        l (event ∷ []) (set-IsStored db.events event.sequence_number (some event) l f r.stored)
        (get_elem?-set_self _ _ _ (grown-length db.events event.sequence_number), tt);
  by_log = rw r.by_log (sym (map-append _ l (event ∷ [])));
  by_category = index_append-select db.category_index (λ e. e.category) event l r.by_category;
  by_stream = index_append-select db.stream_index (λ e. (e.category, e.stream)) event l r.by_stream;
}
