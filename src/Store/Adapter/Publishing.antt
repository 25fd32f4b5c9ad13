-- ===== src/Store/Adapter/Publishing.antt =====
-- The loop over the events of a save numbers them as the specification does.
use mathlib.Core.List.{append-nil, append_assoc}
use native.Mathlib.Nat.{add-zero, add-suc, suc-add}
use event_store.Prelude.{
  ℕ, suc, ◌+◌, ◌≤◌, ◌≡◌, refl, ap, ◌∙◌, ℤ, pos, ◌+ℤ◌, String, List, [], ◌∷◌, ◌++◌, arith, length,
  Result, ok, err, ◌>>=◌, Result-cases, inl, inr, Error,
}
use event_store.Types.Conversion.{raising, serialise_to_string, serialise_to_json_value}
use event_store.Types.Event.{SerialisedEvent}
use event_store.Store.Db.{StreamIdentifier, Transaction, add_to}
use event_store.Store.Adapter.{
  EventToStore, NewStoredEvent, Progress, and_then, serialise_event, stored_event, store_events,
}
use event_store.Store.Adapter.Specification.{kept, serialise_all, event_at_position, numbered}

-- The code's copy of an event is what the specification keeps.
serialise_event-kept : (event : NewStoredEvent) → serialise_event event ≡ kept event
unfolding serialise_event kept
serialise_event-kept event = elim (Result-cases (serialise_to_string event.name raising)) [
  | inl (name, p) ↦ elim (Result-cases (serialise_to_json_value event.payload raising)) [
    | inl (payload, q) ↦ rw (p, kept) (rw (q, kept) refl)
    | inr (e, q) ↦ rw (p, kept) (rw (q, kept) refl)
  ]
  | inr (e, p) ↦ rw (p, kept) refl
]

-- A progress that has stored these events and added these to the transaction.
abbrev pub stored_so_far : {A : Type 0} → A → List SerialisedEvent → ℕ → Transaction → Progress A
stored_so_far stored serialised sequence t = record {
  result = ok stored;
  sequence = sequence;
  transaction = record t { added_events = t.added_events ++ serialised };
}

-- All events are stored, or the first that cannot be serialised ends the loop, and the numbers up
-- to its own are taken.
abbrev pub Stores :
    List NewStoredEvent
    → ℕ
    → ℕ
    → Transaction
    → Result (List SerialisedEvent)
    → Progress (List NewStoredEvent)
    → Type 0
Stores stored n sequence t (ok serialised) p = p ≡ stored_so_far stored serialised (sequence + n) t
Stores stored n sequence t (err e) p =
    (p.result ≡ err e) × (sequence ≤ p.sequence) × (p.sequence ≤ sequence + n)

-- One more event in front of the rest of the loop.
abbrev with_event : NewStoredEvent → Progress (List NewStoredEvent) → Progress (List NewStoredEvent)
with_event event p = and_then p (λ stored sequence' t'. record {
  result = ok (event ∷ stored);
  sequence = sequence';
  transaction = t';
})

Stores-cons :
    (event : NewStoredEvent) (s : SerialisedEvent) (stored : List NewStoredEvent) (n sequence : ℕ)
    (t : Transaction) (r : Result (List SerialisedEvent)) (p : Progress (List NewStoredEvent))
    → Stores stored n (suc sequence) (add_to t s) r p
    → Stores (event ∷ stored) (suc n) sequence t (r >>= λ rest. ok (s ∷ rest)) (with_event event p)
unfolding and_then add_to
Stores-cons event s stored n sequence t (ok serialised) p h =
    rw h (rw (suc-add, add-suc) (rw append_assoc))
Stores-cons event s stored n sequence t (err e) p h =
    (rw (h.0, and_then), rw (h.0, and_then) (omega arith), rw (h.0, and_then) (omega arith))

module _ (uuid4_hex : ℕ → String) (target : StreamIdentifier) (last : ℤ) (base : ℕ)
    (counts : (c : ℕ) → last +ℤ pos c +ℤ pos 1 ≡ pos (base + c)) where
  stored_event-eq :
      (count sequence : ℕ) (e : EventToStore)
      → stored_event uuid4_hex target last count sequence e
        ≡ event_at_position uuid4_hex target (pos (base + count)) sequence e
  unfolding stored_event event_at_position
  stored_event-eq count sequence e = rw (counts count)

  store_events-ok :
      (count sequence : ℕ) (e : EventToStore) (events : List EventToStore) (t : Transaction)
      (s : SerialisedEvent)
      → serialise_event (stored_event uuid4_hex target last count sequence e) ≡ ok s
      → store_events uuid4_hex target last count (e ∷ events) sequence t
        ≡ with_event
            (stored_event uuid4_hex target last count sequence e)
            (store_events uuid4_hex target last (suc count) events (suc sequence) (add_to t s))
  unfolding store_events and_then
  store_events-ok count sequence e events t s q = rw (q, store_events)

  store_events-err :
      (count sequence : ℕ) (e : EventToStore) (events : List EventToStore) (t : Transaction)
      (x : Error)
      → serialise_event (stored_event uuid4_hex target last count sequence e) ≡ err x
      → store_events uuid4_hex target last count (e ∷ events) sequence t
        ≡ record { result = err x; sequence = suc sequence; transaction = t }
  unfolding store_events
  store_events-err count sequence e events t x q = rw (q, store_events)

  pub store_events-Stores :
      (count : ℕ) (events : List EventToStore) (sequence : ℕ) (t : Transaction)
      → Stores
          (numbered uuid4_hex target (base + count) sequence events)
          (length events)
          sequence
          t
          (serialise_all (numbered uuid4_hex target (base + count) sequence events))
          (store_events uuid4_hex target last count events sequence t)
  unfolding store_events numbered serialise_all
  store_events-Stores count [] sequence t = rw (add-zero, append-nil)
  store_events-Stores count (e ∷ events) sequence t = elim (Result-cases (kept event)) [
    | inl (s, q) ↦ rw (store_events-ok count sequence e events t s (copied ∙ q)) (
        rw same (
          rw q (
            Stores-cons event s _ (length events) sequence t _ _ (
              rw add-suc at (store_events-Stores (suc count) events (suc sequence) (add_to t s))))))
    | inr (x, q) ↦
        rw (store_events-err count sequence e events t x (copied ∙ q))
          (rw q (refl, omega arith, omega arith))
  ]
    where
      event : NewStoredEvent
      event = event_at_position uuid4_hex target (pos (base + count)) sequence e

      same : stored_event uuid4_hex target last count sequence e ≡ event
      same = stored_event-eq count sequence e

      copied : serialise_event (stored_event uuid4_hex target last count sequence e) ≡ kept event
      copied = ap serialise_event same ∙ serialise_event-kept event
