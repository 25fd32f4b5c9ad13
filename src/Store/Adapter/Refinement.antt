-- ===== src/Store/Adapter/Refinement.antt =====
-- The adapter implements the append-only log: what a save to a stream does on every branch, and
-- what the reads return.
use native.Mathlib.Nat.{add-zero}
use event_store.Prelude.{
  ℤ, Error, ℕ, ◌+◌, ◌≤◌, ◌<◌, ◌≡◌, refl, ap, ◌∙◌, subst, String, List, [], ◌++◌, arith, length,
  last?, Result, ok, err, ◌>>=◌, ◌>>◌, Result-cases, inl, inr, >>=-eq-ok, ok-injective, All-map,
}
use event_store.Types.Event.{SerialisedEvent}
use event_store.Sources.{convert_constraint}
use event_store.Store.Conditions.{WriteCondition}
use event_store.Store.Enforcers.{convert, assert_satisfied}
use event_store.Store.Db.{
  StreamIdentifier, Transaction, transaction, commit, add_all, key, last_stream_position,
  position_or_none,
}
use event_store.Store.Db.Represents.{Log, Represents, Represents-new_db}
use event_store.Store.Db.Reads.{last_stream_event-eq}
use event_store.Store.Adapter.{
  Adapter, EventToStore, NewStoredEvent, Progress, checked_position, publish, finish, store_events,
  save_to_stream, new_adapter,
}
use event_store.Store.Adapter.Positions.{count_from, IsCounted, next_position}
use event_store.Store.Adapter.Specification.{own, IsValid, saved, numbered, serialise_all}
use event_store.Store.Adapter.Publishing.{Stores, stored_so_far, store_events-Stores}
use event_store.Store.Adapter.Appending.{Follows, serialise_all-Follows, IsValid-append}

-- One stream's part of a save does what the specification says: it ends with the stored events and
-- the transaction holds their copies, or it raises the same exception, with some numbers taken.
abbrev pub Publishes :
    {A : Type 0} → ℕ → ℕ → Transaction → Result (A × List SerialisedEvent) → Progress A → Type 0
Publishes n sequence t (ok (stored, serialised)) p =
    p ≡ stored_so_far stored serialised (sequence + n) t
Publishes n sequence t (err e) p =
    (p.result ≡ err e) × (sequence ≤ p.sequence) × (p.sequence ≤ sequence + n)

-- What a save has done to the log, and what it answered: it has appended the new events and
-- returned them, or it has raised the exception and left the log alone.
abbrev pub SavesAs :
    {A : Type 0} → Adapter → Log → Result (A × List SerialisedEvent) → Result A × Adapter → Type 0
SavesAs a l (ok (stored, serialised)) (result, a') =
    (result ≡ ok stored) × IsValid a' (l ++ serialised)
SavesAs a l (err e) (result, a') = (result ≡ err e) × (a'.db ≡ a.db) × IsValid a' l

-- Numbers that are taken and not used leave a valid adapter.
pub IsValid-take_numbers :
    (a : Adapter) (l : Log) (m : ℕ)
    → IsValid a l
    → a.sequence ≤ m
    → IsValid (record a { sequence = m }) l
IsValid-take_numbers a l m v h = record {
  represents = v.represents;
  contiguous = v.contiguous;
  below = All-map (λ x (p : x.sequence_number < a.sequence). omega arith) l v.below;
  increasing = v.increasing;
}

pub finish-SavesAs :
    {A : Type 0} (a : Adapter) (l : Log) (n : ℕ) (r : Result (A × List SerialisedEvent))
    (p : Progress A)
    → IsValid a l
    → ((stored : A) (s : List SerialisedEvent)
        → r ≡ ok (stored, s)
        → IsValid (record { sequence = a.sequence + n; db = add_all a.db s }) (l ++ s))
    → Publishes n a.sequence (transaction a.db) r p
    → SavesAs a l r (finish a p)
unfolding finish transaction commit
finish-SavesAs a l n (ok (stored, s)) p v valid h = rw h (refl, valid stored s refl)
finish-SavesAs a l n (err e) p v valid h =
    rw (h.0, finish) (refl, refl, IsValid-take_numbers a l p.sequence v h.1)

Stores-Publishes :
    (stored : List NewStoredEvent) (n sequence : ℕ) (t : Transaction)
    (r : Result (List SerialisedEvent)) (p : Progress (List NewStoredEvent))
    → Stores stored n sequence t r p
    → Publishes n sequence t (r >>= λ s. ok (stored, s)) p
Stores-Publishes stored n sequence t (ok s) p h = h
Stores-Publishes stored n sequence t (err e) p h = h

checked_position-eq :
    (t : Transaction) (l : Log) (target : StreamIdentifier) (condition : WriteCondition)
    → Represents t.db l
    → checked_position t target condition ≡ (
        assert_satisfied (convert condition) (last? (own target l))
        >> ok (position_or_none (last? (own target l))))
unfolding checked_position last_stream_position
checked_position-eq t l target _ r = rw (last_stream_event-eq t.db l r target)

module _ (uuid4_hex : ℕ → String) where
  publish-ok :
      (t : Transaction) (target : StreamIdentifier) (events : List EventToStore)
      (condition : WriteCondition) (sequence : ℕ) (last : ℤ)
      → checked_position t target condition ≡ ok last
      → publish uuid4_hex target events condition sequence t
        ≡ store_events uuid4_hex target last 0 events sequence t
  unfolding publish
  publish-ok t target events _ sequence last q = rw (q, publish)

  publish-err :
      (t : Transaction) (target : StreamIdentifier) (events : List EventToStore)
      (condition : WriteCondition) (sequence : ℕ) (e : Error)
      → checked_position t target condition ≡ err e
      → publish uuid4_hex target events condition sequence t
        ≡ record { result = err e; sequence = sequence; transaction = t }
  unfolding publish
  publish-err t target events _ sequence e q = rw (q, publish)

  pub publish-Publishes :
      (t : Transaction) (l : Log) (target : StreamIdentifier) (events : List EventToStore)
      (condition : WriteCondition) (sequence : ℕ)
      → Represents t.db l
      → IsCounted (own target l)
      → Publishes
          (length events)
          sequence
          t
          (saved uuid4_hex l sequence target events condition)
          (publish uuid4_hex target events condition sequence t)
  unfolding saved
  publish-Publishes t l target events condition sequence r c =
      elim (Result-cases (assert_satisfied (convert condition) (last? (own target l)))) [
        | inl (u, q) ↦ rw q (
            rw
              (publish-ok t target events condition sequence
                (position_or_none (last? (own target l)))
                (checked_position-eq t l target condition r ∙ rw q))
              (Stores-Publishes _ (length events) sequence t _ _ (
                rw add-zero at (
                  store_events-Stores uuid4_hex target (position_or_none (last? (own target l)))
                    (length (own target l)) (λ n. next_position (own target l) n c) 0 events
                    sequence t))))
        | inr (e, q) ↦ rw q (
            rw
              (publish-err t target events condition sequence e
                (checked_position-eq t l target condition r ∙ rw q))
              (refl, omega arith, omega arith))
      ]

  pub saved-Follows :
      (l : Log) (sequence : ℕ) (target : StreamIdentifier) (events : List EventToStore)
      (condition : WriteCondition) (stored : List NewStoredEvent) (s : List SerialisedEvent)
      → saved uuid4_hex l sequence target events condition ≡ ok (stored, s)
      → Follows target (length (own target l)) sequence s × (length s ≡ length events)
  unfolding saved
  saved-Follows l sequence target events condition stored s h =
      let (_, _, h') =
        >>=-eq-ok (assert_satisfied (convert condition) (last? (own target l))) _ h in
      let (s', q, h'') =
        >>=-eq-ok
          (serialise_all (numbered uuid4_hex target (length (own target l)) sequence events)) _
          h' in
      let same : s' ≡ s = ap (λ x. x.1) (ok-injective h'') in
      serialise_all-Follows uuid4_hex target (length (own target l)) sequence events s
        (q ∙ ap ok same)

  -- What the specification appends keeps the adapter valid, with the numbers taken.
  pub saved-IsValid :
      (a : Adapter) (l : Log) (target : StreamIdentifier) (events : List EventToStore)
      (condition : WriteCondition) (stored : List NewStoredEvent) (s : List SerialisedEvent)
      → IsValid a l
      → saved uuid4_hex l a.sequence target events condition ≡ ok (stored, s)
      → IsValid (record { sequence = a.sequence + length events; db = add_all a.db s }) (l ++ s)
  saved-IsValid a l target events condition stored s v h =
      let (f, size) = saved-Follows l a.sequence target events condition stored s h in
      subst (λ m. IsValid (record { sequence = a.sequence + m; db = add_all a.db s }) (l ++ s)) size
        (IsValid-append a l target s v f)

  -- From a valid adapter a save to a stream does what the specification says, on every branch: the
  -- new events are numbered on from the stream's last position and from the sequence, appended to
  -- the log, and returned; or, if the condition does not hold or an event cannot be serialised, the
  -- exception is raised and nothing is appended. The adapter stays valid.
  pub save_to_stream-SavesAs :
      (a : Adapter) (l : Log) (target : StreamIdentifier) (events : List EventToStore)
      (condition : WriteCondition)
      → IsValid a l
      → SavesAs a l
          (saved uuid4_hex l a.sequence target events condition)
          (save_to_stream uuid4_hex a target events condition)
  unfolding save_to_stream transaction
  save_to_stream-SavesAs a l target events condition v =
      finish-SavesAs a l (length events) _ _ v
        (λ stored s h. saved-IsValid a l target events condition stored s v h)
        (publish-Publishes (transaction a.db) l target events condition a.sequence v.represents
          (v.contiguous (key target)))

-- A new adapter holds the empty log.
pub IsValid-new_adapter : IsValid new_adapter []
unfolding new_adapter count_from
IsValid-new_adapter = record {
  represents = Represents-new_db convert_constraint;
  contiguous = λ k. refl;
  below = tt;
  increasing = tt;
}
