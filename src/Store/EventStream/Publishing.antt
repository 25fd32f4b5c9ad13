-- ===== src/Store/EventStream/Publishing.antt =====
-- What a reader of streams sees of a publish.
use event_store.Prelude.{
  ℕ, ◌≡◌, refl, ap, sym, ◌∙◌, subst, ◌≢◌, String, List, [], ◌∷◌, ◌++◌, length, last?, select, arith,
  Result, ok, err, >>=-eq-ok, ok-injective, Result-cases, inl, inr, ◌⊎◌, Error, pair_eq, string_eq,
  beq_refl, beq_ne,
}
use event_store.Types.Event.{SerialisedEvent}
use event_store.Sources.{QueryConstraint, meets}
use event_store.Store.Conditions.{WriteCondition}
use event_store.Store.Enforcers.{convert, assert_satisfied}
use event_store.Store.Db.{StreamIdentifier, key}
use event_store.Store.Db.Represents.{Log}
use event_store.Store.Db.Reads.{scan_of, events_of}
use event_store.Store.Adapter.{
  Adapter, EventToStore, NewStoredEvent, Saved, of_stream, as_saved, save, save_to_stream,
}
use event_store.Store.Adapter.Specification.{own, IsValid, saved, serialise_all, numbered}
use event_store.Store.Adapter.Appending.{own-append}
use event_store.Store.Adapter.Refinement.{SavesAs, save_to_stream-SavesAs, saved-Follows}
use event_store.Store.Adapter.Reads.{scan-eq}
use event_store.Store.EventStream.{EventStream, log_publishing, publish, iterate}

-- With no constraint nothing is left out.
select-meets_nothing : (a : Adapter) (l : Log) → select (meets a.db.constraint_converter []) l ≡ l
unfolding meets
select-meets_nothing a [] = refl
select-meets_nothing a (e ∷ l) = ap (◌∷◌ e) (select-meets_nothing a l)

iterate-eq :
    (self : EventStream) (a : Adapter) (l : Log) (constraints : List QueryConstraint)
    → IsValid a l
    → iterate self constraints a ≡ record {
      yielded = select (meets a.db.constraint_converter constraints) (own self.identifier l);
      ended = ok tt;
    }
unfolding iterate scan_of events_of
iterate-eq self a l constraints v = scan-eq a l v _ constraints

iterate-all :
    (self : EventStream) (a : Adapter) (l : Log)
    → IsValid a l
    → iterate self [] a ≡ record { yielded = own self.identifier l; ended = ok tt }
iterate-all self a l v =
    iterate-eq self a l [] v ∙ rw (select-meets_nothing a (own self.identifier l)) refl

-- The specification's outcome, taken apart.
saved-numbered :
    (uuid4_hex : ℕ → String) (l : Log) (sequence : ℕ) (target : StreamIdentifier)
    (events : List EventToStore) (condition : WriteCondition) (stored : List NewStoredEvent)
    (s : List SerialisedEvent)
    → saved uuid4_hex l sequence target events condition ≡ ok (stored, s)
    → (stored ≡ numbered uuid4_hex target (length (own target l)) sequence events)
      × (serialise_all stored ≡ ok s)
unfolding saved
saved-numbered uuid4_hex l sequence target events condition stored s h =
    let (_, _, h') = >>=-eq-ok (assert_satisfied (convert condition) (last? (own target l))) _ h in
    let (s', q, h'') =
      >>=-eq-ok (serialise_all (numbered uuid4_hex target (length (own target l)) sequence events))
        _ h' in
    (
      sym (ap (λ (x : List NewStoredEvent × List SerialisedEvent). x.0) (ok-injective h'')),
      subst (λ (x : List NewStoredEvent × List SerialisedEvent). serialise_all x.0 ≡ ok x.1)
          (ok-injective h'') q,
    )

as_saved-ok :
    (x : Result (List NewStoredEvent) × Adapter) (stored : List NewStoredEvent)
    → (as_saved of_stream x).0 ≡ ok (of_stream stored)
    → (x.0 ≡ ok stored) × ((as_saved of_stream x).1 ≡ x.1)
unfolding as_saved
as_saved-ok (ok y, a) stored h = (ground arith, refl)
as_saved-ok (err e, a) stored h = ground arith

as_saved-adapter : {A : Type 0} (f : A → Saved) (x : Result A × Adapter) → (as_saved f x).1 ≡ x.1
unfolding as_saved
as_saved-adapter f (ok y, a) = refl
as_saved-adapter f (err e, a) = refl

err-not_ok : (e : Error) (answer : Saved) → err e ≢ ok answer
err-not_ok e answer h = ground (arith, h)

-- A publish that answers with stored events has saved them.
publish-saved :
    (uuid4_hex : ℕ → String) (self : EventStream) (events : List EventToStore)
    (condition : WriteCondition) (a : Adapter) (stored : List NewStoredEvent)
    → (publish uuid4_hex self events condition a).0 ≡ ok (of_stream stored)
    → let saving = save_to_stream uuid4_hex a self.identifier events condition in
      (saving.0 ≡ ok stored) × ((publish uuid4_hex self events condition a).1 ≡ saving.1)
unfolding publish save
publish-saved uuid4_hex self events condition a stored h =
    elim (Result-cases (log_publishing events)) [
      | inl (u, q) ↦
          let saving = save_to_stream uuid4_hex a self.identifier events condition in
          let (answer, left) = as_saved-ok saving stored (rw (q, publish) at h) in
          (answer, rw (q, publish) left)
      | inr (e, q) ↦ absurd (err-not_ok e (of_stream stored) (rw (q, publish) at h))
    ]

publish-cases :
    (uuid4_hex : ℕ → String) (self : EventStream) (events : List EventToStore)
    (condition : WriteCondition) (a : Adapter)
    → ((publish uuid4_hex self events condition a).1 ≡ a)
      ⊎ ((publish uuid4_hex self events condition a).1
          ≡ (save_to_stream uuid4_hex a self.identifier events condition).1)
unfolding publish save
publish-cases uuid4_hex self events _ a = elim (Result-cases (log_publishing events)) [
  | inl (u, q) ↦ inr (rw (q, publish) (as_saved-adapter of_stream _))
  | inr (e, q) ↦ inl (rw (q, publish) refl)
]

-- A save that answers with stored events has done what the specification does on success.
pub save_to_stream-ok :
    (uuid4_hex : ℕ → String) (a : Adapter) (l : Log) (target : StreamIdentifier)
    (events : List EventToStore) (condition : WriteCondition) (stored : List NewStoredEvent)
    → IsValid a l
    → (save_to_stream uuid4_hex a target events condition).0 ≡ ok stored
    → (s : List SerialisedEvent) × (stored
        ≡ numbered uuid4_hex target (length (own target l)) a.sequence events)
      × (serialise_all stored ≡ ok s)
      × IsValid (save_to_stream uuid4_hex a target events condition).1 (l ++ s)
      × (own target (l ++ s) ≡ own target l ++ s)
save_to_stream-ok uuid4_hex a l target events condition stored v h =
    let as_specified = λ (r : Result (List NewStoredEvent × List SerialisedEvent)).
      SavesAs a l r (save_to_stream uuid4_hex a target events condition) in
    let done = save_to_stream-SavesAs uuid4_hex a l target events condition v in
    elim (Result-cases (saved uuid4_hex l a.sequence target events condition)) [
      | inl ((stored', s), q) ↦
          let (answer, valid) = subst as_specified q done in
          let same : stored' ≡ stored = ok-injective (sym answer ∙ h) in
          let (as_numbered, serialised) =
            saved-numbered uuid4_hex l a.sequence target events condition stored' s q in
          (
            s,
            sym same ∙ as_numbered,
            subst (λ x. serialise_all x ≡ ok s) same serialised,
            valid,
            own-append target (length (own target l)) a.sequence l s (key target)
                  (saved-Follows uuid4_hex l a.sequence target events condition stored' s q).0
                ∙ rw (beq_refl (key target)) refl,
          )
      | inr (e, q) ↦ let (answer, _, _) = subst as_specified q done in ground (arith, answer, h)
    ]

-- What is published to a valid adapter is read: a publish that returns events returns those it was given, with
-- positions that count on from the number of events that an iteration of the stream yielded before,
-- and an iteration after it yields what it yielded before and then exactly those events, as they are
-- serialised, and ends with no exception.
pub publish-iterate :
    (uuid4_hex : ℕ → String) (a : Adapter) (l : Log) (self : EventStream)
    (events : List EventToStore) (condition : WriteCondition) (stored : List NewStoredEvent)
    → IsValid a l
    → (publish uuid4_hex self events condition a).0 ≡ ok (of_stream stored)
    → (s : List SerialisedEvent) × (stored
        ≡ numbered uuid4_hex self.identifier (length (iterate self [] a).yielded) a.sequence events)
      × (serialise_all stored ≡ ok s)
      × (iterate self [] (publish uuid4_hex self events condition a).1
          ≡ record { yielded = (iterate self [] a).yielded ++ s; ended = ok tt })
publish-iterate uuid4_hex a l self events condition stored v h =
    let (h', left) = publish-saved uuid4_hex self events condition a stored h in
    let (s, as_numbered, serialised, valid, grown) =
      save_to_stream-ok uuid4_hex a l self.identifier events condition stored v h' in
    (
      s,
      as_numbered
          ∙ ap (λ x. numbered uuid4_hex self.identifier (length x.yielded) a.sequence events)
              (sym (iterate-all self a l v)),
      serialised,
      ap (λ x. iterate self [] x) left
          ∙ iterate-all self (save_to_stream uuid4_hex a self.identifier events condition).1
              (l ++ s) valid
          ∙ rw (grown, iterate-all self a l v) refl,
    )

-- What a save to a stream leaves of another stream: all of it, whatever the save comes to.
save_to_stream-others :
    (uuid4_hex : ℕ → String) (a : Adapter) (l : Log) (target other : StreamIdentifier)
    (events : List EventToStore) (condition : WriteCondition)
    → IsValid a l
    → key target ≢ key other
    → (l' : Log) × IsValid (save_to_stream uuid4_hex a target events condition).1 l'
      × (own other l' ≡ own other l)
save_to_stream-others uuid4_hex a l target other events condition v h =
    let as_specified = λ (r : Result (List NewStoredEvent × List SerialisedEvent)).
      SavesAs a l r (save_to_stream uuid4_hex a target events condition) in
    let done = save_to_stream-SavesAs uuid4_hex a l target events condition v in
    elim (Result-cases (saved uuid4_hex l a.sequence target events condition)) [
      | inl ((stored, s), q) ↦ (
        l ++ s,
        (subst as_specified q done).1,
        own-append target (length (own target l)) a.sequence l s (key other)
              (saved-Follows uuid4_hex l a.sequence target events condition stored s q).0
            ∙ rw (beq_ne (key target) (key other) h) refl,
      )
      | inr (e, q) ↦ (l, (subst as_specified q done).2, refl)
    ]

-- Streams with different keys do not disturb each other: whatever a publish to one comes to in a
-- valid adapter, an iteration of another
-- yields what it yielded before.
pub publish-iterate_other :
    (uuid4_hex : ℕ → String) (a : Adapter) (l : Log) (self other : EventStream)
    (events : List EventToStore) (condition : WriteCondition)
    → IsValid a l
    → key self.identifier ≢ key other.identifier
    → iterate other [] (publish uuid4_hex self events condition a).1 ≡ iterate other [] a
publish-iterate_other uuid4_hex a l self other events condition v h =
    elim (publish-cases uuid4_hex self events condition a) [
      | inl unsaved ↦ ap (λ x. iterate other [] x) unsaved
      | inr left ↦
          let (l', valid, same) =
            save_to_stream-others uuid4_hex a l self.identifier other.identifier events condition v
              h in
          ap (λ x. iterate other [] x) left
          ∙ iterate-all other (save_to_stream uuid4_hex a self.identifier events condition).1 l'
              valid
          ∙ rw (same, iterate-all other a l v) refl
    ]
