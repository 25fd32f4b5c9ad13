-- ===== src/Store/Adapter/Category.antt =====
-- A save to a category: the streams are published in the order of their names, every condition
-- against the log as it was before the save, and all events are appended or none.
use mathlib.Core.List.{append-nil, append_assoc}
use native.Mathlib.Nat.{add-zero, add_assoc}
use event_store.Prelude.{
  ℕ, ◌+◌, ◌≡◌, refl, ap, sym, ◌∙◌, subst, String, List, [], ◌∷◌, ◌++◌, arith, length, Result, ok,
  err, ◌>>=◌, >>=-eq-ok, ok-injective, All, ◌≢◌, pair_eq, string_eq, beq_ne,
}
use event_store.Types.Event.{SerialisedEvent}
use event_store.Store.Db.{
  EventsDb, StreamIdentifier, StreamKey, Transaction, transaction, add, add_all,
}
use event_store.Store.Db.Represents.{Log, Represents}
use event_store.Store.Texts.{sorted_items}
use event_store.Store.Texts.Sorting.{HasDistinctNames, sorted_items-HasDistinctNames}
use event_store.Store.Adapter.{
  Adapter, NewStoredEvent, StreamPublishDefinition, Progress, condition_of, and_then,
  publish_streams, save_to_category,
}
use event_store.Store.Adapter.Positions.{IsContiguous}
use event_store.Store.Adapter.Specification.{own, IsValid, saved}
use event_store.Store.Adapter.Appending.{Follows, own-append}
use event_store.Store.Adapter.Refinement.{
  Publishes, SavesAs, publish-Publishes, finish-SavesAs, saved-Follows, saved-IsValid,
}

abbrev pub Streams : Type 0
Streams = List (String × StreamPublishDefinition)

abbrev pub stream_of : String → String → StreamIdentifier
stream_of category name = record { category = category; stream = name }

-- How many events a save to these streams numbers.
abbrev pub event_count : Streams → ℕ
event_count [] = 0
event_count ((name, request) ∷ streams) = length request.events + event_count streams

add_all-append :
    (db : EventsDb) (s s' : List SerialisedEvent) → add_all db (s ++ s') ≡ add_all (add_all db s) s'
unfolding add_all
add_all-append db [] s' = refl
add_all-append db (e ∷ s) s' = add_all-append (add db e) s s'

same_self :
    (l : Log) (category : String) (streams : Streams)
    → All (λ x. own (stream_of category x.0) l ≡ own (stream_of category x.0) l) streams
same_self l category [] = tt
same_self l category (x ∷ streams) = (refl, same_self l category streams)

-- Events of one stream leave the other streams of the category as they are.
same_after :
    (l l' : Log) (category name : String) (n sequence : ℕ) (s : Log) (streams : Streams)
    → Follows (stream_of category name) n sequence s
    → All (λ x. x.0 ≢ name) streams
    → All (λ x. own (stream_of category x.0) l' ≡ own (stream_of category x.0) l) streams
    → All (λ x. own (stream_of category x.0) (l' ++ s) ≡ own (stream_of category x.0) l) streams
same_after l l' category name n sequence s [] f other same = tt
same_after l l' category name n sequence s ((name', request) ∷ streams) f other same = (
  own-append (stream_of category name) n sequence l' s (category, name') f
      ∙ rw
          (beq_ne {A = StreamKey} (category, name) (category, name')
            (λ e. other.0 (ap (λ k. k.1) (sym e))))
          same.0,
  same_after l l' category name n sequence s streams f other.1 same.1,
)

module _ (uuid4_hex : ℕ → String) where
  -- What a save to these streams returns and appends; `l` is the log before it.
  unfoldable pub saved_streams :
      Log
      → String
      → ℕ
      → Streams
      → Result (List (String × List NewStoredEvent) × List SerialisedEvent)
  saved_streams l category sequence [] = ok ([], [])
  saved_streams l category sequence ((name, request) ∷ streams) = do
    (stored, s) ←
        saved uuid4_hex l sequence (stream_of category name) request.events (condition_of request)
    (results, s') ← saved_streams l category (sequence + length request.events) streams
    ok ((name, stored) ∷ results, s ++ s')

  and_then-Publishes :
      (name : String) (n m sequence : ℕ) (t : Transaction)
      (r : Result (List NewStoredEvent × List SerialisedEvent)) (p : Progress (List NewStoredEvent))
      (r' : Result (List (String × List NewStoredEvent) × List SerialisedEvent))
      (q : ℕ → Transaction → Progress (List (String × List NewStoredEvent)))
      → Publishes n sequence t r p
      → ((s : List SerialisedEvent)
          → let t' = record t { added_events = t.added_events ++ s } in
            Publishes m (sequence + n) t' r' (q (sequence + n) t'))
      → Publishes
          (n + m)
          sequence
          t
          (r >>= λ (stored, s). r' >>= λ (results, s'). ok ((name, stored) ∷ results, s ++ s'))
          (and_then p (λ stored sequence' t'. and_then (q sequence' t') (λ results sequence'' t''.
            record {
              result = ok ((name, stored) ∷ results);
              sequence = sequence'';
              transaction = t'';
            })))
  unfolding and_then
  and_then-Publishes name n m sequence t (ok (stored, s)) p (ok (results, s')) q h k =
      rw h (rw (k s) (rw (add_assoc, append_assoc)))
  and_then-Publishes name n m sequence t (ok (stored, s)) p (err e) q h k =
      rw h (rw ((k s).0, and_then) (refl, omega (arith, (k s).1), omega (arith, (k s).2)))
  and_then-Publishes name n m sequence t (err e) p r' q h k =
      rw (h.0, and_then) (refl, omega (arith, h.1), omega (arith, h.2))

  pub publish_streams-Publishes :
      (l : Log) (category : String) (streams : Streams) (sequence : ℕ) (t : Transaction)
      → Represents t.db l
      → IsContiguous l
      → Publishes
          (event_count streams)
          sequence
          t
          (saved_streams l category sequence streams)
          (publish_streams uuid4_hex category streams sequence t)
  unfolding publish_streams saved_streams
  publish_streams-Publishes l category [] sequence t r c = rw (add-zero, append-nil)
  publish_streams-Publishes l category ((name, request) ∷ streams) sequence t r c =
      and_then-Publishes name _ _ sequence t _ _ _
        (λ sequence' t'. publish_streams uuid4_hex category streams sequence' t')
        (publish-Publishes uuid4_hex t l (stream_of category name) request.events
          (condition_of request) sequence r (c (category, name)))
        (λ s.
          publish_streams-Publishes l category streams (sequence + length request.events)
            (record t { added_events = t.added_events ++ s }) r c)

  saved-own :
      (l l' : Log) (sequence : ℕ) (target : StreamIdentifier) (request : StreamPublishDefinition)
      → own target l' ≡ own target l
      → saved uuid4_hex l' sequence target request.events (condition_of request)
        ≡ saved uuid4_hex l sequence target request.events (condition_of request)
  unfolding saved
  saved-own l l' sequence target request h = rw h

  saved_streams-IsValid :
      (l l' : Log) (category : String) (streams : Streams) (a : Adapter)
      (results : List (String × List NewStoredEvent)) (s : List SerialisedEvent)
      → IsValid a l'
      → All (λ x. own (stream_of category x.0) l' ≡ own (stream_of category x.0) l) streams
      → HasDistinctNames streams
      → saved_streams l category a.sequence streams ≡ ok (results, s)
      → IsValid
          (record { sequence = a.sequence + event_count streams; db = add_all a.db s })
          (l' ++ s)
  unfolding saved_streams
  saved_streams-IsValid l l' category [] a results s v same distinct h =
      subst (λ t. IsValid (record { sequence = a.sequence + 0; db = add_all a.db t }) (l' ++ t))
        (ap (λ x. x.1) (ok-injective h)) (unfold add_all in rw (add-zero, append-nil) v)
  saved_streams-IsValid l l' category ((name, request) ∷ streams) a results s v same distinct h =
      let target : StreamIdentifier = stream_of category name in
      let (head, p, h') =
        >>=-eq-ok (saved uuid4_hex l a.sequence target request.events (condition_of request)) _ h in
      let (tail, q, h'') =
        >>=-eq-ok (saved_streams l category (a.sequence + length request.events) streams) _ h' in
      let p' : saved uuid4_hex l' a.sequence target request.events (condition_of request)
          ≡ ok head =
        saved-own l l' a.sequence target request same.0 ∙ p in
      let rest =
        saved_streams-IsValid l (l' ++ head.1) category streams
          (record { sequence = a.sequence + length request.events; db = add_all a.db head.1 })
          tail.0 tail.1
          (saved-IsValid uuid4_hex a l' target request.events (condition_of request) head.0 head.1 v
            p')
          (same_after l l' category name (length (own target l')) a.sequence head.1 streams
            (saved-Follows uuid4_hex l' a.sequence target request.events (condition_of request)
              head.0 head.1 p').0
            distinct.0 same.1)
          distinct.1 q in
      subst
        (λ t.
          IsValid
            (record {
              sequence = a.sequence + (length request.events + event_count streams);
              db = add_all a.db t;
            })
            (l' ++ t))
        (ap (λ x. x.1) (ok-injective h''))
        (subst
          (λ m.
            IsValid (record { sequence = m; db = add_all a.db (head.1 ++ tail.1) })
              (l' ++ (head.1 ++ tail.1)))
          (add_assoc a.sequence (length request.events) (event_count streams))
          (rw (add_all-append, ← append_assoc l' head.1 tail.1) rest))

  -- From a valid adapter a save to a category does what the specification says, on every branch:
  -- the streams are published in the order of their names, each with its condition checked against
  -- the log before the save; all their events are appended and returned, or, if one condition does
  -- not hold or one event cannot be serialised, the first exception is raised and nothing is
  -- appended. The adapter stays valid.
  pub save_to_category-SavesAs :
      (a : Adapter) (l : Log) (category : String) (streams : Streams)
      → HasDistinctNames streams
      → IsValid a l
      → SavesAs a l
          (saved_streams l category a.sequence (sorted_items streams))
          (save_to_category uuid4_hex a category streams)
  unfolding save_to_category transaction
  save_to_category-SavesAs a l category streams d v =
      finish-SavesAs a l (event_count (sorted_items streams)) _ _ v
        (λ results s h.
          saved_streams-IsValid l l category (sorted_items streams) a results s v
            (same_self l category (sorted_items streams)) (sorted_items-HasDistinctNames streams d)
            h)
        (publish_streams-Publishes l category (sorted_items streams) a.sequence (transaction a.db)
          v.represents v.contiguous)
