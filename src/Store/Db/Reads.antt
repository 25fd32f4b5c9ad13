-- ===== src/Store/Db/Reads.antt =====
-- What reads of the database return, in terms of the log that it represents.
use event_store.Prelude.{
  ◌≡◌, refl, Bool, some, List, [], ◌∷◌, map, All, All-select, select, last?, Result, ok, err,
  value_error, ◌>>=◌, Bool-cases, inl, inr,
}
use event_store.Types.Event.{SerialisedEvent}
use event_store.Types.Identifier.{
  EventSourceIdentifier, log, log_partition, category, category_partition, stream,
}
use event_store.Sources.{QueryConstraint, meets}
use event_store.Store.Db.{
  EventsDb, StreamIdentifier, key, Scan, events_at, without_none, stream_events, last_stream_event,
  last_event, scan_index, scan_events, event_at, event_at_last,
}
use event_store.Store.Db.Represents.{
  Log, Represents, IsStored, sequence_numbers, in_category, in_stream,
}

-- The part of the log that an identifier stands for. The partitions are not served.
unfoldable pub events_of : EventSourceIdentifier → Log → Result Log
events_of log l = ok l
events_of (category c) l = ok (select (in_category c) l)
events_of (stream c s) l = ok (select (in_stream (c, s)) l)
events_of (log_partition partition) l = err (value_error "Unknown target")
events_of (category_partition c partition) l = err (value_error "Unknown target")

-- The scan of a part of the log.
unfoldable pub scan_of : (SerialisedEvent → Bool) → Result Log → Scan
scan_of test (ok l) = record { yielded = select test l; ended = ok tt }
scan_of test (err e) = record { yielded = []; ended = err e }

event_at-stored :
    (db : EventsDb) (e : SerialisedEvent)
    → IsStored db.events e
    → event_at db e.sequence_number ≡ ok (some e)
unfolding event_at
event_at-stored db e h = rw (h, event_at)

events_at-stored :
    (db : EventsDb) (l : Log)
    → All (IsStored db.events) l
    → events_at db (sequence_numbers l) ≡ ok (map some l)
unfolding events_at
events_at-stored db [] h = refl
events_at-stored db (e ∷ l) h = rw (event_at-stored db e h.0, events_at-stored db l h.1)

without_none-some : (l : Log) → without_none (map some l) ≡ ok l
unfolding without_none
without_none-some [] = refl
without_none-some (e ∷ l) = rw (without_none-some l)

scan_index-stored :
    (db : EventsDb) (constraints : List QueryConstraint) (l : Log)
    → All (IsStored db.events) l
    → scan_index db constraints (sequence_numbers l)
      ≡ record { yielded = select (meets db.constraint_converter constraints) l; ended = ok tt }
unfolding scan_index
scan_index-stored db constraints [] h = refl
scan_index-stored db constraints (e ∷ l) h =
    elim (Bool-cases (meets db.constraint_converter constraints e)) [
      | inl met ↦ rw (h.0, scan_index) (rw (scan_index-stored db constraints l h.1) (rw met))
      | inr unmet ↦ rw (h.0, scan_index) (rw (scan_index-stored db constraints l h.1) (rw unmet))
    ]

last-stored :
    (db : EventsDb) (l : Log)
    → All (IsStored db.events) l
    → event_at_last db (last? (sequence_numbers l)) ≡ ok (last? l)
unfolding event_at_last
last-stored db [] h = refl
last-stored db (e ∷ []) h = event_at-stored db e h.0
last-stored db (e ∷ f ∷ l) h = last-stored db (f ∷ l) h.1

module _ (db : EventsDb) (l : Log) (r : Represents db l) where
  pub stream_events-eq :
      (target : StreamIdentifier) → stream_events db target ≡ ok (select (in_stream (key target)) l)
  unfolding stream_events
  stream_events-eq target = rw (r.by_stream (key target)) (
      rw
        (events_at-stored db (select (in_stream (key target)) l)
          (All-select (IsStored db.events) (in_stream (key target)) l r.stored))
        (without_none-some (select (in_stream (key target)) l)))

  -- The latest event that the database gives for a stream is the last one of the stream in the log.
  pub last_stream_event-eq :
      (target : StreamIdentifier)
      → last_stream_event db target ≡ ok (last? (select (in_stream (key target)) l))
  unfolding last_stream_event
  last_stream_event-eq target = rw (stream_events-eq target)

  pub last_event-eq :
      (target : EventSourceIdentifier)
      → last_event db target ≡ (events_of target l >>= λ part. ok (last? part))
  unfolding last_event events_of
  last_event-eq log = rw r.by_log (last-stored db l r.stored)
  last_event-eq (category c) =
      rw (r.by_category c)
        (last-stored db _ (All-select (IsStored db.events) (in_category c) l r.stored))
  last_event-eq (stream c s) =
      rw (r.by_stream (c, s))
        (last-stored db _ (All-select (IsStored db.events) (in_stream (c, s)) l r.stored))
  last_event-eq (log_partition p) = refl
  last_event-eq (category_partition c p) = refl

  -- A scan yields the events of the identifier's part of the log that meet the constraints, in the
  -- order of the log, and ends without an error; a partition yields nothing and is refused.
  pub scan_events-eq :
      (target : EventSourceIdentifier) (constraints : List QueryConstraint)
      → scan_events db target constraints
        ≡ scan_of (meets db.constraint_converter constraints) (events_of target l)
  unfolding scan_events events_of scan_of
  scan_events-eq log constraints = rw r.by_log (scan_index-stored db constraints l r.stored)
  scan_events-eq (category c) constraints = rw (r.by_category c) (
      scan_index-stored db constraints _
        (All-select (IsStored db.events) (in_category c) l r.stored))
  scan_events-eq (stream c s) constraints = rw (r.by_stream (c, s)) (
      scan_index-stored db constraints _
        (All-select (IsStored db.events) (in_stream (c, s)) l r.stored))
  scan_events-eq (log_partition p) constraints = refl
  scan_events-eq (category_partition c p) constraints = refl
