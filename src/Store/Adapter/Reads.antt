-- ===== src/Store/Adapter/Reads.antt =====
-- What the adapter's reads return, in terms of the log that it holds.

use event_store.Prelude.{◌≡◌, List, last?, ok, ◌>>=◌}
use event_store.Types.Identifier.{EventSourceIdentifier}
use event_store.Sources.{QueryConstraint, meets}
use event_store.Store.Db.{EventsDb, snapshot}
use event_store.Store.Db.Represents.{Log, Represents}
use event_store.Store.Db.Reads.{last_event-eq, scan_events-eq, scan_of, events_of}
use event_store.Store.Adapter.{Adapter, latest, scan}
use event_store.Store.Adapter.Specification.{IsValid}

snapshot-Represents : (db : EventsDb) (l : Log) → Represents db l → Represents (snapshot db) l
unfolding snapshot
snapshot-Represents db l r = r

module _ (a : Adapter) (l : Log) (v : IsValid a l) where
  -- Of an adapter that holds a log, the latest event of the log, a category or a stream is the last
  -- one of its part of the log; a partition raises.
  pub latest-eq :
      (target : EventSourceIdentifier)
      → latest a target ≡ (events_of target l >>= λ part. ok (last? part))
  unfolding latest
  latest-eq target =
      last_event-eq (snapshot a.db) l (snapshot-Represents a.db l v.represents) target

  -- Of an adapter that holds a log, a scan yields its target's part of the log, less the events that do not meet the constraints,
  -- in the order of the log, and raises nothing unless the target is a partition.
  pub scan-eq :
      (target : EventSourceIdentifier) (constraints : List QueryConstraint)
      → scan a target constraints
        ≡ scan_of (meets a.db.constraint_converter constraints) (events_of target l)
  unfolding scan snapshot
  scan-eq target constraints =
      scan_events-eq (snapshot a.db) l (snapshot-Represents a.db l v.represents) target constraints
