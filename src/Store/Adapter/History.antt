-- ===== src/Store/Adapter/History.antt =====
-- What clients rely on across saves: what was read stays readable in the same order.
use mathlib.Core.List.{append-nil}
use event_store.Prelude.{
  ℕ, ◌≡◌, refl, sym, String, Bool, List, [], ◌∷◌, ◌++◌, length, select, select-append, Result, ok,
  err, option_eq, int_eq, pair_eq, string_eq,
}
use event_store.Types.Event.{SerialisedEvent}
use event_store.Types.Identifier.{
  EventSourceIdentifier, log, log_partition, category, category_partition, stream,
}
use event_store.Sources.{QueryConstraint, meets}
use event_store.Store.Conditions.{WriteCondition}
use event_store.Store.Db.{EventsDb, StreamIdentifier, key, add, add_all, transaction, commit}
use event_store.Store.Db.Represents.{Log, in_stream, in_category}
use event_store.Store.Db.Reads.{scan_of, events_of}
use event_store.Store.Texts.{sorted_items}
use event_store.Store.Texts.Sorting.{HasDistinctNames}
use event_store.Store.Adapter.{
  Adapter, Progress, finish, save_to_category, EventToStore, save_to_stream, scan,
}
use event_store.Store.Adapter.Specification.{IsValid, saved}
use event_store.Store.Adapter.Refinement.{
  Publishes, SavesAs, save_to_stream-SavesAs, publish-Publishes,
}
use event_store.Store.Adapter.Reads.{scan-eq}
use event_store.Store.Adapter.Category.{
  Streams, event_count, saved_streams, publish_streams-Publishes, save_to_category-SavesAs,
}

-- A scan of a longer log goes on where the scan of the shorter one ended.
scan_of-append :
    (test : SerialisedEvent → Bool) (target : EventSourceIdentifier) (l s : Log)
    → (new : Log) × ((scan_of test (events_of target (l ++ s))).yielded
        ≡ (scan_of test (events_of target l)).yielded ++ new)
unfolding scan_of events_of
scan_of-append test log l s = (select test s, select-append test l s)
scan_of-append test (category c) l s = (
  select test (select (in_category c) s),
  rw (select-append (in_category c) l s) (select-append test _ _),
)
scan_of-append test (stream c n) l s = (
  select test (select (in_stream (c, n)) s),
  rw (select-append (in_stream (c, n)) l s) (select-append test _ _),
)
scan_of-append test (log_partition p) l s = ([], refl)
scan_of-append test (category_partition c p) l s = ([], refl)

add_all-constraint_converter :
    (db : EventsDb) (s : List SerialisedEvent)
    → (add_all db s).constraint_converter ≡ db.constraint_converter
unfolding add_all add
add_all-constraint_converter db [] = refl
add_all-constraint_converter db (e ∷ s) = add_all-constraint_converter (add db e) s

finish-constraint_converter :
    {A : Type 0} (a : Adapter) (n : ℕ) (r : Result (A × List SerialisedEvent)) (p : Progress A)
    → Publishes n a.sequence (transaction a.db) r p
    → (finish a p).1.db.constraint_converter ≡ a.db.constraint_converter
unfolding finish transaction commit
finish-constraint_converter a n (ok (stored, s)) p h = rw h (add_all-constraint_converter a.db s)
finish-constraint_converter a n (err e) p h = rw (h.0, finish) refl

scan-SavesAs :
    {A : Type 0} (a : Adapter) (l : Log) (r : Result (A × List SerialisedEvent))
    (x : Result A × Adapter) (scanned : EventSourceIdentifier) (constraints : List QueryConstraint)
    → IsValid a l
    → SavesAs a l r x
    → x.1.db.constraint_converter ≡ a.db.constraint_converter
    → (new : Log) × ((scan x.1 scanned constraints).yielded
        ≡ (scan a scanned constraints).yielded ++ new)
scan-SavesAs a l (ok (stored, s)) x scanned constraints v h c =
    rw (scan-eq x.1 (l ++ s) h.1, scan-eq a l v, c)
      (scan_of-append (meets a.db.constraint_converter constraints) scanned l s)
scan-SavesAs a l (err e) x scanned constraints v h c =
    rw (scan-eq x.1 l h.2, scan-eq a l v, c) ([], sym (append-nil _))

module _ (uuid4_hex : ℕ → String) (a : Adapter) (l : Log) (v : IsValid a l) where
  -- Whatever a save to a stream of a valid adapter comes to, a later scan yields first what the same scan yielded
  -- before the save, in the same order.
  pub scan-save_to_stream :
      (target : StreamIdentifier) (events : List EventToStore) (condition : WriteCondition)
      (scanned : EventSourceIdentifier) (constraints : List QueryConstraint)
      → let a' = (save_to_stream uuid4_hex a target events condition).1 in
        (new : Log) × ((scan a' scanned constraints).yielded
          ≡ (scan a scanned constraints).yielded ++ new)
  unfolding save_to_stream transaction
  scan-save_to_stream target events condition scanned constraints =
      scan-SavesAs a l _ _ scanned constraints v
        (save_to_stream-SavesAs uuid4_hex a l target events condition v)
        (finish-constraint_converter a (length events)
          (saved uuid4_hex l a.sequence target events condition) _
          (publish-Publishes uuid4_hex (transaction a.db) l target events condition a.sequence
            v.represents (v.contiguous (key target))))

  -- Whatever a save to a category of a valid adapter comes to, with distinct names of streams, a
  -- later scan yields first what the same scan yielded before the save, in the same order.
  pub scan-save_to_category :
      (category_name : String) (streams : Streams) (scanned : EventSourceIdentifier)
      (constraints : List QueryConstraint)
      → HasDistinctNames streams
      → let a' = (save_to_category uuid4_hex a category_name streams).1 in
        (new : Log) × ((scan a' scanned constraints).yielded
          ≡ (scan a scanned constraints).yielded ++ new)
  unfolding save_to_category transaction
  scan-save_to_category category_name streams scanned constraints d =
      scan-SavesAs a l _ _ scanned constraints v
        (save_to_category-SavesAs uuid4_hex a l category_name streams d v)
        (finish-constraint_converter a (event_count (sorted_items streams))
          (saved_streams uuid4_hex l category_name a.sequence (sorted_items streams)) _
          (publish_streams-Publishes uuid4_hex l category_name (sorted_items streams) a.sequence
            (transaction a.db) v.represents v.contiguous))
