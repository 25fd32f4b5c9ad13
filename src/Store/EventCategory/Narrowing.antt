-- ===== src/Store/EventCategory/Narrowing.antt =====
-- Reading a stream through its category, and a category through the log.
use event_store.Prelude.{
  ◌≡◌, ap, ◌∙◌, String, Bool, List, select, select-select, select-cong, arith, ◌&&◌, ◌==◌,
  string_eq, pair_eq, sym,
}
use event_store.Sources.{QueryConstraint, meets}
use event_store.Store.Db.Represents.{Log, in_stream, in_category}
use event_store.Store.Db.Reads.{scan_of, events_of}
use event_store.Store.Adapter.{Adapter}
use event_store.Store.Adapter.Specification.{IsValid}
use event_store.Store.Adapter.Reads.{scan-eq}
use event_store.Store.EventStream.{iterate as iterate_stream}
use event_store.Store.EventCategory.{EventCategory, stream, iterate}

narrows : (in_c in_s met : Bool) → ((in_c && in_s) && met) ≡ ((in_c && met) && (in_c && in_s))
narrows in_c in_s met = ground arith

-- A stream of a category of a valid adapter, read by itself, yields the events of the category's iteration that
-- belong to the stream, in the same order.
pub iterate-stream :
    (a : Adapter) (l : Log) (self : EventCategory) (name : String)
    (constraints : List QueryConstraint)
    → IsValid a l
    → (iterate_stream (stream self name) constraints a).yielded
      ≡ select (in_stream (self.identifier.category, name)) (iterate self constraints a).yielded
unfolding iterate_stream iterate stream scan_of events_of
iterate-stream a l self name constraints v =
    let test = meets a.db.constraint_converter constraints in
    let c = self.identifier.category in
    let in_s = in_stream (c, name) in
    rw (scan-eq a l v, scan-eq a l v)
      (select-select test in_s l
        ∙ select-cong _ _ l (λ e. narrows (e.category == c) (e.stream == name) (test e))
        ∙ sym (
            ap (select in_s) (select-select test (in_category c) l)
            ∙ select-select in_s (λ e. in_category c e && test e) l))
