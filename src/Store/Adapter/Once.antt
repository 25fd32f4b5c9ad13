-- ===== src/Store/Adapter/Once.antt =====
-- Two saves that expect the same position of a stream: the check that makes the store safe for
-- optimistic concurrency.
use event_store.Prelude.{
  ℕ, ◌+◌, ◌≡◌, refl, ap, sym, ◌∙◌, subst, ℤ, pos, ◌≢◌, String, Option, none, some, List, ◌∷◌, ◌++◌,
  arith, length, last?, ok, err, unmet_write_condition, >>=-eq-ok, Result-cases, inl, inr,
  option_eq, int_eq, option_beq_iff, beq_ne, beq_refl, pair_eq, string_eq, ◌<◌, negsuc, ◌+ℤ◌,
  length-append,
}
use event_store.Types.Event.{SerialisedEvent}
use event_store.Store.Conditions.{position_is}
use event_store.Store.Enforcers.{convert, assert_satisfied, latest_event_position}
use event_store.Store.Db.{StreamIdentifier, key, position_or_none}
use event_store.Store.Db.Represents.{Log}
use event_store.Store.Adapter.{Adapter, EventToStore, NewStoredEvent, save_to_stream}
use event_store.Store.Adapter.Positions.{IsCounted, IsContiguous, next_position}
use event_store.Store.Adapter.Appending.{own-append}
use event_store.Store.Adapter.Specification.{own, IsValid, saved}
use event_store.Store.Adapter.Refinement.{SavesAs, save_to_stream-SavesAs, saved-Follows}

assert_satisfied-position_is :
    (position : Option ℤ) (latest : Option SerialisedEvent) (u : Unit {0})
    → assert_satisfied (convert (position_is position)) latest ≡ ok u
    → latest_event_position latest ≡ position
unfolding convert assert_satisfied
assert_satisfied-position_is position latest u h =
    (option_beq_iff (latest_event_position latest) position).0 (ground arith)

assert_satisfied-position_is_not :
    (position : Option ℤ) (latest : Option SerialisedEvent)
    → latest_event_position latest ≢ position
    → assert_satisfied (convert (position_is position)) latest
      ≡ err (unmet_write_condition "unexpected stream position")
unfolding convert assert_satisfied
assert_satisfied-position_is_not position latest h =
    rw (beq_ne (latest_event_position latest) position h) refl

abbrev option_position : Option ℤ → ℤ
option_position none = negsuc 0
option_position (some p) = p

position_or_none-eq :
    (latest : Option SerialisedEvent)
    → position_or_none latest ≡ option_position (latest_event_position latest)
unfolding position_or_none latest_event_position
position_or_none-eq none = refl
position_or_none-eq (some e) = refl

-- A stream that has grown has another latest position.
latest_event_position-changes :
    (l s : Log)
    → IsCounted l
    → IsCounted (l ++ s)
    → length l < length (l ++ s)
    → latest_event_position (last? (l ++ s)) ≢ latest_event_position (last? l)
latest_event_position-changes l s c c' h q =
    let before = next_position l 0 c in
    let after = next_position (l ++ s) 0 c' in
    let same = ap (λ p. option_position p +ℤ pos 0 +ℤ pos 1) q in
    let same_length : pos (length (l ++ s) + 0) ≡ pos (length l + 0) =
      sym after
      ∙ ap (λ p. p +ℤ pos 0 +ℤ pos 1) (position_or_none-eq (last? (l ++ s)))
      ∙ same
      ∙ ap (λ p. p +ℤ pos 0 +ℤ pos 1) (sym (position_or_none-eq (last? l)))
      ∙ before in
    ground arith

saved-refused :
    (uuid4_hex : ℕ → String) (l : Log) (sequence : ℕ) (target : StreamIdentifier)
    (events : List EventToStore) (position : Option ℤ)
    → latest_event_position (last? (own target l)) ≢ position
    → saved uuid4_hex l sequence target events (position_is position)
      ≡ err (unmet_write_condition "unexpected stream position")
unfolding saved
saved-refused uuid4_hex l sequence target events position h =
    rw (assert_satisfied-position_is_not position (last? (own target l)) h) refl

-- A save that is made moves the latest position of its stream.
saved-changes :
    (uuid4_hex : ℕ → String) (a : Adapter) (l : Log) (target : StreamIdentifier)
    (event : EventToStore) (events : List EventToStore) (position : Option ℤ)
    (stored : List NewStoredEvent) (s : List SerialisedEvent)
    → IsValid a l
    → IsContiguous (l ++ s)
    → saved uuid4_hex l a.sequence target (event ∷ events) (position_is position) ≡ ok (stored, s)
    → latest_event_position (last? (own target (l ++ s))) ≢ position
unfolding saved
saved-changes uuid4_hex a l target event events position stored s v c h q =
    let (follows, size) =
      saved-Follows uuid4_hex l a.sequence target (event ∷ events) (position_is position) stored s
        h in
    let (u, met, _) =
      >>=-eq-ok (assert_satisfied (convert (position_is position)) (last? (own target l))) _ h in
    let grows : own target (l ++ s) ≡ own target l ++ s =
      own-append target (length (own target l)) a.sequence l s (key target) follows
      ∙ rw (beq_refl (key target)) refl in
    latest_event_position-changes (own target l) s (v.contiguous (key target))
      (subst IsCounted grows (c (key target)))
      (rw (length-append (own target l) s, size) (omega arith))
      (ap (λ x. latest_event_position (last? x)) (sym grows)
        ∙ q
        ∙ sym (assert_satisfied-position_is position (last? (own target l)) u met))

module _ (uuid4_hex : ℕ → String) (a : Adapter) (l : Log) (v : IsValid a l) where
  save-refused :
      (target : StreamIdentifier) (events : List EventToStore) (position : Option ℤ)
      → latest_event_position (last? (own target l)) ≢ position
      → let x = save_to_stream uuid4_hex a target events (position_is position) in
        (x.0 ≡ err (unmet_write_condition "unexpected stream position")) × (x.1.db ≡ a.db)
  save-refused target events position h =
      let (refused, unchanged, _) =
        subst (λ r. SavesAs a l r (save_to_stream uuid4_hex a target events (position_is position)))
          (saved-refused uuid4_hex l a.sequence target events position h)
          (save_to_stream-SavesAs uuid4_hex a l target events (position_is position) v) in
      (refused, unchanged)

module _ (uuid4_hex : ℕ → String) (a : Adapter) (l : Log) (v : IsValid a l) where
  -- Once a save that expected a position has stored an event in a valid adapter, every other save to the stream that
  -- expects the same position is refused, and stores nothing.
  pub position_is_once :
      (target : StreamIdentifier) (event : EventToStore) (events others : List EventToStore)
      (position : Option ℤ) (stored : List NewStoredEvent)
      → (save_to_stream uuid4_hex a target (event ∷ events) (position_is position)).0 ≡ ok stored
      → let a' = (save_to_stream uuid4_hex a target (event ∷ events) (position_is position)).1 in
        let second = save_to_stream uuid4_hex a' target others (position_is position) in
        (second.0 ≡ err (unmet_write_condition "unexpected stream position"))
        × (second.1.db ≡ a'.db)
  position_is_once target event events others position stored h =
      elim (Result-cases
        (saved uuid4_hex l a.sequence target (event ∷ events) (position_is position))) [
          | inl ((stored', s), q) ↦
              let valid =
                (subst
                  (λ r.
                    SavesAs a l r
                      (save_to_stream uuid4_hex a target (event ∷ events) (position_is position)))
                  q
                  (save_to_stream-SavesAs uuid4_hex a l target (event ∷ events)
                    (position_is position) v)).1 in
              save-refused uuid4_hex
                (save_to_stream uuid4_hex a target (event ∷ events) (position_is position)).1
                (l ++ s) valid target others position
                (saved-changes uuid4_hex a l target event events position stored' s v
                  valid.contiguous q)
          | inr (e, q) ↦
              let failed =
                (subst
                  (λ r.
                    SavesAs a l r
                      (save_to_stream uuid4_hex a target (event ∷ events) (position_is position)))
                  q
                  (save_to_stream-SavesAs uuid4_hex a l target (event ∷ events)
                    (position_is position) v)).0 in
              ground (arith, h, failed)
        ]
