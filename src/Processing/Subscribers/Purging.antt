-- ===== src/Processing/Subscribers/Purging.antt =====
-- What a purge leaves.
use event_store.Prelude.{
  ℕ, zero, suc, ◌+◌, ◌≡◌, refl, ap, ◌∙◌, true, false, none, some, List, [], ◌∷◌, arith, length,
  select, get_elem?, ltb, nat_eq, if◌then◌else◌, Bool-cases, Option-cases, inl, inr,
}
use event_store.Processing.Subscribers.{
  EventSubscriberState, state_beq, SubscriberStore, remove_first, is_recent, list, is_stale,
  purge_from, purge,
}

stale-not_recent :
    (now max_time : ℕ) (s : EventSubscriberState)
    → is_stale now max_time s ≡ true
    → is_recent now max_time s ≡ false
unfolding is_recent is_stale
stale-not_recent now max_time s h = ground arith

same-is_recent :
    (now max_time : ℕ) (x s : EventSubscriberState)
    → state_beq x s ≡ true
    → is_recent now max_time x ≡ is_recent now max_time s
unfolding is_recent
same-is_recent now max_time x s h =
    ap (λ t. ltb now (t + max_time)) ((nat_eq.test_iff x.last_seen s.last_seen).0 (ground arith))

-- Taking out what is not recent leaves what is.
recent-remove_first :
    (now max_time : ℕ) (s : EventSubscriberState) (subscribers : List EventSubscriberState)
    → is_recent now max_time s ≡ false
    → select (is_recent now max_time) (remove_first s subscribers)
      ≡ select (is_recent now max_time) subscribers
unfolding remove_first
recent-remove_first now max_time s [] h = refl
recent-remove_first now max_time s (x ∷ subscribers) h = elim (Bool-cases (state_beq x s)) [
  | inl same ↦ rw (same, same-is_recent now max_time x s same, h) refl
  | inr other ↦ rw other (elim (Bool-cases (is_recent now max_time x)) [
    | inl r ↦ rw (r, recent-remove_first now max_time s subscribers h) refl
    | inr r ↦ rw (r, recent-remove_first now max_time s subscribers h) refl
  ])
]

recent-turn :
    (now max_time : ℕ) (s : EventSubscriberState) (subscribers : List EventSubscriberState)
    → select
        (is_recent now max_time)
        (if is_stale now max_time s then remove_first s subscribers else subscribers)
      ≡ select (is_recent now max_time) subscribers
recent-turn now max_time s subscribers = elim (Bool-cases (is_stale now max_time s)) [
  | inl h ↦
      rw h (recent-remove_first now max_time s subscribers (stale-not_recent now max_time s h))
  | inr h ↦ rw h refl
]

recent-purge_from :
    (turns now max_time index : ℕ) (subscribers : List EventSubscriberState)
    → select (is_recent now max_time) (purge_from turns now max_time index subscribers)
      ≡ select (is_recent now max_time) subscribers
unfolding purge_from
recent-purge_from zero now max_time index subscribers = refl
recent-purge_from (suc turns) now max_time index subscribers =
    elim (Option-cases (get_elem? subscribers index)) [
      | inl q ↦ rw (q, purge_from) refl
      | inr (s, q) ↦
          rw (q, purge_from)
            (recent-purge_from turns now max_time (suc index) _
              ∙ recent-turn now max_time s subscribers)
    ]

-- A purge takes none that is recent: who lists the subscribers seen within the time of the purge,
-- at its time, finds after the purge those that were there before, in the same order.
pub list-purge :
    (self : SubscriberStore) (now max_time : ℕ)
    → list (purge self now max_time) now none (some max_time) ≡ list self now none (some max_time)
unfolding list purge
list-purge self now max_time =
    recent-purge_from (length self.subscribers) now max_time 0 self.subscribers
