-- ===== src/Processing/Difference/Sources.antt =====
-- What the changes between two states of the subscriptions are, source by source.
use event_store.Prelude.{
  ◌≡◌, refl, ap, ◌∙◌, ◌&&◌, not, List, [], select, arith, Option-cases, inl, inr,
}
use event_store.Types.Identifier.{EventSourceIdentifier, identifier_eq}
use event_store.Processing.Subscriptions.{EventSubscriptionKey, key_eq, EventSubscriptionState, key}
use event_store.Processing.Difference.{contains, minus, map_from, is_in, sources_in, changes, diff}
use event_store.Processing.Difference.Found.{
  is_changed, has_source, HasDistinctKeys, any-append, any-found, contains-minus, found, found-key,
  is_some, sources_of, is_in-eq, sources_in-eq, lookup-found, is_changed-found,
}

module _ (existing updated : List EventSubscriptionState) (d : HasDistinctKeys existing)
    (e : HasDistinctKeys updated) (k : EventSubscriptionKey) (source : EventSourceIdentifier) where
  is_in-found :
      (l : List EventSubscriptionState) (s : EventSubscriptionState)
      → HasDistinctKeys l
      → key s ≡ k
      → is_in (map_from l []) s ≡ is_some (found k l)
  is_in-found l s h same = is_in-eq (map_from l []) s ∙ ap is_some (lookup-found k l s h same)

  sources_in-found :
      (l : List EventSubscriptionState) (s : EventSubscriptionState)
      → HasDistinctKeys l
      → key s ≡ k
      → sources_in (map_from l []) s ≡ sources_of (found k l)
  sources_in-found l s h same =
      sources_in-eq (map_from l []) s ∙ ap sources_of (lookup-found k l s h same)

  -- Between two states of the subscriptions with distinct keys, a source is given to a subscriber
  -- exactly if the subscriber's subscription has it after and not before.
  pub diff-allocations :
      is_changed k source (diff existing updated).allocations
      ≡ (has_source k source updated && not (has_source k source existing))
  unfolding diff
  diff-allocations =
      any-append _ (changes _ (select _ updated)) (changes _ (select _ updated))
      ∙ (rw
          (
            is_changed-found k source (λ s. not (is_in (map_from existing []) s))
                (λ s. s.event_sources) updated e,
            is_changed-found k source (λ s. is_in (map_from existing []) s)
                (λ s. minus s.event_sources (sources_in (map_from existing []) s)) updated e,
            any-found k (λ s. contains source s.event_sources) updated e,
            any-found k (λ s. contains source s.event_sources) existing d,
          )
          (elim (Option-cases (found k updated)) [
            | inl q ↦ rw q refl
            | inr (s, q) ↦
                let at_k = found-key k updated s q in
                rw
                  (
                    q,
                    is_in-found existing s d at_k,
                    sources_in-found existing s d at_k,
                    contains-minus source s.event_sources (sources_of (found k existing)),
                  )
                  (elim (Option-cases (found k existing)) [
                    | inl p ↦ rw p (ground arith)
                    | inr (t, p) ↦ rw p (ground arith)
                  ])
          ]))

  -- Between two states of the subscriptions with distinct keys, a source is taken from a subscriber
  -- exactly if the subscriber's subscription has it before and
  -- not after.
  pub diff-revocations :
      is_changed k source (diff existing updated).revocations
      ≡ (has_source k source existing && not (has_source k source updated))
  unfolding diff
  diff-revocations =
      any-append _ (changes _ (select _ existing)) (changes _ (select _ updated))
      ∙ (rw
          (
            is_changed-found k source (λ s. not (is_in (map_from updated []) s))
                (λ s. s.event_sources) existing d,
            is_changed-found k source (λ s. is_in (map_from existing []) s)
                (λ s. minus (sources_in (map_from existing []) s) s.event_sources) updated e,
            any-found k (λ s. contains source s.event_sources) updated e,
            any-found k (λ s. contains source s.event_sources) existing d,
          )
          (elim (Option-cases (found k updated)) [
            | inl q ↦ rw q (elim (Option-cases (found k existing)) [
              | inl p ↦ rw p refl
              | inr (t, p) ↦
                  rw (p, is_in-found updated t e (found-key k existing t p), q) (ground arith)
            ])
            | inr (s, q) ↦
                let at_k = found-key k updated s q in
                rw
                  (
                    q,
                    is_in-found existing s d at_k,
                    sources_in-found existing s d at_k,
                    contains-minus source (sources_of (found k existing)) s.event_sources,
                  )
                  (elim (Option-cases (found k existing)) [
                    | inl p ↦ rw p (ground arith)
                    | inr (t, p) ↦
                        rw (p, is_in-found updated t e (found-key k existing t p), q) (ground arith)
                  ])
          ]))
