-- ===== src/Projecting/Folding.antt =====
-- Projecting events in parts, and events that have no handler.
use event_store.Prelude.{
  ◌≡◌, refl, ap, ◌∙◌, String, Option, none, some, List, [], ◌∷◌, ◌++◌, ok, err, Result-cases, inl,
  inr, missing_projection_handler_error, ◌>>=◌, >>=-eq-ok, ok-injective,
}
use event_store.Types.Identifier.{EventSourceIdentifier}
use event_store.Types.Event.{SerialisedEvent}
use event_store.Types.Projection.{Projection}
use event_store.Sources.Memory.{EventSource}
use event_store.Projecting.{
  Projector, raise_error, found_handler, resolve_missing, resolve_handler, resolve_state,
  resolve_metadata, apply, project_events, projection_of, project,
}

-- A projection has the state and the metadata that the events reach.
projection_of-reached :
    {State Metadata : Type 0} (self : Projector State Metadata) (identifier : EventSourceIdentifier)
    (reached : Option State × Option Metadata) (p : Projection (Option State) (Option Metadata))
    → projection_of self identifier reached ≡ ok p
    → reached ≡ (p.state, p.metadata)
unfolding projection_of
projection_of-reached {State} {Metadata} self identifier (state, metadata) p made =
    let (id, _, made_id) = >>=-eq-ok (self.id_factory state identifier) _ made in
    ap (λ (q : Projection (Option State) (Option Metadata)). (q.state, q.metadata))
      (ok-injective made_id)

module _ {State Metadata : Type 0} (to_snake_case : String → String) where
  -- Events in two parts, the second from where the first ended.
  project_events-append :
      (self : Projector State Metadata) (xs ys : List SerialisedEvent) (state : Option State)
      (metadata : Option Metadata)
      → project_events to_snake_case self (xs ++ ys) state metadata ≡ (
          project_events to_snake_case self xs state metadata >>= λ reached.
          project_events to_snake_case self ys reached.0 reached.1)
  unfolding project_events
  project_events-append self [] ys state metadata = refl
  project_events-append self (x ∷ xs) ys state metadata =
      elim (Result-cases (apply to_snake_case self x state)) [
        | inl (s, e) ↦ elim (Result-cases (self.update_metadata s metadata x)) [
          | inl (m, f) ↦ rw (e, f) (project_events-append self xs ys s m)
          | inr (m, f) ↦ rw (e, f) refl
        ]
        | inr (s, e) ↦ rw e refl
      ]

  project_events-resume :
      (self : Projector State Metadata) (rest whole : EventSource SerialisedEvent)
      (xs : List SerialisedEvent) (s s' : Option State) (m m' : Option Metadata) (state : State)
      (metadata : Metadata)
      → s' ≡ some state
      → m' ≡ some metadata
      → whole.iterate [] ≡ xs ++ rest.iterate []
      → rest.identifier ≡ whole.identifier
      → project_events to_snake_case self xs s m ≡ ok (s', m')
      → (project_events to_snake_case self (whole.iterate []) s m
          >>= projection_of self whole.identifier)
        ≡ project to_snake_case self rest s' m'
  unfolding project resolve_state resolve_metadata
  project_events-resume self rest whole xs s s' m m' state metadata at_s at_m split same got =
      rw (split, project_events-append self xs (rest.iterate []) s m, got, same, at_s, at_m) refl

  -- If projecting the first part of a source's events returns a projection whose state and metadata
  -- are not `None`, projecting all of them is projecting the rest from its state and metadata.
  pub project-resume :
      (self : Projector State Metadata) (first rest whole : EventSource SerialisedEvent)
      (state : Option State) (metadata : Option Metadata)
      (p : Projection (Option State) (Option Metadata)) (some_state : State)
      (some_metadata : Metadata)
      → p.state ≡ some some_state
      → p.metadata ≡ some some_metadata
      → whole.iterate [] ≡ first.iterate [] ++ rest.iterate []
      → rest.identifier ≡ whole.identifier
      → project to_snake_case self first state metadata ≡ ok p
      → project to_snake_case self whole state metadata
        ≡ project to_snake_case self rest p.state p.metadata
  unfolding project resolve_state resolve_metadata
  project-resume self first rest whole state metadata p some_state some_metadata at_state
        at_metadata split same made =
      let (s, at_s, made_s) = >>=-eq-ok (resolve_state self state) _ made in
      let (m, at_m, made_m) = >>=-eq-ok (resolve_metadata self metadata) _ made_s in
      let (reached, got, made_p) =
        >>=-eq-ok (project_events to_snake_case self (first.iterate []) s m) _ made_m in
      let begun : project to_snake_case self whole state metadata ≡ (
          project_events to_snake_case self (whole.iterate []) s m
          >>= projection_of self whole.identifier) =
        rw (at_s, at_m) refl in
      let pair = projection_of-reached self first.identifier reached p made_p in
      begun
      ∙ project_events-resume self rest whole (first.iterate []) s p.state m p.metadata some_state
          some_metadata at_state at_metadata split same (got ∙ ap ok pair)

  apply-Missing :
      (self : Projector State Metadata) (event : SerialisedEvent) (state resolved : Option State)
      → resolve_state self state ≡ ok resolved
      → self.missing_handler_behaviour ≡ raise_error
      → found_handler to_snake_case self event ≡ none
      → apply to_snake_case self event state
        ≡ err (missing_projection_handler_error event.name self.class_name)
  unfolding apply resolve_handler resolve_missing
  apply-Missing self event state resolved resolves raises absent =
      rw (resolves, absent, resolve_handler, raises) refl

  -- With `RAISE`, an event that has no handler raises `MissingProjectionHandlerError` for it, once
  -- the events before it are applied, from a state and metadata that are not `None`; a state of
  -- `None` that they leave is replaced by the initial one, which the factory returns.
  pub project-Missing :
      (self : Projector State Metadata) (source : EventSource SerialisedEvent)
      (before after : List SerialisedEvent) (event : SerialisedEvent) (state : State)
      (metadata : Metadata) (reached : Option State × Option Metadata) (resolved : Option State)
      → self.missing_handler_behaviour ≡ raise_error
      → source.iterate [] ≡ before ++ event ∷ after
      → project_events to_snake_case self before (some state) (some metadata) ≡ ok reached
      → resolve_state self reached.0 ≡ ok resolved
      → found_handler to_snake_case self event ≡ none
      → project to_snake_case self source (some state) (some metadata)
        ≡ err (missing_projection_handler_error event.name self.class_name)
  unfolding project resolve_state resolve_metadata project_events
  project-Missing self source before after event state metadata reached resolved raises split got
        resolves absent =
      rw
        (
          split,
          project_events-append self before (event ∷ after) (some state) (some metadata),
          got,
          apply-Missing self event reached.0 resolved resolves raises absent,
        )
        refl
