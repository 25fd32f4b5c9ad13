-- ===== src/Processing/Consumers/Alone.antt =====
-- What a processor makes of events by itself, and the states that they leave.
use mathlib.Core.List.{append-nil, append_assoc}
use event_store.Prelude.{
  Dict, assign, string_eq, ◌++◌, ℕ, ◌≡◌, refl, sym, ap, inl, inr, ◌⊎◌, ◌∙◌, String, Option, none,
  some, List, [], ◌∷◌, Result, ok, err, Error,
}
use event_store.Types.Event.{SerialisedEvent}
use event_store.Processing.Consumers.{EventConsumerState, EventConsumerStateConverter, with_extra}

-- What a processor by itself makes of some events: those that it handled, one after the other, up to
-- its first exception, that exception, and the world that it leaves.
pub record Handled (World : Type 0) : Type 0 where
  pub events : List SerialisedEvent
  pub failure : Option Error
  pub world : World

abbrev pub handle_first :
    {World : Type 0}
    → SerialisedEvent
    → Result (Unit {0}) × World
    → (World → Handled World)
    → Handled World
handle_first event (err e, world) rest = record { events = []; failure = some e; world = world }
handle_first event (ok u, world) rest =
    let handled = rest world in record handled { events = event ∷ handled.events }

module _ {World : Type 0}
    (process_event : SerialisedEvent → World → Result (Unit {0}) × World) where
  abbrev pub handled : List SerialisedEvent → World → Handled World
  handled [] world = record { events = []; failure = none; world = world }
  handled (event ∷ events) world =
      handle_first event (process_event event world) (λ w. handled events w)

pub Pair-cases :
    {World : Type 0} (x : Result (Unit {0}) × World)
    → ((w : World) × (x ≡ (ok tt, w))) ⊎ ((e : Error) × (w : World) × (x ≡ (err e, w)))
Pair-cases (ok tt, w) = inl (w, refl)
Pair-cases (err e, w) = inr (e, w, refl)

-- How a run ends: as the source does, or by the processor's exception.
abbrev pub ending : Result (Unit {0}) → Option Error → Result (Unit {0})
ending ended none = ended
ending ended (some e) = err e

-- A dictionary of lags has no key but the partition of a consumer.
abbrev pub OnlyDefault : Dict String ℕ → Type 0
OnlyDefault [] = Unit
OnlyDefault (entry ∷ []) = entry.0 ≡ "default"
OnlyDefault (entry ∷ other ∷ d) = ⊥

pub OnlyDefault-assign :
    (n : ℕ) (d : Dict String ℕ) → OnlyDefault d → OnlyDefault (assign "default" n d)
OnlyDefault-assign n [] h = refl
OnlyDefault-assign n ((k, v) ∷ []) h = rw ((string_eq.test_iff k "default").1 h) refl
OnlyDefault-assign n (x ∷ y ∷ d) h = absurd h

module _ (converter : EventConsumerStateConverter SerialisedEvent) where
  -- The state of an event.
  abbrev pub state_of : SerialisedEvent → EventConsumerState
  state_of event = record { state = with_extra (converter.event_to_state event) none }

  -- The state after some events: that of the last of them.
  abbrev pub state_after :
      Option EventConsumerState → List SerialisedEvent → Option EventConsumerState
  state_after old [] = old
  state_after old (event ∷ events) = state_after (some (state_of event)) events

  pub state_after-append :
      (old : Option EventConsumerState) (xs ys : List SerialisedEvent)
      → state_after old (xs ++ ys) ≡ state_after (state_after old xs) ys
  state_after-append old [] ys = refl
  state_after-append old (x ∷ xs) ys = state_after-append (some (state_of x)) xs ys

  -- From a saved state and events after it that are not saved, some more events lead to a later
  -- saved state and events after that: what is saved and what is not are together all the events.
  abbrev pub Saves :
      Option EventConsumerState
      → List SerialisedEvent
      → List SerialisedEvent
      → Option EventConsumerState
      → List SerialisedEvent
      → Type 0
  Saves base unsaved events base' unsaved' =
      (saved : List SerialisedEvent) × (unsaved ++ events ≡ saved ++ unsaved')
      × (base' ≡ state_after base saved)

  pub Saves-none :
      (base : Option EventConsumerState) (unsaved : List SerialisedEvent)
      → Saves base unsaved [] base unsaved
  Saves-none base unsaved = ([], append-nil unsaved, refl)

  pub Saves-step :
      (base base' base'' : Option EventConsumerState)
      (unsaved unsaved' unsaved'' events : List SerialisedEvent) (event : SerialisedEvent)
      → Saves base unsaved (event ∷ []) base' unsaved'
      → Saves base' unsaved' events base'' unsaved''
      → Saves base unsaved (event ∷ events) base'' unsaved''
  Saves-step base base' base'' unsaved unsaved' unsaved'' events event (s, p, q) (t, p', q') = (
    s ++ t,
    sym (append_assoc unsaved (event ∷ []) events)
        ∙ ap (λ xs. xs ++ events) p
        ∙ append_assoc s unsaved' events
        ∙ ap (λ xs. s ++ xs) p'
        ∙ sym (append_assoc s t unsaved''),
    q' ∙ ap (λ b. state_after b t) q ∙ sym (state_after-append base s t),
  )
