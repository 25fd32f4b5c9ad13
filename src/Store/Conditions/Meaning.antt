-- ===== src/Store/Conditions/Meaning.antt =====
-- What a write condition means, independently of the enforcers that the adapters run, and that
-- `&` and `|` combine meanings.
use event_store.Prelude.{
  ℤ, ◌≡◌, refl, ◌↔◌, ◌⊎◌, inl, inr, Bool, true, false, ◌&&◌, ◌||◌, Option, none, some, List, [],
  ◌∷◌, ◌++◌, ◌∙◌, ◌≢◌, Bool-ext, and_true, or_false, arith, all, any, ◌==◌, option_eq, int_eq,
  Bool-cases,
}
use event_store.Types.Event.{SerialisedEvent}
use event_store.Store.Conditions.{
  WriteCondition, no_condition, position_is, empty_stream, and_condition, or_condition, Conditions,
  nil, cons, of_list, to_list, Combination, conjunction, disjunction, conditions_of, construct,
  combine, and, or,
}

-- The position of the latest event of a stream, if it has events.
abbrev pub latest_position : Option SerialisedEvent → Option ℤ
latest_position none = none
latest_position (some event) = some event.position

abbrev is_none : Option SerialisedEvent → Bool
is_none none = true
is_none (some event) = false

-- Does the condition hold of a stream with this latest event? A disjunction of nothing holds.
unfoldable mutual
  pub holds : Option SerialisedEvent → WriteCondition → Bool
  holds latest no_condition = true
  holds latest (position_is position) = latest_position latest == position
  holds latest empty_stream = is_none latest
  holds latest (and_condition cs) = all_hold latest cs
  holds latest (or_condition nil) = true
  holds latest (or_condition (cons c cs)) = holds latest c || any_holds latest cs

  pub all_hold : Option SerialisedEvent → Conditions → Bool
  all_hold latest nil = true
  all_hold latest (cons c cs) = holds latest c && all_hold latest cs

  pub any_holds : Option SerialisedEvent → Conditions → Bool
  any_holds latest nil = false
  any_holds latest (cons c cs) = holds latest c || any_holds latest cs

abbrev pub Member : WriteCondition → List WriteCondition → Type 0
Member c [] = ⊥
Member c (d ∷ ds) = (c ≡ d) ⊎ Member c ds

-- What `frozenset` promises: the items of the list, and no others.
abbrev pub KeepsMembers : (List WriteCondition → List WriteCondition) → Type 0
KeepsMembers frozenset =
    (cs : List WriteCondition) (c : WriteCondition) → Member c (frozenset cs) ↔ Member c cs

module _ (p : WriteCondition → Bool) where
  all_members :
      (cs : List WriteCondition) (c : WriteCondition) → all p cs ≡ true → Member c cs → p c ≡ true
  all_members [] c h m = absurd m
  all_members (d ∷ ds) c h (inl e) = ground arith
  all_members (d ∷ ds) c h (inr m) = all_members ds c (ground arith) m

  all_of_members :
      (cs : List WriteCondition)
      → ((c : WriteCondition) → Member c cs → p c ≡ true)
      → all p cs ≡ true
  all_of_members [] h = refl
  all_of_members (d ∷ ds) h = ground (arith, h d (inl refl), all_of_members ds (λ c m. h c (inr m)))

  any_of_Member :
      (cs : List WriteCondition) (c : WriteCondition) → Member c cs → p c ≡ true → any p cs ≡ true
  any_of_Member [] c m h = absurd m
  any_of_Member (d ∷ ds) c (inl e) h = ground arith
  any_of_Member (d ∷ ds) c (inr m) h = ground (arith, any_of_Member ds c m h)

  Member-of_any :
      (cs : List WriteCondition)
      → any p cs ≡ true
      → (c : WriteCondition) × Member c cs × (p c ≡ true)
  Member-of_any [] h = cc
  Member-of_any (d ∷ ds) h = elim (Bool-cases (p d)) [
    | inl yes_d ↦ (d, inl refl, yes_d)
    | inr no_d ↦ let (c, m, e) = Member-of_any ds (ground arith) in (c, inr m, e)
  ]

  module _ (frozenset : List WriteCondition → List WriteCondition)
      (keeps : KeepsMembers frozenset) where
    all-frozenset : (cs : List WriteCondition) → all p (frozenset cs) ≡ all p cs
    all-frozenset cs =
        Bool-ext _ _
          (λ h. all_of_members cs (λ c m. all_members (frozenset cs) c h ((keeps cs c).1 m)))
          (λ h. all_of_members (frozenset cs) (λ c m. all_members cs c h ((keeps cs c).0 m)))

    any-frozenset : (cs : List WriteCondition) → any p (frozenset cs) ≡ any p cs
    any-frozenset cs =
        Bool-ext _ _
          (λ h.
            let (c, m, e) = Member-of_any (frozenset cs) h in
            any_of_Member cs c ((keeps cs c).0 m) e)
          (λ h.
            let (c, m, e) = Member-of_any cs h in
            any_of_Member (frozenset cs) c ((keeps cs c).1 m) e)

abbrev parts : Combination → WriteCondition → List WriteCondition
parts kind c = elim (conditions_of kind c) [ some cs ↦ cs | none ↦ c ∷ [] ]

combine-construct :
    (frozenset : List WriteCondition → List WriteCondition) (kind : Combination)
    (self other : WriteCondition)
    → combine frozenset kind self other
      ≡ construct frozenset kind (parts kind self ++ parts kind other)
unfolding combine
combine-construct frozenset kind self other = ground arith

parts-Member :
    (self other : WriteCondition)
    → self ≢ or_condition nil
    → (c : WriteCondition) × Member c (parts disjunction self ++ parts disjunction other)
unfolding conditions_of
parts-Member (or_condition nil) other h = absurd (h refl)
parts-Member (or_condition (cons c cs)) other h = (c, inl refl)
parts-Member no_condition other h = (no_condition, inl refl)
parts-Member (position_is p) other h = (position_is p, inl refl)
parts-Member empty_stream other h = (empty_stream, inl refl)
parts-Member (and_condition cs) other h = (and_condition cs, inl refl)

module _ (latest : Option SerialisedEvent) where
  all_hold-of_list :
      (cs : List WriteCondition) → all_hold latest (of_list cs) ≡ all (holds latest) cs
  unfolding of_list holds
  all_hold-of_list [] = refl
  all_hold-of_list (c ∷ cs) = rw (all_hold-of_list cs)

  any_holds-of_list :
      (cs : List WriteCondition) → any_holds latest (of_list cs) ≡ any (holds latest) cs
  unfolding of_list holds
  any_holds-of_list [] = refl
  any_holds-of_list (c ∷ cs) = rw (any_holds-of_list cs)

  all-to_list : (cs : Conditions) → all (holds latest) (to_list cs) ≡ all_hold latest cs
  unfolding to_list holds
  all-to_list nil = refl
  all-to_list (cons c cs) = rw (all-to_list cs)

  any-to_list : (cs : Conditions) → any (holds latest) (to_list cs) ≡ any_holds latest cs
  unfolding to_list holds
  any-to_list nil = refl
  any-to_list (cons c cs) = rw (any-to_list cs)

  -- A disjunction of something holds if a part does.
  holds-or_condition :
      (cs : List WriteCondition) (c : WriteCondition)
      → Member c cs
      → holds latest (or_condition (of_list cs)) ≡ any (holds latest) cs
  unfolding of_list holds
  holds-or_condition [] c m = absurd m
  holds-or_condition (d ∷ ds) c m = rw (any_holds-of_list ds)

  all-append :
      (xs ys : List WriteCondition)
      → all (holds latest) (xs ++ ys) ≡ (all (holds latest) xs && all (holds latest) ys)
  all-append [] ys = refl
  all-append (x ∷ xs) ys = ground (arith, all-append xs ys)

  any-append :
      (xs ys : List WriteCondition)
      → any (holds latest) (xs ++ ys) ≡ (any (holds latest) xs || any (holds latest) ys)
  any-append [] ys = refl
  any-append (x ∷ xs) ys = ground (arith, any-append xs ys)

  all-parts : (c : WriteCondition) → all (holds latest) (parts conjunction c) ≡ holds latest c
  unfolding conditions_of holds
  all-parts no_condition = refl
  all-parts (position_is p) = and_true (holds latest (position_is p))
  all-parts empty_stream = and_true (holds latest empty_stream)
  all-parts (and_condition cs) = all-to_list cs
  all-parts (or_condition nil) = refl
  all-parts (or_condition (cons c cs)) = and_true (holds latest (or_condition (cons c cs)))

  any-parts :
      (c : WriteCondition)
      → c ≢ or_condition nil
      → any (holds latest) (parts disjunction c) ≡ holds latest c
  unfolding conditions_of holds
  any-parts no_condition h = refl
  any-parts (position_is p) h = or_false (holds latest (position_is p))
  any-parts empty_stream h = or_false (holds latest empty_stream)
  any-parts (and_condition cs) h = or_false (holds latest (and_condition cs))
  any-parts (or_condition nil) h = absurd (h refl)
  any-parts (or_condition (cons c cs)) h = any-to_list (cons c cs)

  module _ (frozenset : List WriteCondition → List WriteCondition)
      (keeps : KeepsMembers frozenset) where
    holds-construct_conjunction :
        (cs : List WriteCondition)
        → holds latest (construct frozenset conjunction cs) ≡ all (holds latest) cs
    unfolding construct holds
    holds-construct_conjunction cs =
        all_hold-of_list (frozenset cs) ∙ all-frozenset (holds latest) frozenset keeps cs

    holds-construct_disjunction :
        (cs : List WriteCondition) (c : WriteCondition)
        → Member c cs
        → holds latest (construct frozenset disjunction cs) ≡ any (holds latest) cs
    unfolding construct
    holds-construct_disjunction cs c m =
        holds-or_condition (frozenset cs) c ((keeps cs c).1 m)
        ∙ any-frozenset (holds latest) frozenset keeps cs

    -- If `frozenset` keeps members, `&` holds exactly if both sides hold, whichever of them are conjunctions already.
    pub holds-and :
        (self other : WriteCondition)
        → holds latest (and frozenset self other) ≡ (holds latest self && holds latest other)
    unfolding and
    holds-and self other =
        rw combine-construct
          (rw holds-construct_conjunction (rw all-append (rw (all-parts self, all-parts other))))

    -- If `frozenset` keeps members, `|` holds exactly if one of the sides holds, whichever of them are disjunctions already, if
    -- neither side is the disjunction of nothing.
    pub holds-or :
        (self other : WriteCondition)
        → self ≢ or_condition nil
        → other ≢ or_condition nil
        → holds latest (or frozenset self other) ≡ (holds latest self || holds latest other)
    unfolding or
    holds-or self other s o =
        let (c, m) = parts-Member self other s in
        rw combine-construct (
          holds-construct_disjunction _ c m
          ∙ any-append (parts disjunction self) (parts disjunction other)
          ∙ (rw (any-parts self s, any-parts other o)))
