-- ===== src/Processing/Locks/Trying.antt =====
-- Callers that only try for a lock exclude one another.
use event_store.Prelude.{
  ℕ, ◌≤◌, ◌≡◌, refl, sym, ◌∙◌, subst, String, string_eq, nat_eq, pair_eq, Bool, false, not, none,
  some, List, [], ◌∷◌, map, any, select, member-All, count, arith, All, All-select, ◌==◌, Dict,
  lookup, assign, pop, lookup-assign, lookup-pop, Bool-cases, Option-cases, inl, inr, beq_refl,
}
use event_store.Processing.Locks.{
  InMemoryLockManager, new_manager, is_locked, control, acquire, forget, release, TryStep, refused,
  granted, released,
}

-- Each holder's object stands under the name that it asked for.
abbrev pub AreNamed : Dict String ℕ → List (String × ℕ) → Type 0
AreNamed locks = All (λ holder. lookup holder.0 locks ≡ some holder.1)

-- No two holders asked for the same name.
abbrev AreExclusive : List (String × ℕ) → Type 0
AreExclusive [] = Unit
AreExclusive (h ∷ held) = All (λ g. (g.0 == h.0) ≡ false) held × AreExclusive held

pub record IsSafe (self : InMemoryLockManager) : Type 0 where
  pub named : AreNamed self.locks self.held
  pub exclusive : AreExclusive self.held

-- Any number of steps of `try_lock`.
pub data Tries : InMemoryLockManager → InMemoryLockManager → Type 0 where
  done : {self : InMemoryLockManager} → Tries self self
  then_ :
      {self self' self'' : InMemoryLockManager}
      → Tries self self'
      → TryStep self' self''
      → Tries self self''

AreNamed-assign :
    (name : String) (c : ℕ) (locks : Dict String ℕ) (held : List (String × ℕ))
    → lookup name locks ≡ none
    → AreNamed locks held
    → AreNamed (assign name c locks) held
AreNamed-assign name c locks [] absent h = tt
AreNamed-assign name c locks (g ∷ held) absent h = (
  elim (Bool-cases (name == g.0)) [
    | inl e ↦
        let at_name =
          subst (λ k. lookup k locks ≡ some g.1) (sym ((string_eq.test_iff name g.0).0 e)) h.0 in
        ground (arith, at_name, absent)
    | inr e ↦ lookup-assign name c locks g.0 ∙ (rw e h.0)
  ],
  AreNamed-assign name c locks held absent h.1,
)

-- A name whose object is free has no holder.
no_holder :
    (name : String) (c : ℕ) (locks : Dict String ℕ) (held : List (String × ℕ))
    → lookup name locks ≡ some c
    → any (λ holder. holder.1 == c) held ≡ false
    → AreNamed locks held
    → All (λ g. (g.0 == name) ≡ false) held
no_holder name c locks [] found free h = tt
no_holder name c locks (g ∷ held) found free h = (
  elim (Bool-cases (g.0 == name)) [
    | inl e ↦
        let at_name =
          subst (λ k. lookup k locks ≡ some g.1) ((string_eq.test_iff g.0 name).0 e) h.0 in
        let same : some g.1 ≡ some c = sym at_name ∙ found in
        ground (arith, same, free, nat_eq.test_iff g.1 c)
    | inr e ↦ e
  ],
  no_holder name c locks held found (ground (arith, free)) h.1,
)

-- Without a name and its holder, the others are named as before.
AreNamed-pop :
    (name : String) (c : ℕ) (locks : Dict String ℕ) (held : List (String × ℕ))
    → lookup name locks ≡ some c
    → AreNamed locks held
    → AreNamed (pop name locks) (select (λ holder. not (holder == (name, c))) held)
AreNamed-pop name c locks [] found h = tt
AreNamed-pop name c locks (g ∷ held) found h = elim (Bool-cases (g == (name, c))) [
  | inl e ↦ rw e (AreNamed-pop name c locks held found h.1)
  | inr e ↦ rw e (
    elim (Bool-cases (name == g.0)) [
      | inl q ↦
          let at_name =
            subst (λ k. lookup k locks ≡ some g.1) (sym ((string_eq.test_iff name g.0).0 q)) h.0 in
          let same : some g.1 ≡ some c = sym at_name ∙ found in
          ground (
            arith,
            same,
            e,
            q,
            string_eq.test_iff name g.0,
            string_eq.test_iff g.0 name,
            nat_eq.test_iff g.1 c,
          )
      | inr q ↦ lookup-pop name locks g.0 ∙ (rw q h.0)
    ],
    AreNamed-pop name c locks held found h.1,
  )
]

AreExclusive-select :
    (p : String × ℕ → Bool) (held : List (String × ℕ))
    → AreExclusive held
    → AreExclusive (select p held)
AreExclusive-select p [] h = tt
AreExclusive-select p (g ∷ held) h = elim (Bool-cases (p g)) [
  | inl e ↦ rw e (All-select _ p held h.0, AreExclusive-select p held h.1)
  | inr e ↦ rw e (AreExclusive-select p held h.1)
]

abbrev pub HasControl : InMemoryLockManager → String → Type 0
HasControl self name =
    IsSafe (control self name).1
    × (lookup name (control self name).1.locks ≡ some (control self name).0)
    × ((control self name).1.held ≡ self.held)

pub control-HasControl :
    (self : InMemoryLockManager) (name : String) → IsSafe self → HasControl self name
unfolding control
control-HasControl self name safe = elim (Option-cases (lookup name self.locks)) [
  | inl e ↦
      rw (e, control)
        (
          record {
            named = AreNamed-assign name self.next self.locks self.held e safe.named;
            exclusive = safe.exclusive;
          },
          lookup-assign name self.next self.locks name ∙ (rw (beq_refl name) refl),
          refl,
        )
  | inr (c, e) ↦ rw (e, control) (safe, e, refl)
]

step-IsSafe : {self self' : InMemoryLockManager} → TryStep self self' → IsSafe self → IsSafe self'
unfolding is_locked acquire release forget
step-IsSafe (refused self name locked) safe = (control-HasControl self name safe).0
step-IsSafe (granted self name free) safe =
    let (safe', found, same) = control-HasControl self name safe in
    record {
      named = (found, safe'.named);
      exclusive =
          (no_holder name (control self name).0 _ _ found free safe'.named, safe'.exclusive);
    }
step-IsSafe (released self name c holds) safe = record {
  named =
      AreNamed-pop name c self.locks self.held
        (member-All (λ (h : String × ℕ). lookup h.0 self.locks ≡ some h.1) (name, c) self.held
          safe.named holds)
        safe.named;
  exclusive = AreExclusive-select _ self.held safe.exclusive;
}

pub Tries-IsSafe :
    {self self' : InMemoryLockManager} → Tries self self' → IsSafe self → IsSafe self'
Tries-IsSafe done safe = safe
Tries-IsSafe (then_ before step) safe = step-IsSafe step (Tries-IsSafe before safe)

absent :
    (name : String) (held : List (String × ℕ))
    → All (λ g. (g.0 == name) ≡ false) held
    → count name (map (λ holder. holder.0) held) ≡ 0
absent name [] h = refl
absent name (g ∷ held) h = rw h.0 (ground (arith, absent name held h.1))

exclusive-count :
    (name : String) (held : List (String × ℕ))
    → AreExclusive held
    → count name (map (λ holder. holder.0) held) ≤ 1
exclusive-count name [] h = ground arith
exclusive-count name (g ∷ held) h = elim (Bool-cases (g.0 == name)) [
  | inl e ↦
      let others =
        subst (λ k. All (λ x. (x.0 == k) ≡ false) held) ((string_eq.test_iff g.0 name).0 e) h.0 in
      rw (e, absent name held others) (ground arith)
  | inr e ↦ rw e (ground (arith, exclusive-count name held h.1))
]

-- After any steps of callers of `try_lock` of a new manager, no name has two holders.
pub Tries-exclusive :
    (self : InMemoryLockManager) (name : String)
    → Tries new_manager self
    → count name (map (λ holder. holder.0) self.held) ≤ 1
unfolding new_manager
Tries-exclusive self name steps =
    exclusive-count name self.held
      (Tries-IsSafe steps (record { named = tt; exclusive = tt })).exclusive
