-- ===== src/Processing/Locks/Refusing.antt =====
-- Callers that only try for a lock are refused only a name that another holds.
use event_store.Prelude.{
  ℕ, suc, ◌<◌, ◌≡◌, refl, sym, ap, ◌∙◌, subst, String, string_eq, nat_eq, pair_eq, none, some, List,
  [], ◌∷◌, any, arith, ◌==◌, Dict, lookup, assign, pop, lookup-assign, lookup-pop, Bool-cases,
  Option-cases, ◌⊎◌, inl, inr, if◌then◌else◌,
}
use event_store.Processing.Locks.{
  InMemoryLockManager, new_manager, is_locked, control, acquire, forget, release, TryStep, refused,
  granted, released,
}
use event_store.Processing.Locks.Trying.{
  Tries, done, then_, AreNamed, control-HasControl, Tries-IsSafe,
}

found_assigned :
    (name a : String) (n c : ℕ) (locks : Dict String ℕ)
    → lookup a (assign name n locks) ≡ some c
    → ((name ≡ a) × (n ≡ c)) ⊎ (lookup a locks ≡ some c)
found_assigned name a n c locks found =
    let assigned : (if name == a then some n else lookup a locks) ≡ some c =
      sym (lookup-assign name n locks a) ∙ found in
    elim (Bool-cases (name == a)) [
      | inl p ↦ inl ((string_eq.test_iff name a).0 p, ground (arith, p, assigned))
      | inr p ↦ inr (ground (arith, p, assigned))
    ]

found_popped :
    (name a : String) (c : ℕ) (locks : Dict String ℕ)
    → lookup a (pop name locks) ≡ some c
    → lookup a locks ≡ some c
found_popped name a c locks found =
    let popped : (if name == a then none else lookup a locks) ≡ some c =
      sym (lookup-pop name locks a) ∙ found in
    elim (Bool-cases (name == a)) [
      | inl p ↦ ground (arith, p, popped)
      | inr p ↦ ground (arith, p, popped)
    ]

-- No object stands under two names, and the next one stands under none.
record AreDistinct (next : ℕ) (locks : Dict String ℕ) : Type 0 where
  one_name : (a b : String) (c : ℕ) → lookup a locks ≡ some c → lookup b locks ≡ some c → a ≡ b
  old : (a : String) (c : ℕ) → lookup a locks ≡ some c → c < next

AreDistinct-assign :
    (name : String) (next : ℕ) (locks : Dict String ℕ)
    → AreDistinct next locks
    → AreDistinct (suc next) (assign name next locks)
AreDistinct-assign name next locks h = record {
  one_name = λ a b c at_a at_b. elim (found_assigned name a next c locks at_a) [
    | inl (p, n) ↦ elim (found_assigned name b next c locks at_b) [
      | inl (q, _) ↦ sym p ∙ q
      | inr q ↦ ground (arith, n, h.old b c q)
    ]
    | inr p ↦ elim (found_assigned name b next c locks at_b) [
      | inl (_, n) ↦ ground (arith, n, h.old a c p)
      | inr q ↦ h.one_name a b c p q
    ]
  ];
  old = λ a c at_a. elim (found_assigned name a next c locks at_a) [
    | inl (_, n) ↦ ground (arith, n)
    | inr p ↦ ground (arith, h.old a c p)
  ];
}

AreDistinct-pop :
    (name : String) (next : ℕ) (locks : Dict String ℕ)
    → AreDistinct next locks
    → AreDistinct next (pop name locks)
AreDistinct-pop name next locks h = record {
  one_name = λ a b c at_a at_b.
      h.one_name a b c (found_popped name a c locks at_a) (found_popped name b c locks at_b);
  old = λ a c at_a. h.old a c (found_popped name a c locks at_a);
}

control-AreDistinct :
    (self : InMemoryLockManager) (name : String)
    → AreDistinct self.next self.locks
    → AreDistinct (control self name).1.next (control self name).1.locks
unfolding control
control-AreDistinct self name h = elim (Option-cases (lookup name self.locks)) [
  | inl e ↦ rw (e, control) (AreDistinct-assign name self.next self.locks h)
  | inr (c, e) ↦ rw (e, control) h
]

step-AreDistinct :
    {self self' : InMemoryLockManager}
    → TryStep self self'
    → AreDistinct self.next self.locks
    → AreDistinct self'.next self'.locks
unfolding acquire release forget
step-AreDistinct (refused self name locked) h = control-AreDistinct self name h
step-AreDistinct (granted self name free) h = control-AreDistinct self name h
step-AreDistinct (released self name c holds) h = AreDistinct-pop name self.next self.locks h

Tries-AreDistinct :
    {self self' : InMemoryLockManager}
    → Tries self self'
    → AreDistinct self.next self.locks
    → AreDistinct self'.next self'.locks
Tries-AreDistinct done h = h
Tries-AreDistinct (then_ before step) h = step-AreDistinct step (Tries-AreDistinct before h)

-- A name's object is held by those that asked for that name.
any-held :
    (name : String) (c next : ℕ) (locks : Dict String ℕ) (held : List (String × ℕ))
    → lookup name locks ≡ some c
    → AreDistinct next locks
    → AreNamed locks held
    → any (λ holder. holder.1 == c) held ≡ any (λ holder. holder.0 == name) held
any-held name c next locks [] found distinct h = refl
any-held name c next locks (g ∷ held) found distinct h =
    let rest = any-held name c next locks held found distinct h.1 in
    elim (Bool-cases (g.0 == name)) [
      | inl e ↦
          let at_name =
            subst (λ k. lookup k locks ≡ some g.1) ((string_eq.test_iff g.0 name).0 e) h.0 in
          let same : some g.1 ≡ some c = sym at_name ∙ found in
          ground (arith, rest, e, same, nat_eq.test_iff g.1 c)
      | inr e ↦ elim (Bool-cases (g.1 == c)) [
        | inl o ↦
            let at_c : lookup g.0 locks ≡ some c = h.0 ∙ ap some ((nat_eq.test_iff g.1 c).0 o) in
            let same = (string_eq.test_iff g.0 name).1 (distinct.one_name g.0 name c at_c found) in
            ground (arith, e, same)
        | inr o ↦ ground (arith, rest, e, o)
      ]
    ]

-- After any steps of callers of `try_lock` of a new manager, the next caller finds the lock of a
-- name locked exactly if some caller holds that name.
pub is_locked-held :
    (self : InMemoryLockManager) (name : String)
    → Tries new_manager self
    → is_locked (control self name).1 (control self name).0
      ≡ any (λ holder. holder.0 == name) self.held
unfolding new_manager is_locked
is_locked-held self name steps =
    let safe = Tries-IsSafe steps (record { named = tt; exclusive = tt }) in
    let (safe', found, same) = control-HasControl self name safe in
    let distinct = control-AreDistinct self name (
      Tries-AreDistinct steps
        (record { one_name = λ a b c p q. ground (arith, p); old = λ a c p. ground (arith, p) })) in
    any-held name (control self name).0 _ _ _ found distinct safe'.named
    ∙ ap (any (λ (h : String × ℕ). h.0 == name)) same
