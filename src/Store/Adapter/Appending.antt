-- ===== src/Store/Adapter/Appending.antt =====
-- A valid adapter stays valid when numbered events of one stream are appended.
use mathlib.Core.List.{append-nil, append_assoc, map-append}
use event_store.Prelude.{
  ℕ, suc, ◌+◌, ◌≤◌, ◌<◌, ◌≡◌, refl, ap, ◌∙◌, subst, pos, String, List, [], ◌∷◌, ◌++◌, arith, length,
  select, select-append, select-All, select-All_not, ok, >>=-eq-ok, ok-injective, inl, inr, All,
  All-append, All-map, All-over_map, ◌≢◌, Bool-cases, ◌==◌, pair_eq, string_eq, pair_beq_iff,
  if◌then◌else◌,
}
use event_store.Types.Event.{SerialisedEvent}
use event_store.Store.Db.{EventsDb, StreamIdentifier, StreamKey, key, add, add_all}
use event_store.Store.Db.Represents.{Log, Represents, Represents-add, in_stream, sequence_numbers}
use event_store.Store.Adapter.{Adapter, EventToStore, NewStoredEvent}
use event_store.Store.Adapter.Positions.{count_from, positions, IsCounted-append}
use event_store.Store.Adapter.Specification.{
  own, IsIncreasing, IsValid, kept, serialise_all, event_at_position, numbered,
}

-- Events of the stream whose positions and sequence numbers count on from the given ones.
abbrev pub Follows : StreamIdentifier → ℕ → ℕ → Log → Type 0
Follows target n sequence [] = Unit
Follows target n sequence (e ∷ l) =
    (e.position ≡ pos n)
    × (e.sequence_number ≡ sequence)
    × ((e.category, e.stream) ≡ key target)
    × Follows target (suc n) (suc sequence) l

kept-keeps :
    (e : NewStoredEvent) (s : SerialisedEvent)
    → kept e ≡ ok s
    → (s.position ≡ e.position)
      × (s.sequence_number ≡ e.sequence_number)
      × (s.category ≡ e.category)
      × (s.stream ≡ e.stream)
unfolding kept
kept-keeps e s h = ground arith

-- Serialising keeps what numbering gave.
pub serialise_all-Follows :
    (uuid4_hex : ℕ → String) (target : StreamIdentifier) (n sequence : ℕ)
    (events : List EventToStore) (s : Log)
    → serialise_all (numbered uuid4_hex target n sequence events) ≡ ok s
    → Follows target n sequence s × (length s ≡ length events)
unfolding numbered serialise_all
serialise_all-Follows uuid4_hex target n sequence [] s h =
    subst (λ (t : Log). Follows target n sequence t × (length t ≡ 0)) (ok-injective h) (tt, refl)
serialise_all-Follows uuid4_hex target n sequence (e ∷ events) s h =
    let (x, p, h') = >>=-eq-ok (kept (event_at_position uuid4_hex target (pos n) sequence e)) _ h in
    let (r, q, h'') =
      >>=-eq-ok (serialise_all (numbered uuid4_hex target (suc n) (suc sequence) events)) _ h' in
    let (position_same, sequence_same, category_same, stream_same) = kept-keeps _ x p in
    let (rest, size) = serialise_all-Follows uuid4_hex target (suc n) (suc sequence) events r q in
    subst (λ (t : Log). Follows target n sequence t × (length t ≡ suc (length events)))
      (ok-injective h'')
      ((position_same, sequence_same, (λ i. (category_same i, stream_same i)), rest), ap suc size)

Follows-positions :
    (target : StreamIdentifier) (n sequence : ℕ) (s : Log)
    → Follows target n sequence s
    → positions s ≡ count_from n (length s)
unfolding count_from
Follows-positions target n sequence [] f = refl
Follows-positions target n sequence (e ∷ s) f =
    rw (f.0, Follows-positions target (suc n) (suc sequence) s f.3)

Follows-in_stream :
    (target : StreamIdentifier) (n sequence : ℕ) (k : StreamKey) (s : Log)
    → Follows target n sequence s
    → All (λ e. in_stream k e ≡ (key target == k)) s
Follows-in_stream target n sequence k [] f = tt
Follows-in_stream target n sequence k (e ∷ s) f =
    (ap (λ j. j == k) f.2, Follows-in_stream target (suc n) (suc sequence) k s f.3)

Follows-at_least :
    (target : StreamIdentifier) (n sequence m : ℕ) (s : Log)
    → m ≤ sequence
    → Follows target n sequence s
    → All (λ k. m ≤ k) (sequence_numbers s)
Follows-at_least target n sequence m [] h f = tt
Follows-at_least target n sequence m (e ∷ s) h f =
    (omega arith, Follows-at_least target (suc n) (suc sequence) m s (omega arith) f.3)

Follows-below :
    (target : StreamIdentifier) (n sequence : ℕ) (s : Log)
    → Follows target n sequence s
    → All (λ e. e.sequence_number < sequence + length s) s
Follows-below target n sequence [] f = tt
Follows-below target n sequence (e ∷ s) f = (
  omega arith,
  All-map (λ x (p : x.sequence_number < suc sequence + length s). omega arith) s
      (Follows-below target (suc n) (suc sequence) s f.3),
)

Follows-IsIncreasing :
    (target : StreamIdentifier) (n sequence : ℕ) (s : Log)
    → Follows target n sequence s
    → IsIncreasing (sequence_numbers s)
Follows-IsIncreasing target n sequence [] f = tt
Follows-IsIncreasing target n sequence (e ∷ s) f = (
  Follows-at_least target (suc n) (suc sequence) (suc e.sequence_number) s (omega arith) f.3,
  Follows-IsIncreasing target (suc n) (suc sequence) s f.3,
)

IsIncreasing-append :
    (m : ℕ) (xs ys : List ℕ)
    → IsIncreasing xs
    → All (λ x. x < m) xs
    → IsIncreasing ys
    → All (λ y. m ≤ y) ys
    → IsIncreasing (xs ++ ys)
IsIncreasing-append m [] ys h b k c = k
IsIncreasing-append m (x ∷ xs) ys h b k c = (
  All-append (λ y. x < y) xs ys h.0 (All-map (λ y (p : m ≤ y). omega arith) ys c),
  IsIncreasing-append m xs ys h.1 b.1 k c,
)

Represents-add_all :
    (db : EventsDb) (l : Log) (target : StreamIdentifier) (n sequence : ℕ) (s : Log)
    → All (λ e. e.sequence_number < sequence) l
    → Follows target n sequence s
    → Represents db l
    → Represents (add_all db s) (l ++ s)
unfolding add_all
Represents-add_all db l target n sequence [] b f r = rw append-nil r
Represents-add_all db l target n sequence (e ∷ s) b f r = rw (← append_assoc l (e ∷ []) s) (
    Represents-add_all (add db e) (l ++ e ∷ []) target (suc n) (suc sequence) s
      (All-append (λ x. x.sequence_number < suc sequence) l (e ∷ [])
        (All-map (λ x (p : x.sequence_number < sequence). omega arith) l b) (omega arith, tt))
      f.3
      (Represents-add db l e
        (All-map {Q = λ x. x.sequence_number ≢ e.sequence_number} (λ x p q. absurd (omega arith)) l
          b)
        r))

pub own-append :
    (target : StreamIdentifier) (n sequence : ℕ) (l s : Log) (k : StreamKey)
    → Follows target n sequence s
    → select (in_stream k) (l ++ s)
      ≡ (if key target == k then select (in_stream k) l ++ s else select (in_stream k) l)
own-append target n sequence l s k f = elim (Bool-cases (key target == k)) [
  | inl same ↦
      rw (select-append, same)
        (ap (λ t. select (in_stream k) l ++ t)
          (select-All (in_stream k) s
            (All-map (λ x p. p ∙ same) s (Follows-in_stream target n sequence k s f))))
  | inr other ↦
      rw (select-append, other)
        (ap (λ t. select (in_stream k) l ++ t)
            (select-All_not (in_stream k) s
              (All-map (λ x p. p ∙ other) s (Follows-in_stream target n sequence k s f)))
          ∙ append-nil _)
]

-- Numbered events that go on where the stream and the sequence stand keep the adapter valid.
pub IsValid-append :
    (a : Adapter) (l : Log) (target : StreamIdentifier) (s : Log)
    → IsValid a l
    → Follows target (length (own target l)) a.sequence s
    → IsValid (record { sequence = a.sequence + length s; db = add_all a.db s }) (l ++ s)
IsValid-append a l target s v f = record {
  represents = Represents-add_all a.db l target _ a.sequence s v.below f v.represents;
  contiguous = λ k. elim (Bool-cases (key target == k)) [
    | inl same ↦ rw (own-append target _ a.sequence l s k f) (
        rw same (
          IsCounted-append (select (in_stream k) l) s (v.contiguous k) (
            subst (λ j. positions s ≡ count_from (length (select (in_stream j) l)) (length s))
              ((pair_beq_iff (key target) k).0 same)
              (Follows-positions target (length (own target l)) a.sequence s f))))
    | inr other ↦ rw (own-append target _ a.sequence l s k f) (rw other (v.contiguous k))
  ];
  below =
      All-append (λ e. e.sequence_number < a.sequence + length s) l s
        (All-map (λ x (p : x.sequence_number < a.sequence). omega arith) l v.below)
        (Follows-below target _ a.sequence s f);
  increasing = rw map-append (
      IsIncreasing-append a.sequence (sequence_numbers l) (sequence_numbers s) v.increasing
        (All-over_map (λ m. m < a.sequence) (λ e. e.sequence_number) l v.below)
        (Follows-IsIncreasing target _ a.sequence s f)
        (Follows-at_least target _ a.sequence a.sequence s (omega arith) f));
}
