-- ===== src/Store/Adapter/Positions.antt =====
-- Positions in a stream: they count from 0 without a gap, and a save goes on counting.
use mathlib.Core.List.{map-append}
use native.Mathlib.Nat.{add-zero, zero-add, add-suc, suc-add}
use event_store.Prelude.{
  ℕ, zero, suc, ◌+◌, ◌≡◌, ap, sym, ◌∙◌, ℤ, pos, ◌+ℤ◌, +ℤ-pos, minus_one-pos, List, [], ◌∷◌, ◌++◌,
  map, arith, length, last?, select, length-append, pair_eq, string_eq,
}
use event_store.Types.Event.{SerialisedEvent}
use event_store.Store.Db.{StreamKey, position_or_none}
use event_store.Store.Db.Represents.{Log, in_stream}

-- `n` integers from `i` on
unfoldable pub count_from : ℕ → ℕ → List ℤ
count_from i zero = []
count_from i (suc n) = pos i ∷ count_from (suc i) n

abbrev pub positions : Log → List ℤ
positions = map (λ e. e.position)

abbrev pub IsCounted : Log → Type 0
IsCounted l = positions l ≡ count_from 0 (length l)

-- The events of each stream have the positions 0, 1, 2 and so on, in the order of the log.
abbrev pub IsContiguous : Log → Type 0
IsContiguous l = (k : StreamKey) → IsCounted (select (in_stream k) l)

count_from-append : (i n m : ℕ) → count_from i n ++ count_from (i + n) m ≡ count_from i (n + m)
unfolding count_from
count_from-append i zero m = simp (add-zero, zero-add)
count_from-append i (suc n) m =
    rw (suc-add, add-suc, ← suc-add i n) (ap (◌∷◌ (pos i)) (count_from-append (suc i) n m))

pub IsCounted-append :
    (own new : Log)
    → IsCounted own
    → positions new ≡ count_from (length own) (length new)
    → IsCounted (own ++ new)
IsCounted-append own new h k =
    map-append _ own new
    ∙ (rw (h, k, length-append own new)
        (ap (λ t. count_from 0 (length own) ++ count_from t (length new))
            (sym (zero-add (length own)))
          ∙ count_from-append 0 (length own) (length new)))

last-count :
    (i : ℕ) (e : SerialisedEvent) (l : Log)
    → positions (e ∷ l) ≡ count_from i (suc (length l))
    → position_or_none (last? (e ∷ l)) ≡ pos (i + length l)
unfolding count_from position_or_none
last-count i e [] h = ground arith
last-count i e (f ∷ l) h = last-count (suc i) f l (ground arith) ∙ ap pos (omega arith)

-- The position that a save gives to its event number `c`.
pub next_position :
    (own : Log) (c : ℕ)
    → IsCounted own
    → position_or_none (last? own) +ℤ pos c +ℤ pos 1 ≡ pos (length own + c)
unfolding position_or_none
next_position [] c h = rw (minus_one-pos c, zero-add)
next_position (e ∷ l) c h = rw (last-count 0 e l h, +ℤ-pos, +ℤ-pos) (ap pos (omega arith))
