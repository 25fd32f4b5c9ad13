-- ===== src/Persistence/Queries/Bound.antt =====
-- How the pieces of a statement carry their parameters.
use mathlib.Core.List.{append-nil}
use event_store.Prelude.{
  ℕ, ◌≡◌, refl, sym, ap, ◌∙◌, String, Option, none, some, List, [], ◌∷◌, ◌++◌, map, All, Result, ok,
  err, ◌>>=◌,
}
use event_store.Persistence.Sql.{
  Value, Sql, text, identifier, placeholder, raw as raw_text, join, Fragment, statements_of,
  params_of,
}
use event_store.Persistence.Queries.{
  Operator, operator_value, SetQuantifier, all_rows, distinct_rows, SortDirection, asc, desc,
}
use event_store.Persistence.Queries.Fragments.{
  qualified, around, in_parentheses, joined, compared, clause_of, bound_fragment, table_fragment,
  direction_suffix, label_suffix, union_part,
}

-- What the placeholders of a statement are meant for, from left to right.
abbrev pub marks : Sql → List Value
marks [] = []
marks (placeholder value ∷ sql) = value ∷ marks sql
marks (text t ∷ sql) = marks sql
marks (identifier t ∷ sql) = marks sql
marks (raw_text t ∷ sql) = marks sql

marks-append : (s t : Sql) → marks (s ++ t) ≡ marks s ++ marks t
marks-append [] t = refl
marks-append (placeholder value ∷ s) t = ap (◌∷◌ value) (marks-append s t)
marks-append (text u ∷ s) t = marks-append s t
marks-append (identifier u ∷ s) t = marks-append s t
marks-append (raw_text u ∷ s) t = marks-append s t

marks-append_both : (s t u : Sql) → marks (s ++ t ++ u) ≡ marks s ++ marks t ++ marks u
marks-append_both s t u = marks-append (s ++ t) u ∙ ap (λ ps. ps ++ marks u) (marks-append s t)

-- A fragment's parameters are its statement's, and there are none without a statement.
abbrev pub IsBound : Fragment → Type 0
IsBound (none, params) = params ≡ []
IsBound (some s, params) = marks s ≡ params

abbrev pub OnOk : {A : Type 0} → (A → Type 0) → Result A → Type 0
OnOk P (ok a) = P a
OnOk P (err e) = Unit

pub OnOk-bind :
    {A B : Type 0} (P : B → Type 0) (Q : A → Type 0) (x : Result A) (rest : A → Result B)
    → OnOk Q x
    → ((a : A) → Q a → OnOk P (rest a))
    → OnOk P (x >>= rest)
OnOk-bind P Q (ok a) rest hx h = h a hx
OnOk-bind P Q (err e) rest hx h = tt

pub OnOk-any : {A : Type 0} (x : Result A) → OnOk (λ _. Unit) x
OnOk-any (ok a) = tt
OnOk-any (err e) = tt

marks-join_some :
    (separator s : Sql) (statements : List Sql) (params : List Value)
    → marks separator ≡ []
    → marks (join separator statements) ≡ params
    → marks (join separator (s ∷ statements)) ≡ marks s ++ params
unfolding join
marks-join_some separator s [] params h rest =
    sym (append-nil (marks s)) ∙ ap (λ ps. marks s ++ ps) rest
marks-join_some separator s (t ∷ statements) params h rest =
    marks-append_both s separator (join separator (t ∷ statements))
    ∙ rw (h, append-nil (marks s), rest) refl

-- A separator with no placeholder adds none.
marks-join :
    (separator : Sql) (fragments : List Fragment)
    → marks separator ≡ []
    → All IsBound fragments
    → marks (join separator (statements_of fragments)) ≡ params_of fragments
unfolding join statements_of params_of
marks-join separator [] h all = refl
marks-join separator ((none, params) ∷ fragments) h all =
    marks-join separator fragments h all.1 ∙ ap (λ ps. ps ++ params_of fragments) (sym all.0)
marks-join separator ((some s, params) ∷ fragments) h all =
    marks-join_some separator s (statements_of fragments) (params_of fragments) h
      (marks-join separator fragments h all.1)
    ∙ ap (λ ps. ps ++ params_of fragments) all.0

pub joined-IsBound :
    (opening separator closing : Sql) (fragments : List Fragment)
    → marks opening ≡ []
    → marks separator ≡ []
    → marks closing ≡ []
    → All IsBound fragments
    → IsBound (joined opening separator closing fragments)
unfolding joined
joined-IsBound opening separator closing fragments ho hs hc all =
    marks-append_both opening (join separator (statements_of fragments)) closing
    ∙ rw (ho, hc) (append-nil _ ∙ marks-join separator fragments hs all)

pub around-IsBound :
    (opening closing : Sql) (f : Fragment)
    → marks opening ≡ []
    → marks closing ≡ []
    → IsBound f
    → IsBound (around opening closing f)
unfolding around
around-IsBound opening closing (none, params) ho hc h = h
around-IsBound opening closing (some s, params) ho hc h =
    marks-append_both opening s closing ∙ rw (ho, hc) (append-nil _ ∙ h)

pub in_parentheses-IsBound : (f : Fragment) → IsBound f → IsBound (in_parentheses f)
unfolding in_parentheses
in_parentheses-IsBound (none, params) h = refl
in_parentheses-IsBound (some s, params) h = marks-append s (text ")" ∷ []) ∙ append-nil _ ∙ h

pub qualified-IsBound :
    (schema table : Option String) (name : Sql)
    → marks name ≡ []
    → OnOk IsBound (qualified schema table name)
unfolding qualified
qualified-IsBound (some s) none name h = tt
qualified-IsBound (some s) (some t) name h = h
qualified-IsBound none (some t) name h = h
qualified-IsBound none none name h = h

pub compared-IsBound :
    (f g : Fragment) (o : Option Operator) → IsBound f → IsBound g → OnOk IsBound (compared f o g)
unfolding compared
compared-IsBound (none, p) (none, q) o hf hg = tt
compared-IsBound (none, p) (some t, q) o hf hg = tt
compared-IsBound (some s, p) (none, q) none hf hg = tt
compared-IsBound (some s, p) (none, q) (some o) hf hg = tt
compared-IsBound (some s, p) (some t, q) none hf hg = tt
compared-IsBound (some s, p) (some t, q) (some o) hf hg =
    marks-append_both s (text " " ∷ text (operator_value o) ∷ text " " ∷ []) t
    ∙ rw (append-nil (marks s), hf, hg) refl

pub clause_of-IsBound :
    (opening separator : Sql) (fragments : List Fragment)
    → marks opening ≡ []
    → marks separator ≡ []
    → All IsBound fragments
    → IsBound (clause_of opening separator fragments)
unfolding clause_of
clause_of-IsBound opening separator [] ho hs all = refl
clause_of-IsBound opening separator (f ∷ fragments) ho hs all =
    joined-IsBound opening separator [] (f ∷ fragments) ho hs refl all

pub bound_fragment-IsBound : (keyword : String) (n : Option ℕ) → IsBound (bound_fragment keyword n)
unfolding bound_fragment
bound_fragment-IsBound keyword none = refl
bound_fragment-IsBound keyword (some n) = refl

pub tables-IsBound :
    (tables : List String) (fragments : List Fragment)
    → All IsBound fragments
    → All IsBound (map table_fragment tables ++ fragments)
unfolding table_fragment
tables-IsBound [] fragments h = h
tables-IsBound (t ∷ tables) fragments h = (refl, tables-IsBound tables fragments h)

pub direction-marks : (d : Option SortDirection) → marks (direction_suffix d) ≡ []
direction-marks none = refl
direction-marks (some asc) = refl
direction-marks (some desc) = refl

pub label-marks : (l : Option String) → marks (label_suffix l) ≡ []
label-marks none = refl
label-marks (some l) = refl

pub union-marks : (mode : SetQuantifier) → marks (union_part mode) ≡ []
union-marks distinct_rows = refl
union-marks all_rows = refl
