-- ===== src/Journal/Index.antt =====
-- The index of agent/internal/journal/journal.go against the entries: what a rebuilt index holds,
-- and where a lookup through it leads.
use mathlib.Core.Option
use vps_tool.Prelude.{
  ℕ, suc, ◌+◌, ◌≡◌, refl, ◌∙◌, inl, inr, Bool-cases, Option, none, some, List, [], ◌∷◌, ◌++◌,
  String, str_eq, eq_iff, arith, length, Dict, lookup, insert, if◌then◌else◌,
}
use vps_tool.Journal.Entries.{Entry, Found, absent, present, at_index, index_from}

abbrev pub or_else {ℓ} : {A : Type ℓ} → Option A → Option A → Option A
or_else none y = y
or_else (some a) y = some a

-- The place of the first entry with an id, counted from `i`.
unfoldable pub position : String → ℕ → List Entry → Option ℕ
position k i [] = none
position k i (e ∷ es) = if str_eq e.request_id k then some i else position k (suc i) es

-- The abstract view of a journal: a finite map from request ids to entries.
unfoldable pub find : String → List Entry → Option Entry
find k [] = none
find k (e ∷ es) = if str_eq e.request_id k then some e else find k es

-- No two entries share a request id.
abbrev pub Unique : List Entry → Type 0
Unique [] = Unit
Unique (e ∷ es) = (find e.request_id es ≡ none) × Unique es

abbrev pub as_found : Option Entry → Found
as_found none = absent
as_found (some e) = present e

pub position-of_absent :
    (k : String) (i : ℕ) (es : List Entry) → find k es ≡ none → position k i es ≡ none
unfolding position find
position-of_absent k i [] h = refl
position-of_absent k i (e ∷ es) h = ground (arith, position-of_absent k (suc i) es)

pub position-suc :
    (k : String) (i : ℕ) (es : List Entry)
    → position k (suc i) es ≡ Option.map suc (position k i es)
unfolding position
position-suc k i [] = refl
position-suc k i (e ∷ es) = ground (arith, position-suc k (suc i) es)

at_index-suc :
    (e : Entry) (es : List Entry) (o : Option ℕ)
    → at_index (e ∷ es) (Option.map suc o) ≡ at_index es o
at_index-suc e es none = refl
at_index-suc e es (some i) = refl

pub at_index-position :
    (k : String) (es : List Entry) → at_index es (position k 0 es) ≡ as_found (find k es)
unfolding position find
at_index-position k [] = refl
at_index-position k (e ∷ es) = elim (Bool-cases (str_eq e.request_id k)) [
  | inl same ↦ rw same
  | inr other ↦
      rw (other, position-suc k 0 es) (at_index-suc e es (position k 0 es) ∙ at_index-position k es)
]

pub lookup-index_from :
    (k : String) (i : ℕ) (es : List Entry) (m : Dict ℕ)
    → Unique es
    → lookup k (index_from i es m) ≡ or_else (position k i es) (lookup k m)
unfolding position index_from insert lookup
lookup-index_from k i [] m u = refl
lookup-index_from k i (e ∷ es) m u =
    lookup-index_from k (suc i) es (insert e.request_id i m) u.1
    ∙ ground (arith, position-of_absent e.request_id (suc i) es u.0, eq_iff e.request_id k)

pub position-snoc :
    (k : String) (i : ℕ) (es : List Entry) (e : Entry)
    → position k i (es ++ (e ∷ []))
      ≡ or_else (position k i es) (if str_eq e.request_id k then some (i + length es) else none)
unfolding position
position-snoc k i [] e = ground arith
position-snoc k i (x ∷ es) e = ground (arith, position-snoc k (suc i) es e)

pub find-snoc :
    (k : String) (es : List Entry) (e : Entry)
    → find k (es ++ (e ∷ [])) ≡ or_else (find k es) (if str_eq e.request_id k then some e else none)
unfolding find
find-snoc k [] e = refl
find-snoc k (x ∷ es) e = ground (arith, find-snoc k es e)

pub Unique-snoc :
    (es : List Entry) (e : Entry)
    → Unique es
    → find e.request_id es ≡ none
    → Unique (es ++ (e ∷ []))
unfolding find
Unique-snoc [] e u h = (refl, tt)
Unique-snoc (x ∷ es) e u h = (
  rw find-snoc
      (ground (arith, eq_iff e.request_id x.request_id, eq_iff x.request_id e.request_id, u.0)),
  Unique-snoc es e u.1 (ground arith),
)
