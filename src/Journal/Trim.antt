-- ===== src/Journal/Trim.antt =====
-- The eviction loop `trimLocked` of agent/internal/journal/journal.go: what it keeps, the order in
-- which it evicts, and the limits.
use mathlib.Core.Path.{subst}
use mathlib.Core.List.{append_assoc}
use vps_tool.Prelude.{
  ℕ, ◌≤◌, ◌≡◌, refl, sym, ◌∙◌, ◌⊎◌, inl, inr, Bool-cases, false, List, [], ◌∷◌, ◌++◌, ap, arith,
  length, All, lookup, String, Option, none, some,
}
use vps_tool.Journal.Entries.{
  Entry, Codec, Journal, incomplete, rebuild_index, over_limit, trim_from, trim,
}
use vps_tool.Journal.Index.{position, Unique, lookup-index_from, or_else}

-- What every journal satisfies between two steps of an operation: the index is that of the entries,
-- no request id occurs twice, and every entry is complete.
pub record IsIndexed (j : Journal) : Type 0 where
  pub indexed : (k : String) → lookup k j.index ≡ position k 0 j.entries
  pub unique : Unique j.entries
  pub completed : All (λ e. incomplete e ≡ false) j.entries

pub record SameLimits (a b : Journal) : Type 0 where
  pub max_entries : a.max_entries ≡ b.max_entries
  pub max_bytes : a.max_bytes ≡ b.max_bytes
  pub version : a.version ≡ b.version

or_else-none : (o : Option ℕ) → or_else o none ≡ o
or_else-none none = refl
or_else-none (some i) = refl

pub rebuild-IsIndexed :
    (j : Journal)
    → Unique j.entries
    → All (λ e. incomplete e ≡ false) j.entries
    → IsIndexed (rebuild_index j)
unfolding rebuild_index lookup
rebuild-IsIndexed j u c = record {
  indexed = λ k. lookup-index_from k 0 j.entries [] u ∙ or_else-none (position k 0 j.entries);
  unique = u;
  completed = c;
}

-- One round of the loop: the oldest entry is gone and the index is rebuilt.
abbrev evict : List Entry → Journal → Journal
evict es j = rebuild_index (record j { entries = es })

evict-IsIndexed :
    (e : Entry) (es : List Entry) (j : Journal)
    → j.entries ≡ e ∷ es
    → IsIndexed j
    → IsIndexed (evict es j)
evict-IsIndexed e es j p h =
    rebuild-IsIndexed (record j { entries = es }) (subst Unique p h.unique).1
      (subst (All (λ e. incomplete e ≡ false)) p h.completed).1

entries-evict : (es : List Entry) (j : Journal) → (evict es j).entries ≡ es
unfolding rebuild_index
entries-evict es j = refl

evict-SameLimits : (es : List Entry) (j : Journal) → SameLimits (evict es j) j
unfolding rebuild_index
evict-SameLimits es j = record { max_entries = refl; max_bytes = refl; version = refl }

SameLimits-trans : {a b c : Journal} → SameLimits a b → SameLimits b c → SameLimits a c
SameLimits-trans p q = record {
  max_entries = p.max_entries ∙ q.max_entries;
  max_bytes = p.max_bytes ∙ q.max_bytes;
  version = p.version ∙ q.version;
}

module _ (codec : Codec) where
  -- The rule of the loop: what one round keeps, the loop keeps.
  trim_from_induction :
      (P : Journal → Type 0)
      → ((e : Entry) (es : List Entry) (j : Journal) → j.entries ≡ e ∷ es → P j → P (evict es j))
      → (es : List Entry) (j : Journal) → j.entries ≡ es
      → P j
      → P (trim_from codec es j)
  unfolding trim_from
  trim_from_induction P keep [] j p h = h
  trim_from_induction P keep (e ∷ es) j p h = elim (Bool-cases (over_limit codec j)) [
    | inl over ↦
        rw over (trim_from_induction P keep es (evict es j) (entries-evict es j) (keep e es j p h))
    | inr within ↦ rw within h
  ]

  pub trim-IsIndexed : (j : Journal) → IsIndexed j → IsIndexed (trim codec j)
  unfolding trim
  trim-IsIndexed j = trim_from_induction IsIndexed evict-IsIndexed j.entries j refl

  pub trim-SameLimits : (j : Journal) → SameLimits (trim codec j) j
  unfolding trim
  trim-SameLimits j =
      trim_from_induction (λ k. SameLimits k j)
        (λ e es k p h. SameLimits-trans (evict-SameLimits es k) h) j.entries j refl
        (record { max_entries = refl; max_bytes = refl; version = refl })

  -- The loop drops the oldest entries: what is left is a suffix.
  pub trim-suffix :
      (j : Journal) → (dropped : List Entry) × (j.entries ≡ dropped ++ (trim codec j).entries)
  unfolding trim
  trim-suffix j =
      trim_from_induction (λ k. (dropped : List Entry) × (j.entries ≡ dropped ++ k.entries))
        (λ e es k p h. (
          h.0 ++ (e ∷ []),
          h.1
              ∙ ap (λ l. h.0 ++ l) p
              ∙ sym (append_assoc h.0 (e ∷ []) es)
              ∙ ap (λ l. (h.0 ++ (e ∷ [])) ++ l) (sym (entries-evict es k)),
        ))
        j.entries j refl ([], refl)

  trim_from-within :
      (es : List Entry) (j : Journal)
      → j.entries ≡ es
      → (over_limit codec (trim_from codec es j) ≡ false) ⊎ ((trim_from codec es j).entries ≡ [])
  unfolding trim_from
  trim_from-within [] j p = inr p
  trim_from-within (e ∷ es) j p = elim (Bool-cases (over_limit codec j)) [
    | inl over ↦ rw over (trim_from-within es (evict es j) (entries-evict es j))
    | inr within ↦ rw within (inl within)
  ]

  -- The loop ends below both limits, or with nothing left.
  pub trim-within :
      (j : Journal) → (over_limit codec (trim codec j) ≡ false) ⊎ ((trim codec j).entries ≡ [])
  unfolding trim
  trim-within j = trim_from-within j.entries j refl

  pub length-trim : (j : Journal) → length (trim codec j).entries ≤ j.max_entries
  length-trim j = elim (trim-within j) [
    | inl within ↦ unfold over_limit in ground (arith, within, (trim-SameLimits j).max_entries)
    | inr empty ↦ omega (arith, ap (length {A = Entry}) empty)
  ]
