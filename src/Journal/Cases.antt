-- ===== src/Journal/Cases.antt =====
-- `Record` of agent/internal/journal/journal.go, path by path: which conditions lead to which new
-- state and result. The properties of `Record` are read off these cases.
use vps_tool.Prelude.{
  ℕ, ◌≡◌, refl, ◌⊎◌, inl, inr, Bool-cases, Option-cases, true, false, Option, none, some, [], ◌∷◌,
  String, eq_iff, arith, lookup, lookup-insert, All-append,
}
use vps_tool.Journal.Entries.{
  Entry, Found, absent, present, out_of_range, Codec, Journal, incomplete, find_entry, trim,
}
use vps_tool.Journal.Disk.{Outcomes, PersistError, persist}
use vps_tool.Journal.Store.{
  Store, RecordError, incomplete_entry, exceeds_limit, not_persisted, record_known, append_entry,
  roll_back, commit, record_new, record_entry,
}
use vps_tool.Journal.Index.{
  find, as_found, at_index-position, position-of_absent, position-snoc, Unique-snoc,
}
use vps_tool.Journal.Trim.{IsIndexed, trim-IsIndexed}

pub Found-cases :
    (f : Found) → (f ≡ absent) ⊎ ((f ≡ out_of_range) ⊎ ((e : Entry) × (f ≡ present e)))
Found-cases absent = inl refl
Found-cases out_of_range = inr (inl refl)
Found-cases (present e) = inr (inr (e, refl))

-- A lookup through the index never panics, and finds what the abstract map holds.
pub find_entry-eq-find :
    (j : Journal) (k : String) → IsIndexed j → find_entry j k ≡ as_found (find k j.entries)
unfolding find_entry
find_entry-eq-find j k h = rw (h.indexed k) (at_index-position k j.entries)

pub append-IsIndexed :
    (e : Entry) (j : Journal)
    → IsIndexed j
    → incomplete e ≡ false
    → find e.request_id j.entries ≡ none
    → IsIndexed (append_entry e j)
unfolding append_entry
append-IsIndexed e j h c fresh = record {
  indexed = λ k.
      rw (lookup-insert, position-snoc, h.indexed k)
        (ground (arith, position-of_absent e.request_id 0 j.entries fresh, eq_iff e.request_id k));
  unique = Unique-snoc j.entries e h.unique fresh;
  completed = All-append (λ x. incomplete x ≡ false) j.entries (e ∷ []) h.completed (c, tt);
}

pub data RecordCase (codec : Codec) (o : Outcomes) (e : Entry) (s : Store)
    (r : Store × Option RecordError) : Type 0 where
  unusable : incomplete e ≡ true → r ≡ (s, some incomplete_entry) → RecordCase codec o e s r
  known :
      (p : Entry)
      → find e.request_id s.journal.entries ≡ some p
      → r ≡ record_known p e s
      → RecordCase codec o e s r
  evicted :
      IsIndexed (trim codec (append_entry e s.journal))
      → r ≡ (
        record s { journal = roll_back s.journal.entries (trim codec (append_entry e s.journal)) },
        some exceeds_limit,
      )
      → RecordCase codec o e s r
  unwritten :
      (x : PersistError)
      → r ≡ (
        record {
          journal = roll_back s.journal.entries (trim codec (append_entry e s.journal));
          disk = (persist codec o (trim codec (append_entry e s.journal)) s.disk).0;
        },
        some (not_persisted x),
      )
      → RecordCase codec o e s r
  recorded :
      find e.request_id s.journal.entries ≡ none
      → IsIndexed (trim codec (append_entry e s.journal))
      → (i : ℕ) → lookup e.request_id (trim codec (append_entry e s.journal)).index ≡ some i
      → (persist codec o (trim codec (append_entry e s.journal)) s.disk).1 ≡ none
      → r ≡ (
        record {
          journal = trim codec (append_entry e s.journal);
          disk = (persist codec o (trim codec (append_entry e s.journal)) s.disk).0;
        },
        none,
      )
      → RecordCase codec o e s r

module _ (codec : Codec) (o : Outcomes) (e : Entry) (s : Store) (h : IsIndexed s.journal) where
  abbrev trimmed : Journal
  trimmed = trim codec (append_entry e s.journal)

  commit-cases :
      find e.request_id s.journal.entries ≡ none
      → IsIndexed trimmed
      → (i : ℕ) → lookup e.request_id trimmed.index ≡ some i
      → RecordCase codec o e s (commit codec o s.journal.entries trimmed s.disk)
  unfolding commit
  commit-cases fresh t i found = elim (Option-cases (persist codec o trimmed s.disk).1) [
    | inl done ↦ recorded fresh t i found done (rw (done, commit))
    | inr (x, failed) ↦ unwritten x (rw (failed, commit))
  ]

  record_new-cases :
      incomplete e ≡ false
      → find e.request_id s.journal.entries ≡ none
      → RecordCase codec o e s (record_new codec o e s)
  unfolding record_new
  record_new-cases c fresh =
      let t =
        trim-IsIndexed codec (append_entry e s.journal) (append-IsIndexed e s.journal h c fresh) in
      elim (Option-cases (lookup e.request_id trimmed.index)) [
        | inl gone ↦ evicted t (rw (gone, record_new))
        | inr (i, found) ↦ rw (found, record_new) (commit-cases fresh t i found)
      ]

  pub record_entry-cases : RecordCase codec o e s (record_entry codec o e s)
  unfolding record_entry
  record_entry-cases = elim (Bool-cases (incomplete e)) [
    | inl bad ↦ unusable bad (rw bad)
    | inr good ↦ elim (Option-cases (find e.request_id s.journal.entries)) [
      | inl fresh ↦
          rw (good, find_entry-eq-find s.journal e.request_id h, fresh)
            (record_new-cases good fresh)
      | inr (p, seen) ↦ known p seen (rw (good, find_entry-eq-find s.journal e.request_id h, seen))
    ]
  ]
