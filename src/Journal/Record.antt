-- ===== src/Journal/Record.antt =====
-- `Record` of agent/internal/journal/journal.go: the invariant it keeps, what a success and a
-- failure leave behind, and the order of eviction.
use vps_tool.Prelude.{
  ◌≤◌, ◌≡◌, ◌≢◌, refl, ◌∙◌, sym, ap, Option, none, List, String, arith, length, pos,
}
use vps_tool.Journal.Entries.{Entry, Codec, Journal, find_entry, trim}
use vps_tool.Journal.Disk.{Outcomes}
use vps_tool.Journal.Store.{Store, RecordError, record_known, append_entry, roll_back, record_entry}
use vps_tool.Journal.Index.{find, as_found}
use vps_tool.Journal.Trim.{IsIndexed, SameLimits, trim-SameLimits, length-trim, rebuild-IsIndexed}
use vps_tool.Journal.Cases.{
  find_entry-eq-find, RecordCase, unusable, known, evicted, unwritten, recorded, record_entry-cases,
}

-- The invariant of an open journal between two operations.
pub record IsWellFormed (j : Journal) : Type 0 where
  pub is_indexed : IsIndexed j
  pub version_one : j.version ≡ pos 1
  pub room : 1 ≤ j.max_entries
  pub space : 1024 ≤ j.max_bytes
  pub bounded : length j.entries ≤ j.max_entries

pub entries-roll_back : (es : List Entry) (j : Journal) → (roll_back es j).entries ≡ es
unfolding roll_back
entries-roll_back es j = refl

roll_back-IsWellFormed :
    (j k : Journal) → IsWellFormed j → SameLimits k j → IsWellFormed (roll_back j.entries k)
unfolding roll_back
roll_back-IsWellFormed j k w l = record {
  is_indexed =
      rebuild-IsIndexed (record k { entries = j.entries }) w.is_indexed.unique
        w.is_indexed.completed;
  version_one = l.version ∙ w.version_one;
  room = omega (arith, w.room, l.max_entries);
  space = omega (arith, w.space, l.max_bytes);
  bounded = omega (arith, w.bounded, l.max_entries);
}

append-SameLimits : (e : Entry) (j : Journal) → SameLimits (append_entry e j) j
unfolding append_entry
append-SameLimits e j = record { max_entries = refl; max_bytes = refl; version = refl }

module _ (codec : Codec) (o : Outcomes) (e : Entry) (s : Store) (w : IsWellFormed s.journal) where
  abbrev after : Store × Option RecordError
  after = record_entry codec o e s

  abbrev kept : Journal
  kept = trim codec (append_entry e s.journal)

  kept-SameLimits : SameLimits kept s.journal
  kept-SameLimits =
      let t = trim-SameLimits codec (append_entry e s.journal) in
      let a = append-SameLimits e s.journal in
      record {
        max_entries = t.max_entries ∙ a.max_entries;
        max_bytes = t.max_bytes ∙ a.max_bytes;
        version = t.version ∙ a.version;
      }

  kept-IsWellFormed : IsIndexed kept → IsWellFormed kept
  kept-IsWellFormed t = record {
    is_indexed = t;
    version_one = kept-SameLimits.version ∙ w.version_one;
    room = omega (arith, w.room, kept-SameLimits.max_entries);
    space = omega (arith, w.space, kept-SameLimits.max_bytes);
    bounded = omega (
      arith,
      length-trim codec (append_entry e s.journal),
      (trim-SameLimits codec (append_entry e s.journal)).max_entries,
    );
  }

  case-IsWellFormed :
      (r : Store × Option RecordError) → RecordCase codec o e s r → IsWellFormed r.0.journal
  unfolding record_known
  case-IsWellFormed r (unusable bad p) = rw p w
  case-IsWellFormed r (known previous seen p) = rw p w
  case-IsWellFormed r (evicted t p) = rw p (roll_back-IsWellFormed s.journal kept w kept-SameLimits)
  case-IsWellFormed r (unwritten x p) =
      rw p (roll_back-IsWellFormed s.journal kept w kept-SameLimits)
  case-IsWellFormed r (recorded fresh t i found done p) = rw p (kept-IsWellFormed t)

  cases : RecordCase codec o e s after
  cases = record_entry-cases codec o e s w.is_indexed

  -- Record keeps the invariant of the journal on every path, the failing ones included: the index
  -- is that of the entries, no request id occurs twice, every entry is complete, and there are at
  -- most max_entries of them.
  pub record_entry-IsWellFormed : IsWellFormed (record_entry codec o e s).0.journal
  record_entry-IsWellFormed = case-IsWellFormed after cases

  case-atomic :
      (r : Store × Option RecordError)
      → RecordCase codec o e s r
      → r.1 ≢ none
      → r.0.journal.entries ≡ s.journal.entries
  unfolding record_known
  case-atomic r (unusable bad p) n = rw p
  case-atomic r (known previous seen p) n = rw p
  case-atomic r (evicted t p) n = rw p (entries-roll_back s.journal.entries kept)
  case-atomic r (unwritten x p) n = rw p (entries-roll_back s.journal.entries kept)
  case-atomic r (recorded fresh t i found done p) n = absurd (n (rw p))

  -- A Record on a well-formed journal that fails leaves the entries as they were, and every lookup
  -- answers as before.
  pub record_entry_atomic :
      (record_entry codec o e s).1 ≢ none
      → ((record_entry codec o e s).0.journal.entries ≡ s.journal.entries)
        × ((k : String)
            → find_entry (record_entry codec o e s).0.journal k ≡ find_entry s.journal k)
  record_entry_atomic n =
      let same = case-atomic after cases n in
      (
        same,
        λ k.
            find_entry-eq-find after.0.journal k record_entry-IsWellFormed.is_indexed
            ∙ ap (λ es. as_found (find k es)) same
            ∙ sym (find_entry-eq-find s.journal k w.is_indexed),
      )
