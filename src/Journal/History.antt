-- ===== src/Journal/History.antt =====
-- The history in a journal of agent/internal/journal/journal.go: which result a request id leads to
-- after `Record`, and which entries are evicted.
use mathlib.Core.Path.{subst}
use vps_tool.Prelude.{
  ℕ, ◌≡◌, ◌≢◌, refl, ◌∙◌, sym, ap, inl, inr, Bool-cases, Option, none, some, List, [], ◌∷◌, ◌++◌,
  String, str_eq, eq_iff, str_eq_refl, arith, lookup,
}
use vps_tool.Journal.Entries.{Entry, Codec, Journal, absent, present, find_entry, trim}
use vps_tool.Journal.Disk.{Outcomes}
use vps_tool.Journal.Store.{Store, RecordError, record_known, append_entry, record_entry}
use vps_tool.Journal.Index.{
  position-of_absent, find, find-snoc, or_else, Unique, Unique-snoc, as_found,
}
use vps_tool.Journal.Trim.{IsIndexed, trim-suffix}
use vps_tool.Journal.Cases.{
  find_entry-eq-find, RecordCase, unusable, known, evicted, unwritten, recorded, record_entry-cases,
}
use vps_tool.Journal.Files.{Written, persist_done}
use vps_tool.Journal.Record.{IsWellFormed, record_entry-IsWellFormed}

find-append : (k : String) (a b : List Entry) → find k (a ++ b) ≡ or_else (find k a) (find k b)
unfolding find
find-append k [] b = refl
find-append k (x ∷ a) b = ground (arith, find-append k a b)

-- In a list without duplicates, an id found at the end is not at the front.
find_front-none :
    (k : String) (a b : List Entry) → Unique (a ++ b) → find k b ≢ none → find k a ≡ none
unfolding find
find_front-none k [] b u n = refl
find_front-none k (x ∷ a) b u n = elim (Bool-cases (str_eq x.request_id k)) [
  | inl same ↦ absurd (
      n (
        ground (
          arith,
          (eq_iff x.request_id k).0 same,
          u.0,
          find-append x.request_id a b,
          find-append k a b,
          find_front-none k a b u.1 n,
        )))
  | inr other ↦ rw other (find_front-none k a b u.1 n)
]

-- So an entry found in a suffix is the one found in the whole list.
find-of_suffix :
    (k : String) (all dropped rest : List Entry)
    → all ≡ dropped ++ rest
    → Unique all
    → find k rest ≢ none
    → find k rest ≡ find k all
find-of_suffix k all dropped rest p u n = sym (
    ap (find k) p
    ∙ find-append k dropped rest
    ∙ ap (λ o. or_else o (find k rest)) (find_front-none k dropped rest (subst Unique p u) n))

entries-append : (e : Entry) (j : Journal) → (append_entry e j).entries ≡ j.entries ++ (e ∷ [])
unfolding append_entry
entries-append e j = refl

-- The entry that answers for the id of `e` from now on.
abbrev pub original : Option Entry → Entry → Entry
original none e = e
original (some p) e = p

of_absent : (x : Option Entry) → as_found x ≡ absent → x ≡ none
of_absent none h = refl
of_absent (some e) h = cc

known_action : (p e : Entry) (s : Store) → (record_known p e s).1 ≡ none → p.action ≡ e.action
unfolding record_known
known_action p e s h = ground (arith, eq_iff p.action e.action)

module _ (codec : Codec) (o : Outcomes) (e : Entry) (s : Store) (w : IsWellFormed s.journal) where
  abbrev es : List Entry
  es = s.journal.entries

  abbrev kept : Journal
  kept = trim codec (append_entry e s.journal)

  kept_suffix : (dropped : List Entry) × (es ++ (e ∷ []) ≡ dropped ++ kept.entries)
  kept_suffix =
      let (dropped, p) = trim-suffix codec (append_entry e s.journal) in
      (dropped, sym (entries-append e s.journal) ∙ p)

  find_kept :
      (k : String)
      → find e.request_id es ≡ none
      → find k kept.entries ≢ none
      → find k kept.entries ≡ find k (es ++ (e ∷ []))
  find_kept k fresh n =
      find-of_suffix k (es ++ (e ∷ [])) kept_suffix.0 kept.entries kept_suffix.1
        (Unique-snoc es e w.is_indexed.unique fresh) n

  find_new :
      find e.request_id es ≡ none
      → IsIndexed kept
      → (i : ℕ) → lookup e.request_id kept.index ≡ some i
      → find e.request_id kept.entries ≡ some e
  find_new fresh t i found =
      let stored : find e.request_id kept.entries ≢ none = λ gone.
        cc (t.indexed e.request_id, position-of_absent e.request_id 0 kept.entries gone, found) in
      find_kept e.request_id fresh stored ∙ rw (find-snoc, fresh, str_eq_refl)

  case-found :
      (r : Store × Option RecordError)
      → RecordCase codec o e s r
      → r.1 ≡ none
      → (find e.request_id r.0.journal.entries ≡ some (original (find e.request_id es) e))
        × ((original (find e.request_id es) e).action ≡ e.action)
  unfolding record_known
  case-found r (unusable bad p) q = cc (q, ap (λ (x : Store × Option RecordError). x.1) p)
  case-found r (known previous seen p) q =
      rw (p, seen) (refl, known_action previous e s (rw p at q))
  case-found r (evicted t p) q = cc (q, ap (λ (x : Store × Option RecordError). x.1) p)
  case-found r (unwritten x p) q = cc (q, ap (λ (x : Store × Option RecordError). x.1) p)
  case-found r (recorded fresh t i found done p) q = rw (p, fresh) (find_new fresh t i found, refl)

  -- After a Record on a well-formed journal that succeeds, the id of the entry leads to the entry
  -- that was recorded for it first: the one in the journal if there was one, else the new one. Its
  -- action is that of the new one.
  pub record_entry_first_wins :
      (record_entry codec o e s).1 ≡ none
      → (find_entry (record_entry codec o e s).0.journal e.request_id
          ≡ present (original (find e.request_id s.journal.entries) e))
        × ((original (find e.request_id s.journal.entries) e).action ≡ e.action)
  record_entry_first_wins h =
      let (found, action) =
        case-found (record_entry codec o e s) (record_entry-cases codec o e s w.is_indexed) h in
      (
        find_entry-eq-find (record_entry codec o e s).0.journal e.request_id
              (record_entry-IsWellFormed codec o e s w).is_indexed
            ∙ ap as_found found,
        action,
      )

  case-evicts :
      (r : Store × Option RecordError)
      → RecordCase codec o e s r
      → r.1 ≡ none
      → find e.request_id es ≡ none
      → ((dropped : List Entry) × (es ++ (e ∷ []) ≡ dropped ++ r.0.journal.entries))
        × Written codec r.0.journal r.0.disk
  case-evicts r (unusable bad p) q fresh = cc (q, ap (λ (x : Store × Option RecordError). x.1) p)
  case-evicts r (known previous seen p) q fresh = cc (seen, fresh)
  case-evicts r (evicted t p) q fresh = cc (q, ap (λ (x : Store × Option RecordError). x.1) p)
  case-evicts r (unwritten x p) q fresh = cc (q, ap (λ (x : Store × Option RecordError). x.1) p)
  case-evicts r (recorded fresh' t i found done p) q fresh =
      rw p (kept_suffix, persist_done codec o kept s.disk done)

  -- A Record of a new id on a well-formed journal that succeeds appends the entry and evicts from
  -- the old end only: the entries are a suffix of the old ones with the new one behind. The file
  -- then holds the indented encoding of exactly these entries, in at most max_bytes bytes.
  pub record_entry_evicts_oldest :
      (record_entry codec o e s).1 ≡ none
      → find e.request_id s.journal.entries ≡ none
      → ((dropped : List Entry) × (s.journal.entries ++ (e ∷ [])
            ≡ dropped ++ (record_entry codec o e s).0.journal.entries))
        × Written codec (record_entry codec o e s).0.journal (record_entry codec o e s).0.disk
  record_entry_evicts_oldest =
      case-evicts (record_entry codec o e s) (record_entry-cases codec o e s w.is_indexed)

  -- The same for an id that the journal did not know.
  pub record_entry_new :
      find_entry s.journal e.request_id ≡ absent
      → (record_entry codec o e s).1 ≡ none
      → find_entry (record_entry codec o e s).0.journal e.request_id ≡ present e
  record_entry_new h done =
      let fresh : find e.request_id s.journal.entries ≡ none =
        of_absent (find e.request_id s.journal.entries)
          (sym (find_entry-eq-find s.journal e.request_id w.is_indexed) ∙ h) in
      (record_entry_first_wins done).0 ∙ ap (λ x. present (original x e)) fresh
