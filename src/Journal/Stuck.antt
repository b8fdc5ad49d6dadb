-- ===== src/Journal/Stuck.antt =====
-- The two encodings by which agent/internal/journal/journal.go measures a journal: the eviction loop
-- the compact one (`serializedSizeLocked`), `persistLocked` the indented one.
use vps_tool.Prelude.{
  ◌<◌, ◌≡◌, refl, ap, String, Option, false, none, some, List, [], ◌∷◌, arith, length, lookup,
  lookup-insert, str_eq_refl,
}
use vps_tool.Common.{Bytes}
use vps_tool.Journal.Entries.{
  Entry, Codec, Journal, file_data, incomplete, over_limit, find_entry, trim_from, trim,
}
use vps_tool.Journal.Disk.{Outcomes, too_large, persist}
use vps_tool.Journal.Store.{
  Store, RecordError, not_persisted, append_entry, roll_back, commit, record_new, record_entry,
}
use vps_tool.Journal.Index.{find}
use vps_tool.Journal.Record.{IsWellFormed, record_entry_atomic}
use vps_tool.Journal.Trim.{IsIndexed}
use vps_tool.Journal.Cases.{find_entry-eq-find}

trim_from-within_limits :
    (codec : Codec) (es : List Entry) (j : Journal)
    → over_limit codec j ≡ false
    → trim_from codec es j ≡ j
unfolding trim_from
trim_from-within_limits codec [] j h = refl
trim_from-within_limits codec (e ∷ es) j h = rw h

module _ (codec : Codec) (o : Outcomes) (e : Entry) (s : Store) where
  abbrev grown : Journal
  grown = append_entry e s.journal

  lookup-grown : lookup e.request_id grown.index ≡ some (length s.journal.entries)
  unfolding append_entry
  lookup-grown = rw (lookup-insert, str_eq_refl)

  trim-grown : over_limit codec grown ≡ false → trim codec grown ≡ grown
  unfolding trim
  trim-grown h = trim_from-within_limits codec grown.entries grown h

  persist-grown :
      (bytes : Bytes)
      → codec.marshal_indent (file_data grown) ≡ some bytes
      → grown.max_bytes < length bytes
      → persist codec o grown s.disk ≡ (s.disk, some too_large)
  unfolding persist
  persist-grown bytes p big = rw (p, persist) (ground arith)

  commit-grown :
      persist codec o grown s.disk ≡ (s.disk, some too_large)
      → commit codec o s.journal.entries grown s.disk
        ≡ (record s { journal = roll_back s.journal.entries grown }, some (not_persisted too_large))
  unfolding commit
  commit-grown p = ground (arith, p)

  record_new-grown :
      over_limit codec grown ≡ false
      → persist codec o grown s.disk ≡ (s.disk, some too_large)
      → record_new codec o e s
        ≡ (record s { journal = roll_back s.journal.entries grown }, some (not_persisted too_large))
  unfolding record_new
  record_new-grown within p = ground (arith, trim-grown within, lookup-grown, commit-grown p)

  refused :
      IsIndexed s.journal
      → incomplete e ≡ false
      → find e.request_id s.journal.entries ≡ none
      → over_limit codec grown ≡ false
      → (bytes : Bytes) → codec.marshal_indent (file_data grown) ≡ some bytes
      → grown.max_bytes < length bytes
      → record_entry codec o e s
        ≡ (record s { journal = roll_back s.journal.entries grown }, some (not_persisted too_large))
  unfolding record_entry
  refused h c fresh within bytes p big =
      rw (c, find_entry-eq-find s.journal e.request_id h, fresh)
        (record_new-grown within (persist-grown bytes p big))

  -- On a well-formed journal, a complete entry with a new id, behind which the journal fits in the
  -- compact encoding and not in the indented one, is refused as too large, and nothing is evicted
  -- to make room: the journal has the entries it had, every lookup answers as before, and the disk
  -- is as it was.
  pub record_entry_stuck :
      IsWellFormed s.journal
      → incomplete e ≡ false
      → find e.request_id s.journal.entries ≡ none
      → over_limit codec (append_entry e s.journal) ≡ false
      → (bytes : Bytes) → codec.marshal_indent (file_data (append_entry e s.journal)) ≡ some bytes
      → (append_entry e s.journal).max_bytes < length bytes
      → ((record_entry codec o e s).1 ≡ some (not_persisted too_large))
        × ((record_entry codec o e s).0.disk ≡ s.disk)
        × ((record_entry codec o e s).0.journal.entries ≡ s.journal.entries)
        × ((k : String)
            → find_entry (record_entry codec o e s).0.journal k ≡ find_entry s.journal k)
  record_entry_stuck w c fresh within bytes p big =
      let r = refused w.is_indexed c fresh within bytes p big in
      let failed = ap (λ (x : Store × Option RecordError). x.1) r in
      let (entries, found) = record_entry_atomic codec o e s w (λ n. cc) in
      (failed, ap (λ (x : Store × Option RecordError). x.0.disk) r, entries, found)
