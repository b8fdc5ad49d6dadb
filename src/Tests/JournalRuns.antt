-- ===== src/Tests/JournalRuns.antt =====
-- The journal on concrete entries, over a toy codec: a journal is encoded by a header of eight
-- bytes, or twelve when it is indented, and one byte for each entry.
use vps_tool.Prelude.{
  ℕ, zero, suc, ◌≡◌, refl, ◌⊎◌, true, false, none, some, List, [], ◌∷◌, ◌++◌, String, arith, pos,
  lookup, insert,
}
use vps_tool.Common.{Bytes, eof, malformed, value}
use vps_tool.Journal.Entries.{
  Entry, file_data, Codec, Journal, present, find_entry, trim, incomplete, over_limit,
}
use vps_tool.Journal.Disk.{Outcomes, persist, decode, too_large, write_failed}
use vps_tool.Journal.Store.{
  Store, record_entry, record_new, commit, record_known, append_entry, conflict, not_persisted,
  open_journal, opened, content, missing, fresh_journal, group_world_bits, check_mode,
}
use vps_tool.Journal.Index.{find}
use vps_tool.Journal.Record.{IsWellFormed, record_entry-IsWellFormed, record_entry_atomic}
use vps_tool.Journal.Files.{Written, persist_failed, Lost}
use vps_tool.Journal.History.{record_entry_first_wins, record_entry_evicts_oldest, original}
use vps_tool.Journal.Stuck.{record_entry_stuck}
use vps_tool.Journal.Reload.{open_journal-IsWellFormed}
use vps_tool.Journal.Restart.{ReadsBack, relaid_found, reopen-record}

abbrev entry : String → String → Entry
entry id action = record {
  request_id = id;
  action = action;
  state = "succeeded";
  code = "ok";
  message = "action completed";
  result = 110 ∷ [];
  finished_at = 7;
}

abbrev padding : ℕ → List Entry → Bytes
padding zero [] = []
padding zero (e ∷ es) = 1 ∷ padding zero es
padding (suc n) es = 0 ∷ padding n es

abbrev pub toy : Codec
toy = record {
  marshal = λ d. some (padding 8 d.entries);
  marshal_indent = λ d. some (padding 12 d.entries);
  decode_value = λ b. malformed "";
  decode_extra = λ b. eof;
}

abbrev pub fine : Outcomes
fine = record {
  mkdir = true;
  create = true;
  chmod = true;
  write = true;
  written = [];
  sync = true;
  close = true;
  rename = true;
  remove_target = true;
  rename_again = true;
  remove_temporary = true;
}

abbrev full_disk : Outcomes
full_disk = record fine { write = false; written = 0 ∷ [] }

abbrev pub empty_store : Store
empty_store = record {
  journal = fresh_journal 2 1024;
  disk = record { target = none; temporary = none };
}

-- An empty journal is well formed: it is what `Open` makes of a missing file.
pub empty-IsWellFormed : IsWellFormed empty_store.journal
empty-IsWellFormed =
    open_journal-IsWellFormed toy false "/j" 2 1024 missing (group_world_bits 0) empty_store.journal
      (unfold open_journal in refl)

abbrev first : Entry
first = entry "r1" "warp_on"

abbrev other : Entry
other = entry "r1" "warp_off"

abbrev one_stored : Store
one_stored = (record_entry toy fine first empty_store).0

-- The first record succeeds, a second one under the same id with another action does not.
record_runs :
    ((record_entry toy fine first empty_store).1 ≡ none)
    × ((record_entry toy fine other one_stored).1 ≡ some conflict)
    × (one_stored.disk.target ≡ some (padding 12 (first ∷ [])))
unfolding record_entry find_entry trim over_limit persist incomplete append_entry lookup insert
    record_new commit record_known
record_runs = (refl, refl, refl)

record_entry-IsWellFormed_example : IsWellFormed (record_entry toy fine first empty_store).0.journal
record_entry-IsWellFormed_example =
    record_entry-IsWellFormed toy fine first empty_store empty-IsWellFormed

record_entry_atomic_example :
    ((record_entry toy fine other one_stored).0.journal.entries ≡ one_stored.journal.entries)
    × ((k : String)
        → find_entry (record_entry toy fine other one_stored).0.journal k
          ≡ find_entry one_stored.journal k)
record_entry_atomic_example =
    record_entry_atomic toy fine other one_stored record_entry-IsWellFormed_example
      (λ p. cc (record_runs.1, p))

record_entry_first_wins_example :
    (find_entry one_stored.journal "r1" ≡ present (original (find "r1" []) first))
    × ((original (find "r1" []) first).action ≡ "warp_on")
record_entry_first_wins_example =
    record_entry_first_wins toy fine first empty_store empty-IsWellFormed record_runs.0

record_entry_evicts_oldest_example :
    ((dropped : List Entry) × (first ∷ [] ≡ dropped ++ one_stored.journal.entries))
    × Written toy one_stored.journal one_stored.disk
unfolding find
record_entry_evicts_oldest_example =
    record_entry_evicts_oldest toy fine first empty_store empty-IsWellFormed record_runs.0 refl

open_journal-IsWellFormed_example : IsWellFormed (fresh_journal 256 524288)
unfolding open_journal
open_journal-IsWellFormed_example =
    open_journal-IsWellFormed toy false "/var/lib/vps-agent/requests.json" 256 524288 missing
      (group_world_bits 0) (fresh_journal 256 524288) refl

persist_failed_example :
    ((persist toy full_disk one_stored.journal one_stored.disk).0.target ≡ one_stored.disk.target)
    ⊎ Lost toy full_disk one_stored.journal one_stored.disk
unfolding persist record_entry find_entry trim over_limit incomplete append_entry lookup insert
    record_new commit record_known
persist_failed_example =
    persist_failed toy full_disk one_stored.journal one_stored.disk write_failed refl

-- A codec whose indented form alone passes the limit.
abbrev wide : Codec
wide = record toy { marshal_indent = λ d. some (padding 1100 d.entries) }

record_entry_stuck_example :
    ((record_entry wide fine first empty_store).1 ≡ some (not_persisted too_large))
    × ((record_entry wide fine first empty_store).0.disk ≡ empty_store.disk)
    × ((record_entry wide fine first empty_store).0.journal.entries ≡ [])
    × ((k : String)
        → find_entry (record_entry wide fine first empty_store).0.journal k
          ≡ find_entry empty_store.journal k)
unfolding incomplete find over_limit append_entry file_data
record_entry_stuck_example =
    record_entry_stuck wide fine first empty_store empty-IsWellFormed refl refl refl
      (padding 1100 (first ∷ [])) refl (omega arith)

-- A codec that reads one file back.
abbrev one_file : Codec
one_file = record toy {
  decode_value = λ b. value (record { version = pos 1; entries = one_stored.journal.entries }) [];
}

one_file-ReadsBack : ReadsBack one_file (λ b. b) (file_data one_stored.journal)
unfolding decode file_data record_entry find_entry trim over_limit persist incomplete append_entry
    lookup insert record_new commit record_known
one_file-ReadsBack = record { reads = λ bytes e. refl; nonempty = λ b h. h }

one_file-Written : Written one_file one_stored.journal one_stored.disk
unfolding record_entry find_entry trim over_limit persist incomplete append_entry lookup insert
    record_new commit record_known
one_file-Written = record {
  bytes = padding 12 (first ∷ []);
  encoded = refl;
  fits = omega arith;
  in_file = refl;
  no_leftover = refl;
}

reopen-record_example :
    (k : Journal) × (open_journal one_file false "/j" one_stored.journal.max_entries
        one_stored.journal.max_bytes
        (content one_file-Written.bytes)
        (group_world_bits 0)
      ≡ opened k)
    × ((id : String) → find_entry k id ≡ relaid_found (λ b. b) (find_entry one_stored.journal id))
unfolding check_mode
reopen-record_example =
    reopen-record one_file (λ b. b) one_stored.journal one_file-ReadsBack
      record_entry-IsWellFormed_example one_stored.disk one_file-Written false "/j"
      (group_world_bits 0) refl refl
