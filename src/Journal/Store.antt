-- ===== src/Journal/Store.antt =====
-- The operations of agent/internal/journal/journal.go that change or build a journal: `Record`
-- and `Open`, over the journal in memory and the file behind it.
use vps_tool.Prelude.{
  ℕ, suc, Bool, true, false, not, ◌||◌, Option, none, some, List, [], ◌∷◌, ◌++◌, String, str_eq,
  pos, eq_ℤ, length, ltb, ◌==◌, lookup, insert, if◌then◌else◌,
}
use vps_tool.Common.{Bytes, Error, Result, ok, err}
use vps_tool.Journal.Entries.{
  Entry, FileData, Codec, Journal, incomplete, rebuild_index, absent, present, out_of_range,
  find_entry, trim,
}
use vps_tool.Journal.Disk.{Disk, Outcomes, PersistError, decode, persist}

-- A journal and the file behind it.
pub record Store : Type 0 where
  pub journal : Journal
  pub disk : Disk

pub data RecordError : Type 0 where
  incomplete_entry : RecordError
  conflict : RecordError
  exceeds_limit : RecordError
  not_persisted : PersistError → RecordError
  index_panic : RecordError

-- `Record` when the request id is known already.
unfoldable pub record_known : Entry → Entry → Store → Store × Option RecordError
record_known previous e s = (s, if str_eq previous.action e.action then none else some conflict)

-- The journal with the new entry at its end, before eviction.
unfoldable pub append_entry : Entry → Journal → Journal
append_entry e j = record j {
  entries = j.entries ++ (e ∷ []);
  index = insert e.request_id (length j.entries) j.index;
}

-- The journal after a failure: the previous entries, under a rebuilt index.
unfoldable pub roll_back : List Entry → Journal → Journal
unfolding rebuild_index
roll_back previous j = rebuild_index (record j { entries = previous })

-- `Record` from the persisting on, the new entry having survived the eviction.
unfoldable pub commit : Codec → Outcomes → List Entry → Journal → Disk → Store × Option RecordError
commit codec o previous j d =
    let (d', failure) = persist codec o j d in
    elim failure [
      | none ↦ (record { journal = j; disk = d' }, none)
      | some x ↦ (record { journal = roll_back previous j; disk = d' }, some (not_persisted x))
    ]

-- `Record` when the request id is new.
unfoldable pub record_new : Codec → Outcomes → Entry → Store → Store × Option RecordError
record_new codec o e s =
    let trimmed = trim codec (append_entry e s.journal) in
    elim (lookup e.request_id trimmed.index) [
      | none ↦ (record s { journal = roll_back s.journal.entries trimmed }, some exceeds_limit)
      | some _ ↦ commit codec o s.journal.entries trimmed s.disk
    ]

unfoldable pub record_entry : Codec → Outcomes → Entry → Store → Store × Option RecordError
record_entry codec o e s =
    if incomplete e then (s, some incomplete_entry) else elim (find_entry s.journal e.request_id) [
      | present previous ↦ record_known previous e s
      | out_of_range ↦ (s, some index_panic)
      | absent ↦ record_new codec o e s
    ]

-- What `os.ReadFile` answers.
pub data FileRead : Type 0 where
  missing : FileRead
  unreadable : FileRead
  content : Bytes → FileRead

-- `os.Stat` of the file: it fails, or gives the permission bits of group and world.
pub data FileStat : Type 0 where
  stat_failed : FileStat
  group_world_bits : ℕ → FileStat

pub data OpenError : Type 0 where
  no_path bad_limits read_failed stat_error too_open file_too_large : OpenError
  undecodable : Error → OpenError
  bad_version too_many_entries incomplete_in_file duplicate_id : OpenError

pub data Opened : Type 0 where
  opened : Journal → Opened
  open_failed : OpenError → Opened

-- The loop of `Open` over the entries of the file: `i` is the position of the next one.
unfoldable pub index_entries : ℕ → List Entry → Journal → Opened
index_entries i [] j = opened j
index_entries i (e ∷ es) j =
    let rest = index_entries (suc i) es (record j { index = insert e.request_id i j.index }) in
    if incomplete e
    then open_failed incomplete_in_file
    else elim (lookup e.request_id j.index) [ some _ ↦ open_failed duplicate_id | none ↦ rest ]

-- `Open` from the decoded content on.
unfoldable pub load : Journal → FileData → Opened
unfolding index_entries
load j d =
    if not (eq_ℤ d.version (pos 1))
    then open_failed bad_version
    else if ltb j.max_entries (length d.entries)
    then open_failed too_many_entries
    else index_entries 0 d.entries (record j { version = d.version; entries = d.entries })

unfoldable pub load_decoded : Journal → Result FileData → Opened
unfolding load
load_decoded j (err x) = open_failed (undecodable x)
load_decoded j (ok d) = load j d

-- The permission test, which Windows skips.
unfoldable pub check_mode : Bool → FileStat → Option OpenError
check_mode true _ = none
check_mode false stat_failed = some stat_error
check_mode false (group_world_bits m) = if m == 0 then none else some too_open

unfoldable pub open_content : Codec → Bool → FileStat → Bytes → Journal → Opened
unfolding load_decoded check_mode decode
open_content codec windows stat bytes j = elim (check_mode windows stat) [
  | some x ↦ open_failed x
  | none ↦
      if ltb j.max_bytes (length bytes)
      then open_failed file_too_large
      else load_decoded j (decode codec bytes)
]

abbrev pub fresh_journal : ℕ → ℕ → Journal
fresh_journal max_entries max_bytes = record {
  max_entries = max_entries;
  max_bytes = max_bytes;
  version = pos 1;
  entries = [];
  index = [];
}

unfoldable pub open_file : Codec → Bool → FileStat → FileRead → Journal → Opened
unfolding open_content
open_file codec windows stat missing j = opened j
open_file codec windows stat unreadable j = open_failed read_failed
open_file codec windows stat (content bytes) j = open_content codec windows stat bytes j

unfoldable pub open_journal : Codec → Bool → String → ℕ → ℕ → FileRead → FileStat → Opened
unfolding open_file
open_journal codec windows path max_entries max_bytes file stat =
    if str_eq path ""
    then open_failed no_path
    else if ltb max_entries 1 || ltb max_bytes 1024
    then open_failed bad_limits
    else open_file codec windows stat file (fresh_journal max_entries max_bytes)
