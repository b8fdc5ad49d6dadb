-- ===== src/Journal/Disk.antt =====
-- The file of agent/internal/journal/journal.go: `persistLocked`, `replaceFile` and the strict
-- `decode`. The file system is a target file and a temporary file; which of its calls succeed is
-- given by the outcomes of one call of `persistLocked`.
use vps_tool.Prelude.{Bool, true, false, Option, none, some, length, ltb, [], if◌then◌else◌}
use vps_tool.Common.{Bytes, Result, decode_strict}
use vps_tool.Journal.Entries.{Codec, FileData, Journal, file_data}

pub record Disk : Type 0 where
  pub target : Option Bytes
  pub temporary : Option Bytes

-- What the operating system answers to the calls of one `persistLocked`: true is success.
-- `written` is what a failed write left in the temporary file.
pub record Outcomes : Type 0 where
  pub mkdir : Bool
  pub create : Bool
  pub chmod : Bool
  pub write : Bool
  pub written : Bytes
  pub sync : Bool
  pub close : Bool
  pub rename : Bool
  pub remove_target : Bool
  pub rename_again : Bool
  pub remove_temporary : Bool

pub data PersistError : Type 0 where
  encode too_large mkdir_failed create_failed chmod_failed write_failed : PersistError
  sync_failed close_failed install_failed : PersistError

-- `decode`: one strict value and then the end of the input.
unfoldable pub decode : Codec → Bytes → Result FileData
unfolding decode_strict
decode codec = decode_strict "trailing JSON data" codec.decode_value codec.decode_extra

-- `os.Remove(target)` succeeds, or the target was not there.
abbrev pub removable : Option Bytes → Bool → Bool
removable none _ = true
removable (some _) removed = removed

unfoldable pub replace_file : Outcomes → Bytes → Disk → Disk × Bool
replace_file o data' d =
    if o.rename
    then (record { target = some data'; temporary = none }, true)
    else if removable d.target o.remove_target
    then if o.rename_again
      then (record { target = some data'; temporary = none }, true)
      else (record d { target = none }, false)
    else (d, false)

-- The deferred `os.Remove(temporaryPath)`, whose error is dropped.
unfoldable pub cleanup : Outcomes → Disk → Disk
cleanup o d = if o.remove_temporary then record d { temporary = none } else d

-- The calls on the temporary file, in order; each failure ends the sequence.
unfoldable pub install : Outcomes → Bytes → Disk → Disk × Option PersistError
unfolding replace_file
install o data' d =
    let empty : Disk = record d { temporary = some [] } in
    let partial : Disk = record d { temporary = some o.written } in
    let full : Disk = record d { temporary = some data' } in
    let (replaced, done) = replace_file o data' full in
    if o.chmod
    then if o.write
      then if o.sync
        then if o.close
          then (replaced, if done then none else some install_failed)
          else (full, some close_failed)
        else (full, some sync_failed)
      else (partial, some write_failed)
    else (empty, some chmod_failed)

unfoldable pub persist_bytes : Outcomes → Bytes → Disk → Disk × Option PersistError
unfolding install cleanup
persist_bytes o data' d =
    let (d', e) = install o data' d in
    if o.mkdir
    then if o.create then (cleanup o d', e) else (d, some create_failed)
    else (d, some mkdir_failed)

unfoldable pub persist : Codec → Outcomes → Journal → Disk → Disk × Option PersistError
unfolding file_data persist_bytes
persist codec o j d = elim (codec.marshal_indent (file_data j)) [
  | none ↦ (d, some encode)
  | some bytes ↦
      if ltb j.max_bytes (length bytes) then (d, some too_large) else persist_bytes o bytes d
]
