-- ===== src/Executor/Results.antt =====
-- The results of agent/internal/action/executor.go, `persist`, `fromJournal` and `errorCode`.
use vps_tool.Prelude.{Option, none, some, List, [], ◌∷◌, map, String, length, ◌==◌, if◌then◌else◌}
use vps_tool.Common.{Bytes, Time, Error, code_or}
use vps_tool.Journal.Entries.{Entry, Codec, Journal}
use vps_tool.Journal.Disk.{Outcomes}
use vps_tool.Journal.Store.{Store, RecordError, record_entry}

-- `Result any` holds a value of type `P`, or nil.
pub record ActionResult (P : Type 0) : Type 0 where
  pub request_id : String
  pub action : String
  pub state : String
  pub code : String
  pub message : String
  pub result : Option P
  pub finished_at : Time

-- `json.Marshal` and `json.Unmarshal` of a payload; `none` is an error.
pub record PayloadCodec (P : Type 0) : Type 0 where
  pub encode : Option P → Option Bytes
  pub parse : Bytes → Option (Option P)

abbrev pub null_bytes : Bytes
null_bytes = b'n' ∷ b'u' ∷ b'l' ∷ b'l' ∷ []

abbrev pub or_null : Option Bytes → Bytes
or_null none = null_bytes
or_null (some b) = b

module _ {P : Type 0} (payloads : PayloadCodec P) where
  unfoldable pub to_entry : ActionResult P → Entry
  to_entry r = record {
    request_id = r.request_id;
    action = r.action;
    state = r.state;
    code = r.code;
    message = r.message;
    result = or_null (payloads.encode r.result);
    finished_at = r.finished_at;
  }

  -- An error of `Unmarshal` is ignored, and leaves nil.
  abbrev pub or_nil : Option (Option P) → Option P
  or_nil none = none
  or_nil (some p) = p

  unfoldable pub from_journal : Entry → ActionResult P
  from_journal e = record {
    request_id = e.request_id;
    action = e.action;
    state = e.state;
    code = e.code;
    message = e.message;
    result = if length e.result == 0 then none else or_nil (payloads.parse e.result);
    finished_at = e.finished_at;
  }

  unfoldable pub persist_result :
      Codec → Outcomes → ActionResult P → Store → Store × Option RecordError
  persist_result codec o r s = record_entry codec o (to_entry r) s

  unfoldable pub recent : Journal → List (ActionResult P)
  recent j = map from_journal j.entries

-- `errorCode` of an error that is there: its code, or `action_timeout` for a missed deadline, or the
-- fallback.
unfoldable pub error_code : Error → String → String
error_code e fallback =
    let late = if e.deadline then "action_timeout" else fallback in code_or e.code late
