-- ===== src/Executor/Requests.antt =====
-- `Execute` of agent/internal/action/executor.go: one command against the journal, the set of
-- requests in progress and the node. `admit` is the part before the claim is taken or refused,
-- `perform` the part under the claim, with its second look at the journal under the state lock, its
-- persisting and its release; a step of another goroutine can come between the two.
use vps_tool.Prelude.{
  Bool, true, false, not, Option, none, some, String, str_eq, Dict, lookup, insert, delete,
  if◌then◌else◌,
}
use vps_tool.Common.{Time, is_zero, Error}
use vps_tool.Journal.Entries.{Entry, Codec, absent, present, out_of_range, find_entry}
use vps_tool.Journal.Disk.{Outcomes}
use vps_tool.Journal.Store.{Store, RecordError}
use vps_tool.Protocol.Actions.{is_state_changing}
use vps_tool.Protocol.Messages.{Json, Command}
use vps_tool.Protocol.Commands.{validate_command, validation_code}
use vps_tool.Executor.Results.{ActionResult, PayloadCodec, from_journal, persist_result}
use vps_tool.Executor.Dispatch.{Deadline, Node, Installer, Transport, run_action}

-- What an `Executor` is built from.
pub record Parts (W P : Type 0) : Type 0 where
  pub node_id : String
  pub json : Json
  pub codec : Codec
  pub payloads : PayloadCodec P
  pub node : Node W P
  pub installer : Option (Installer W P)
  pub transport : Option (Transport W P)

-- The journal with its file, the ids in progress, and the world.
pub record State (W : Type 0) : Type 0 where
  pub store : Store
  pub active : Dict (Unit {0})
  pub world : W

-- What `Execute` returns; `panicked` is a stale journal index.
pub data Reply (P : Type 0) : Type 0 where
  replied : ActionResult P → Reply P
  panicked : Reply P

-- After `admit`: a reply, or the request is claimed and is to be performed.
pub data Admitted (P : Type 0) : Type 0 where
  finished : Reply P → Admitted P
  claimed : Admitted P

abbrev pub is_active : String → Dict (Unit {0}) → Bool
is_active id active = elim (lookup id active) [ none ↦ false | some _ ↦ true ]

-- `claim` and `release`.
unfoldable pub claim : {W : Type 0} → String → State W → State W
claim id s = record s { active = insert id tt s.active }

unfoldable pub release : {W : Type 0} → String → State W → State W
release id s = record s { active = delete id s.active }

-- A result that carries no payload.
abbrev pub bare : {P : Type 0} → Command → Time → String → String → String → ActionResult P
bare c now state code message = record {
  request_id = c.request_id;
  action = c.action;
  state = state;
  code = code;
  message = message;
  result = none;
  finished_at = now;
}

-- `context.WithDeadline`, unless the command has none.
abbrev pub deadline_of : Command → Deadline
deadline_of c = if is_zero c.deadline_at then none else some c.deadline_at

module _ {W P : Type 0} (parts : Parts W P) where
  open parts use {node_id, json, codec, payloads, node, installer, transport}

  -- The reply for a request that the journal knows.
  unfoldable pub known_reply : Command → Entry → Time → ActionResult P
  known_reply c previous now =
      if not (str_eq previous.action c.action)
      then bare c now "failed" "request_conflict"
          "request_id is already associated with a different action"
      else from_journal payloads previous

  abbrev after_reject : ActionResult P → Option RecordError → ActionResult P
  after_reject r none = r
  after_reject r (some _) = record r {
    code = "journal_failed";
    message = "invalid request could not be persisted";
  }

  -- A command that does not validate: the refusal is recorded.
  unfoldable pub reject : Outcomes → Command → Error → State W → State W × ActionResult P
  reject o c e s =
      let r = bare c (node.now s.world) "failed" (validation_code e) e.message in
      let (store', failure) = persist_result payloads codec o r s.store in
      (record s { store = store' }, after_reject r failure)

  -- A command with a new id.
  unfoldable pub admit_new : Outcomes → Command → State W → State W × Admitted P
  admit_new o c s = elim (validate_command json c node_id (node.now s.world)) [
    | some e ↦ let (s', r) = reject o c e s in (s', finished (replied r))
    | none ↦
        if is_active c.request_id s.active
        then (
          s,
          finished (
              replied (
                bare c (node.now s.world) "running" "request_in_progress"
                  "request is already executing")),
        )
        else (claim c.request_id s, claimed)
  ]

  unfoldable pub admit : Outcomes → Command → State W → State W × Admitted P
  admit o c s = elim (find_entry s.store.journal c.request_id) [
    | present previous ↦ (s, finished (replied (known_reply c previous (node.now s.world))))
    | out_of_range ↦ (s, finished panicked)
    | absent ↦ admit_new o c s
  ]

  abbrev after_run : ActionResult P → Option RecordError → ActionResult P
  after_run r none = r
  after_run r (some _) = record r {
    state = "failed";
    code = "journal_failed";
    message = "action completed but terminal result could not be persisted";
  }

  -- The action itself, and the recording of its result.
  unfoldable pub run_and_record : Outcomes → Command → State W → State W × ActionResult P
  run_and_record o c s =
      let (world', r) = run_action json node (deadline_of c) c installer transport s.world in
      let (store', failure) = persist_result payloads codec o r s.store in
      (record s { store = store'; world = world' }, after_run r failure)

  abbrev with_reply : State W × ActionResult P → State W × Reply P
  with_reply (s, r) = (s, replied r)

  -- The second look at the journal, for actions that change the state of the node.
  unfoldable pub perform_claimed : Outcomes → Command → State W → State W × Reply P
  perform_claimed o c s =
      if is_state_changing c.action
      then elim (find_entry s.store.journal c.request_id) [
        | present previous ↦ (s, replied (from_journal payloads previous))
        | out_of_range ↦ (s, panicked)
        | absent ↦ with_reply (run_and_record o c s)
      ]
      else with_reply (run_and_record o c s)

  unfoldable pub perform : Outcomes → Command → State W → State W × Reply P
  perform o c s = let (s', r) = perform_claimed o c s in (release c.request_id s', r)

  abbrev pub continue : Outcomes → Command → State W × Admitted P → State W × Reply P
  continue o c (s, finished r) = (s, r)
  continue o c (s, claimed) = perform o c s

  -- `Execute`, with no step of another goroutine in between.
  unfoldable pub execute : Outcomes → Command → State W → State W × Reply P
  execute o c s = continue o c (admit o c s)
