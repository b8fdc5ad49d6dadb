-- ===== src/Tests/ExecutorRuns.antt =====
-- The executor on concrete commands, over a toy node whose world counts the operations carried out.
use vps_tool.Prelude.{ℕ, ◌+◌, ◌⊎◌, ◌↔◌, ◌≡◌, refl, true, false, none, some, [], ◌∷◌, lookup, insert}
use vps_tool.Common.{Error, err, ok, plain, decode_strict}
use vps_tool.Chars.{size, matches, all_chars}
use vps_tool.Validation.Rules.{request_id}
use vps_tool.Journal.Entries.{absent, find_entry, trim, over_limit, incomplete}
use vps_tool.Journal.Disk.{persist}
use vps_tool.Journal.Store.{record_entry, record_new, commit, record_known, append_entry}
use vps_tool.Protocol.Actions.{is_state_changing}
use vps_tool.Protocol.Messages.{Command}
use vps_tool.Protocol.Commands.{
  decode_change_ip, decode_object, check_change_ip, validate_command, validate_parameters,
}
use vps_tool.Executor.Results.{ActionResult, PayloadCodec, to_entry, from_journal, persist_result}
use vps_tool.Executor.Dispatch.{Node, change_options, run_action, run_operation, conclude}
use vps_tool.Executor.Requests.{Parts, State, replied, deadline_of, execute, perform, is_active}
use vps_tool.Executor.Idempotence.{Untouched, perform_once, execute_once}
use vps_tool.Executor.Touches.{CarriedOut, execute-Touches}
use vps_tool.Executor.Outcome.{Answers, run_action-Answers, change_ip_fails_iff}
use vps_tool.WarpChange.Run.{default_options, out_of_range}
use vps_tool.Executor.Bounds.{change_options-in_range}
use vps_tool.Executor.Effects.{Settled, execute-Settled}
use vps_tool.Tests.JournalRuns.{toy, fine, empty_store, empty-IsWellFormed}
use vps_tool.Tests.ProtocolRuns.{toy_json, command_of, two_attempts}

abbrev toy_node : Node ℕ ℕ
toy_node = record {
  now = λ w. 15;
  collect = λ d w. (w, (some w, none));
  get_ips = λ d w. (w, (some w, none));
  turn_on = λ d w. (w + 1, (some w, none));
  turn_off = λ d w. (w + 1, (some w, none));
  change_ip = λ d o w.
      (w + 1, record { success = false; code = "ip_unchanged"; message = "no"; payload = w });
  restart_xui = λ d w. (w + 1, (some w, none));
  upgrade = λ d w. (w, (none, some (plain "no upgrade")));
}

abbrev toy_payloads : PayloadCodec ℕ
toy_payloads = record {
  encode = λ p. elim p [ none ↦ none | some n ↦ some (n ∷ []) ];
  parse = λ b. elim b [ [] ↦ none | n ∷ _ ↦ some (some n) ];
}

abbrev parts : Parts ℕ ℕ
parts = record {
  node_id = "node-1";
  json = toy_json;
  codec = toy;
  payloads = toy_payloads;
  node = toy_node;
  installer = none;
  transport = none;
}

abbrev start : State ℕ
start = record { store = empty_store; active = []; world = 4 }

abbrev turn_on : Command
turn_on = command_of "warp_on"

abbrev change : Command
change = command_of "change_ip"

abbrev ran : ℕ × ActionResult ℕ
ran = run_action toy_json toy_node (deadline_of turn_on) turn_on none none 4

abbrev expected : ActionResult ℕ
expected = record {
  request_id = "11111111-2222-3333";
  action = "warp_on";
  state = "succeeded";
  code = "ok";
  message = "action completed";
  result = some 4;
  finished_at = 15;
}

run_expected : ran ≡ (5, expected)
unfolding run_action run_operation conclude
run_expected = refl

valid_on : validate_command toy_json turn_on "node-1" 15 ≡ none
unfolding validate_command validate_parameters decode_object decode_strict request_id lookup matches
    all_chars size
valid_on = refl

new_id : find_entry empty_store.journal turn_on.request_id ≡ absent
unfolding find_entry lookup
new_id = refl

idle_on : is_active turn_on.request_id [] ≡ false
unfolding lookup
idle_on = refl

-- The command is carried out and recorded.
recorded : (persist_result toy_payloads toy fine ran.1 empty_store).1 ≡ none
unfolding persist_result to_entry record_entry find_entry trim over_limit persist incomplete
    append_entry lookup insert record_new commit record_known run_action run_operation conclude
recorded = refl

-- The state behind it, in which the node has gone on.
abbrev gone_on : State ℕ
gone_on = record (execute parts fine turn_on start).0 { world = 99 }

execute_once_example :
    ((execute parts fine turn_on start).1 ≡ replied ran.1)
    × (execute parts fine turn_on gone_on
        ≡ (gone_on, replied (from_journal toy_payloads (to_entry toy_payloads ran.1))))
execute_once_example =
    execute_once parts fine turn_on start empty-IsWellFormed new_id valid_on idle_on recorded fine
      gone_on refl

changing_on : is_state_changing "warp_on" ≡ true
unfolding is_state_changing lookup
changing_on = refl

perform_once_example :
    Untouched
      (perform parts fine turn_on start).0
      (perform parts fine turn_on (perform parts fine turn_on start).0).0
perform_once_example =
    perform_once parts fine turn_on start empty-IsWellFormed changing_on recorded fine turn_on
      changing_on refl

execute-Touches_example :
    ((execute parts fine turn_on start).0.world ≡ 4)
    ⊎ CarriedOut parts fine turn_on start (execute parts fine turn_on start).0
execute-Touches_example = execute-Touches parts fine turn_on start

run_action-Answers_example : Answers turn_on ran
run_action-Answers_example =
    run_action-Answers toy_json toy_node (deadline_of turn_on) turn_on none none 4

decoded_change : decode_change_ip toy_json change.parameters ≡ ok two_attempts
unfolding decode_change_ip decode_object check_change_ip decode_strict
decoded_change = refl

-- The toy machine answers `ip_unchanged`.
change_ip_fails_iff_example :
    ((run_action toy_json toy_node none change none none 4).1.state ≡ "failed")
    ↔ ((e : Error) × (decode_change_ip toy_json change.parameters ≡ err e))
change_ip_fails_iff_example = change_ip_fails_iff toy_json toy_node none change none none 4 refl

change_options-in_range_example :
    out_of_range (default_options (change_options two_attempts)) ≡ false
change_options-in_range_example =
    change_options-in_range toy_json change.parameters two_attempts decoded_change

execute-Settled_example : Settled start (execute parts fine turn_on start).0
execute-Settled_example = execute-Settled parts fine turn_on start
