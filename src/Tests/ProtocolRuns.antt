-- ===== src/Tests/ProtocolRuns.antt =====
-- The protocol on concrete messages, over a toy JSON: every text decodes to the message that
-- `toy_json` gives for its type.
use vps_tool.Prelude.{
  ℕ, ◌≤◌, ◌<◌, ◌≡◌, ◌≢◌, ◌↔◌, ◌⊎◌, refl, true, false, none, some, [], ◌∷◌, String, eq_iff, arith,
  pos, lookup,
}
use mathlib.Core.List.{Memᴰ}
use vps_tool.Common.{Bytes, ok, eof, value, decode_strict}
use vps_tool.Chars.{size, has_char, first_is, has_dots, matches, matches_class, all_chars}
use vps_tool.Validation.Rules.{unit_name, request_id}
use vps_tool.Validation.Safety.{IsHarmful, unit_name_safe}
use vps_tool.Protocol.Actions.{actions, is_state_changing}
use vps_tool.Protocol.Messages.{
  Json, Command, ChangeIpParameters, decode_envelope, new_envelope, marshal,
}
use vps_tool.Protocol.Commands.{
  decode_change_ip, decode_object, check_change_ip, is_known, validate_command, validate_parameters,
  validation_code,
}
use vps_tool.Protocol.Allowlist.{announced_iff, validate_command_codes}
use vps_tool.Protocol.Accepted.{Within, decode_change_ip-Within, Acceptable, validate_command_iff}
use vps_tool.Protocol.Envelopes.{message, RoundTrips, decode-marshal-new}

abbrev pub braces : Bytes
braces = b'{' ∷ b'}' ∷ []

abbrev pub two_attempts : ChangeIpParameters
two_attempts = record { max_attempts = some (pos 2); timeout_seconds = none }

abbrev pub toy_json : Json
toy_json = record {
  trim_space = λ b. b;
  decode_envelope = λ b. value (message "m1" 5 "pong" braces) [];
  decode_command = λ b. eof;
  decode_change_ip = λ b. value two_attempts [];
  decode_backup = λ b. eof;
  decode_empty = λ b. value tt [];
  decode_extra = λ b. eof;
  encode_envelope = λ e. ok (7 ∷ []);
  show_version = λ v. "?";
  quote = λ s. s;
}

abbrev pub command_of : String → Command
command_of action = record {
  request_id = "11111111-2222-3333";
  node_id = "node-1";
  action = action;
  issued_at = 10;
  deadline_at = 20;
  parameters = braces;
}

unit_name_safe_example :
    (size "x-ui.service" ≤ 128)
    × (first_is b'-' "x-ui.service" ≡ false)
    × (has_dots "x-ui.service" ≡ false)
    × ((k : ℕ) → IsHarmful k → has_char k "x-ui.service" ≡ false)
unfolding unit_name matches has_dots all_chars size has_char
unit_name_safe_example = unit_name_safe "x-ui.service" refl

decode_change_ip-Within_example : Within 1 3 (some (pos 2)) × Within 30 180 none
unfolding decode_change_ip decode_object check_change_ip decode_strict
decode_change_ip-Within_example = decode_change_ip-Within toy_json braces two_attempts refl

abbrev sample : String
sample = "warp_on"

announced_iff_example :
    ((is_known sample ≡ true) ↔ Memᴰ sample actions)
    × ((is_state_changing sample ≡ true)
        ↔ ((is_known sample ≡ true) × (sample ≢ "get_status") × (sample ≢ "get_ip")))
announced_iff_example = announced_iff sample

validate_command_iff_example :
    (validate_command toy_json (command_of "warp_on") "node-1" 15 ≡ none)
    ↔ Acceptable toy_json (command_of "warp_on") "node-1" 15
validate_command_iff_example = validate_command_iff toy_json (command_of "warp_on") "node-1" 15

-- The toy command is accepted, also at its deadline, and refused a moment later.
command_runs :
    (validate_command toy_json (command_of "warp_on") "node-1" 20 ≡ none)
    × (validate_command toy_json (command_of "change_ip") "node-1" 0 ≡ none)
unfolding validate_command validate_parameters decode_object decode_strict request_id lookup
    matches_class matches all_chars size decode_change_ip check_change_ip
command_runs = (refl, refl)

-- An action that the agent does not know.
refused_run : (e : _) × (validate_command toy_json (command_of "reboot") "node-1" 15 ≡ some e)
unfolding validate_command request_id lookup matches all_chars size
refused_run = (_, refl)

validate_command_codes_example :
    (validation_code refused_run.0 ≡ "invalid_parameters")
    ⊎ (((validation_code refused_run.0 ≡ "unsupported_action") × (is_known "reboot" ≡ false))
        ⊎ ((validation_code refused_run.0 ≡ "request_expired") × (0 < 15) × (20 < 15)))
validate_command_codes_example =
    validate_command_codes toy_json (command_of "reboot") "node-1" 15 refused_run.0 refused_run.1

toy-RoundTrips : RoundTrips toy_json (message "m1" 5 "pong" braces)
toy-RoundTrips = record { rest = []; reads = λ bytes e. refl; ends = refl }

decode-marshal-new_example : decode_envelope toy_json (7 ∷ []) ≡ ok (message "m1" 5 "pong" braces)
unfolding new_envelope marshal
decode-marshal-new_example =
    decode-marshal-new toy_json "m1" "pong" 5 braces (7 ∷ []) "m2" 6 toy-RoundTrips
      (λ e. ground (arith, eq_iff "pong" "")) (λ e. ground (arith, eq_iff "m1" "")) (omega arith)
      (omega arith) (omega arith) refl
