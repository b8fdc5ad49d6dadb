-- ===== src/Protocol/Commands.antt =====
-- The validation of commands of agent/internal/protocol/protocol.go: `ValidateCommand`,
-- `validateParameters`, `DecodeChangeIPParameters`, `DecodeBackupParameters`, `decodeObject`.
use vps_tool.Prelude.{
  ℕ, Bool, false, not, ◌&&◌, ◌||◌, Option, none, some, [], ◌∷◌, String, str_eq, ◌==◌, ltb, leb, ℤ,
  pos, ltb_ℤ, lookup, if◌then◌else◌,
}
use vps_tool.Common.{
  Bytes, Time, is_zero, Error, plain, Result, ok, err, ◌>>=◌, map_error, Decoded, decode_strict,
  code_or,
}
use vps_tool.Chars.{alnum, matches_class}
use vps_tool.Validation.Rules.{request_id}
use vps_tool.Protocol.Actions.{action_set, is_some}
use vps_tool.Protocol.Messages.{
  Json, Command, ChangeIpParameters, BackupParameters, multiple_values,
}

-- A `*ValidationError`.
abbrev pub invalid : String → String → Error
invalid code m = record { message = m; code = none; validation = some code; deadline = false }

-- An error met in decoding, as a `*ValidationError` with its text.
abbrev pub undecodable : Error → Error
undecodable e = invalid "invalid_parameters" e.message

abbrev pub starts_object : Bytes → Bool
starts_object [] = false
starts_object (c ∷ _) = c == b'{'

unfoldable pub decode_object {ℓ} : {A : Type ℓ} → Json → (Bytes → Decoded A) → Bytes → Result A
decode_object json first raw =
    let trimmed = json.trim_space raw in
    if starts_object trimmed
    then decode_strict multiple_values first json.decode_extra trimmed
    else err (plain "parameters must be a JSON object")

-- A parameter that is given and lies outside its range.
abbrev pub outside : ℕ → ℕ → Option ℤ → Bool
outside lo hi none = false
outside lo hi (some v) = ltb_ℤ v (pos lo) || ltb_ℤ (pos hi) v

unfoldable pub check_change_ip : ChangeIpParameters → Result ChangeIpParameters
check_change_ip p =
    if outside 1 3 p.max_attempts
    then err (invalid "invalid_parameters" "max_attempts must be between 1 and 3")
    else if outside 30 180 p.timeout_seconds
    then err (invalid "invalid_parameters" "timeout_seconds must be between 30 and 180")
    else ok p

unfoldable pub decode_change_ip : Json → Bytes → Result ChangeIpParameters
decode_change_ip json raw =
    map_error undecodable (decode_object json json.decode_change_ip raw) >>= check_change_ip

-- `^[A-Za-z0-9-]{36,64}$`.
unfoldable pub backup_id_ok : String → Bool
unfolding matches_class
backup_id_ok s = matches_class (λ c. alnum c || (c == b'-')) 36 64 s

unfoldable pub check_backup : BackupParameters → Result BackupParameters
unfolding backup_id_ok
check_backup p =
    if backup_id_ok p.backup_id
    then ok p
    else err (invalid "invalid_parameters" "backup_id is invalid")

unfoldable pub decode_backup : Json → Bytes → Result BackupParameters
decode_backup json raw =
    map_error undecodable (decode_object json json.decode_backup raw) >>= check_backup

-- The error of a result, if it is one.
abbrev pub failure {ℓ} : {A : Type ℓ} → Result A → Option Error
failure (ok _) = none
failure (err e) = some e

unfoldable pub validate_parameters : Json → String → Bytes → Option Error
validate_parameters json action raw =
    if str_eq action "change_ip"
    then failure (decode_change_ip json raw)
    else if str_eq action "backup_xui" || str_eq action "restore_xui"
    then failure (decode_backup json raw)
    else failure (map_error undecodable (decode_object json json.decode_empty raw))

abbrev pub is_known : String → Bool
is_known action = is_some (lookup action action_set)

-- The tests of the two times of a command.
abbrev pub bad_times : Command → Bool
bad_times c = is_zero c.issued_at || (is_zero c.deadline_at || leb c.deadline_at c.issued_at)

abbrev pub is_expired : Time → Command → Bool
is_expired now c = not (is_zero now) && ltb c.deadline_at now

unfoldable pub validate_command : Json → Command → String → Time → Option Error
validate_command json c expected now =
    if not (request_id c.request_id)
    then some (invalid "invalid_parameters" "invalid request_id")
    else if not (str_eq c.node_id expected)
    then some (invalid "invalid_parameters" "command node_id does not match this agent")
    else if str_eq c.action ""
    then some (invalid "invalid_parameters" "action is required")
    else if not (is_known c.action)
    then some (invalid "unsupported_action" "action is not supported by this agent")
    else if bad_times c
    then some (invalid "invalid_parameters" "issued_at and deadline_at are invalid")
    else if is_expired now c
    then some (invalid "request_expired" "command deadline has passed")
    else validate_parameters json c.action c.parameters

-- `validationCode`, of the executor and of the command loop.
unfoldable pub validation_code : Error → String
validation_code e = code_or e.validation "invalid_parameters"
