-- ===== src/Protocol/Messages.antt =====
-- The messages of agent/internal/protocol/protocol.go and their decoding. What encoding/json answers
-- for each of the types is given by a `Json`; the rest of the decoding is the agent's.
use Prim.Native.String.{◌++◌ as str_append}
use vps_tool.Prelude.{
  Bool, not, ◌||◌, Option, [], ◌∷◌, String, str_eq, ◌==◌, length, ℤ, pos, eq_ℤ, if◌then◌else◌,
}
use vps_tool.Common.{
  Bytes, Time, is_zero, Error, plain, wrap, Result, ok, err, ◌>>=◌, map_error, Decoded,
  decode_strict,
}

pub record Envelope : Type 0 where
  pub protocol_version : ℤ
  pub message_type : String
  pub message_id : String
  pub sent_at : Time
  pub payload : Bytes

pub record Command : Type 0 where
  pub request_id : String
  pub node_id : String
  pub action : String
  pub issued_at : Time
  pub deadline_at : Time
  pub parameters : Bytes

-- `*int` fields: `none` is nil.
pub record ChangeIpParameters : Type 0 where
  pub max_attempts : Option ℤ
  pub timeout_seconds : Option ℤ

pub record BackupParameters : Type 0 where
  pub backup_id : String

-- The decoders of encoding/json at the protocol's types, its encoder of envelopes, and the white
-- space that `bytes.TrimSpace` takes off.
pub record Json : Type 0 where
  pub trim_space : Bytes → Bytes
  pub decode_envelope : Bytes → Decoded Envelope
  pub decode_command : Bytes → Decoded Command
  pub decode_change_ip : Bytes → Decoded ChangeIpParameters
  pub decode_backup : Bytes → Decoded BackupParameters
  pub decode_empty : Bytes → Decoded (Unit {0})
  pub decode_extra : Bytes → Decoded (Unit {0})
  pub encode_envelope : Envelope → Result Bytes
  -- `%d` of an `int`, and `%q` of a text.
  pub show_version : ℤ → String
  pub quote : String → String

abbrev pub version : ℤ
version = pos 1

abbrev pub multiple_values : String
multiple_values = "multiple JSON values"

abbrev message_command : String
message_command = "command"

-- `New`: the envelope of a message, `data'` being the encoded payload.
unfoldable pub new_envelope : String → Time → String → Result Bytes → Result Envelope
new_envelope id now message_type (err e) = err (wrap "marshal payload: " e)
new_envelope id now message_type (ok data') = ok (record {
  protocol_version = version;
  message_type = message_type;
  message_id = id;
  sent_at = now;
  payload = data';
})

-- The defaults that `Marshal` puts into fields that are not set.
unfoldable pub with_defaults : String → Time → Envelope → Envelope
with_defaults id now e = record {
  protocol_version = if eq_ℤ e.protocol_version (pos 0) then version else e.protocol_version;
  message_type = e.message_type;
  message_id = if str_eq e.message_id "" then id else e.message_id;
  sent_at = if is_zero e.sent_at then now else e.sent_at;
  payload = if length e.payload == 0 then b'{' ∷ b'}' ∷ [] else e.payload;
}

unfoldable pub marshal : Json → String → Time → Envelope → Result Bytes
unfolding with_defaults
marshal json id now e = json.encode_envelope (with_defaults id now e)

unfoldable pub unsupported_version : Json → ℤ → Error
unsupported_version json v =
    plain (str_append "unsupported protocol version " (json.show_version v))

-- A field that every message must have is not set.
unfoldable pub lacks_fields : Json → Envelope → Bool
lacks_fields json e =
    str_eq e.message_type ""
    || (str_eq e.message_id "" || (is_zero e.sent_at || (length (json.trim_space e.payload) == 0)))

unfoldable pub check_envelope : Json → Envelope → Result Envelope
unfolding lacks_fields unsupported_version
check_envelope json e =
    if not (eq_ℤ e.protocol_version version)
    then err (unsupported_version json e.protocol_version)
    else if lacks_fields json e
    then err (plain "envelope is missing required fields")
    else ok e

unfoldable pub decode_envelope : Json → Bytes → Result Envelope
decode_envelope json bytes =
    map_error (wrap "decode envelope: ")
      (decode_strict multiple_values json.decode_envelope json.decode_extra bytes)
    >>= check_envelope json

unfoldable pub check_command : Json → Command → Result Command
check_command json c =
    if length (json.trim_space c.parameters) == 0
    then err (plain "command parameters are required")
    else ok c

unfoldable pub decode_command : Json → Envelope → Result Command
decode_command json e =
    if not (eq_ℤ e.protocol_version version)
    then err (unsupported_version json e.protocol_version)
    else if not (str_eq e.message_type message_command)
    then err (plain (str_append "unexpected message type " (json.quote e.message_type)))
    else map_error (wrap "decode command: ")
        (decode_strict multiple_values json.decode_command json.decode_extra e.payload)
      >>= check_command json
