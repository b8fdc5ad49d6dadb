-- ===== src/Protocol/Envelopes.antt =====
-- The way of a message through `New`, `Marshal` and `DecodeEnvelope` of
-- agent/internal/protocol/protocol.go.
use vps_tool.Prelude.{◌<◌, ◌≡◌, ◌≢◌, String, eq_iff, arith, length}
use vps_tool.Common.{Bytes, Time, ok, ◌>>=◌, eof, value, decode_strict}
use vps_tool.Protocol.Messages.{
  Json, Envelope, version, new_envelope, marshal, check_envelope, decode_envelope, multiple_values,
}

-- What encoding/json documents, at one envelope: its encoding decodes to it, and nothing follows.
pub record RoundTrips (json : Json) (e : Envelope) : Type 0 where
  pub rest : Bytes
  pub reads :
      (bytes : Bytes)
      → json.encode_envelope e ≡ ok bytes
      → json.decode_envelope bytes ≡ value e rest
  pub ends : json.decode_extra rest ≡ eof

abbrev pub message : String → Time → String → Bytes → Envelope
message id now message_type data' = record {
  protocol_version = version;
  message_type = message_type;
  message_id = id;
  sent_at = now;
  payload = data';
}

decode_strict-value :
    (json : Json) (e : Envelope) (bytes : Bytes)
    → RoundTrips json e
    → json.encode_envelope e ≡ ok bytes
    → decode_strict multiple_values json.decode_envelope json.decode_extra bytes ≡ ok e
unfolding decode_strict
decode_strict-value json e bytes law h = rw (law.reads bytes h, decode_strict) (rw law.ends)

-- A message with a type, an id, a time and a payload that is not blank is made by New, is encoded
-- by Marshal without a change, and decodes to itself, where encoding/json reads back that message.
pub decode-marshal-new :
    (json : Json) (id message_type : String) (now : Time) (data' bytes : Bytes) (spare_id : String)
    (spare_now : Time)
    → RoundTrips json (message id now message_type data')
    → message_type ≢ ""
    → id ≢ ""
    → 0 < now
    → 0 < length (json.trim_space data')
    → 0 < length data'
    → (new_envelope id now message_type (ok data') >>= marshal json spare_id spare_now) ≡ ok bytes
    → decode_envelope json bytes ≡ ok (message id now message_type data')
unfolding new_envelope marshal decode_envelope check_envelope
decode-marshal-new json id message_type now data' bytes spare_id spare_now law t i n p l h =
    let e = message id now message_type data' in
    let encoded : json.encode_envelope e ≡ ok bytes = ground (arith, h, eq_iff id "") in
    rw (decode_strict-value json e bytes law encoded)
      (ground (arith, eq_iff message_type "", eq_iff id ""))
