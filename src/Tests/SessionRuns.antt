-- ===== src/Tests/SessionRuns.antt =====
-- A session in which a command arrives while a collection of the status is due twice.
use vps_tool.Prelude.{ℕ, ◌+◌, ◌≡◌, refl, none, some, List, [], ◌∷◌, length}
use vps_tool.Common.{ok, value, decode_strict}
use vps_tool.Protocol.Messages.{
  Json, new_envelope, marshal, with_defaults, decode_envelope, decode_command, check_envelope,
  check_command, lacks_fields,
}
use vps_tool.Protocol.Envelopes.{message}
use vps_tool.Session.Loop.{
  Peer, Session, Event, received, heartbeat_due, status_due, executed, send, classify, handled,
  handle_message, start_status, take_out, on_event, serve, fresh,
}
use vps_tool.Session.Replies.{state_of, Balanced, serve-Balanced, results}
use vps_tool.Session.Progress.{IsSingle, serve-IsSingle}
use vps_tool.Tests.ProtocolRuns.{toy_json, braces, command_of}

abbrev session_json : Json
session_json = record toy_json {
  decode_envelope = λ b. value (message "m1" 5 "command" braces) [];
  decode_command = λ b. value (command_of "get_ip") [];
}

abbrev peer : Peer ℕ ℕ ℕ
peer = record {
  json = session_json;
  payload = λ m. ok braces;
  message_id = λ w. "m1";
  now = λ w. w;
  write = λ b w. (w + 1, none);
  collect = λ w. (w, (7, none));
  last = λ w. some 7;
  recent = λ w. [];
  execute = λ c w. (w + 1, 0);
  cancelled = λ w. none;
}

abbrev begun : Session ℕ ℕ ℕ
begun = fresh peer 100

abbrev busy : List Event
busy = status_due ∷ received braces ∷ status_due ∷ heartbeat_due ∷ executed 0 ∷ []

-- An acknowledgement, a heartbeat and a result were sent, and one collection runs.
busy_lem :
    (length (state_of (serve peer busy begun)).sent ≡ 3)
    × ((state_of (serve peer busy begun)).collections ≡ 1)
    × ((state_of (serve peer busy begun)).executing ≡ [])
    × (results "11111111-2222-3333" (state_of (serve peer busy begun)).sent ≡ 1)
unfolding serve on_event start_status handle_message handled classify send take_out new_envelope
    marshal with_defaults decode_envelope decode_command decode_strict check_envelope check_command
    lacks_fields results
busy_lem = (refl, refl, refl, refl)

serve-Balanced_example : Balanced "11111111-2222-3333" begun (state_of (serve peer busy begun))
serve-Balanced_example = serve-Balanced peer "11111111-2222-3333" busy begun

serve-IsSingle_example : IsSingle peer (state_of (serve peer busy begun))
serve-IsSingle_example = serve-IsSingle peer busy begun refl
