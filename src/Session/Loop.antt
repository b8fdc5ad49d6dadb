-- ===== src/Session/Loop.antt =====
-- The session of agent/internal/agent/agent.go: its opening messages, and its loop as a function of the
-- events that `select` meets. Beside the loop run at most one collection of the status, and one
-- execution for each accepted command; that one of them ends is an event.
use vps_tool.Prelude.{
  ℕ, zero, suc, ◌+◌, Bool, true, false, Option, none, some, List, [], ◌∷◌, String, str_eq,
  if◌then◌else◌,
}
use vps_tool.Common.{Bytes, Time, Error, Result, ok, err}
use vps_tool.Protocol.Messages.{
  Json, Envelope, Command, new_envelope, marshal, decode_envelope, decode_command,
}
use text.Mathlib.Text.{find?}

-- What the agent sends; `P` is a status report and `R` a result.
pub data Message (P R : Type 0) : Type 0 where
  hello : Message P R
  status_report : P → Message P R
  heartbeat : Option P → Message P R
  command_ack : Command → Message P R
  command_result : String → R → Message P R
  notice : String → String → Message P R

abbrev pub message_type : {P R : Type 0} → Message P R → String
message_type hello = "agent_hello"
message_type (status_report p) = "status_report"
message_type (heartbeat p) = "heartbeat"
message_type (command_ack c) = "command_ack"
message_type (command_result id r) = "command_result"
message_type (notice code m) = "server_notice"

-- The agent and its connection: JSON, message ids and the clock, the writing of a message, the
-- collector with its last report, and the executor. A result comes with the id that it carries.
pub record Peer (W P R : Type 0) : Type 0 where
  pub json : Json
  pub payload : Message P R → Result Bytes
  pub message_id : W → String
  pub now : W → Time
  pub write : Bytes → W → W × Option Error
  pub collect : W → W × (P × Option Error)
  pub last : W → Option P
  pub recent : W → List (String × R)
  pub execute : Command → W → W × R
  pub cancelled : W → Option Error

-- `sent` holds the messages that were handed to `send`, the latest first, with its error.
pub record Session (W P R : Type 0) : Type 0 where
  pub world : W
  pub sent : List (Message P R × Option Error)
  pub status_running : Bool
  pub collections : ℕ
  pub executing : List Command

pub data Event : Type 0 where
  parent_done : Event
  read_failed : Error → Event
  received : Bytes → Event
  heartbeat_due : Event
  status_due : Event
  status_collected : Event
  executed : ℕ → Event

-- What a message from the controller asks for.
pub data Received : Type 0 where
  refused : String → String → Received
  passed_over : Received
  accepted : Command → Received

-- `strings.Contains`, by the position that was found.
abbrev is_there : Option ℕ → Bool
is_there none = false
is_there (some n) = true

unfoldable pub protocol_error_code : Error → String
protocol_error_code e =
    if is_there (find? e.message "unsupported protocol version")
    then "agent_version_incompatible"
    else "invalid_message"

abbrev as_command : Result Command → Received
as_command (err e) = refused "invalid_parameters" e.message
as_command (ok c) = accepted c

abbrev as_envelope : Json → Result Envelope → Received
as_envelope json (err e) = refused (protocol_error_code e) e.message
as_envelope json (ok e) =
    if str_eq e.message_type "server_notice"
    then passed_over
    else if str_eq e.message_type "command"
    then as_command (decode_command json e)
    else refused "invalid_message" "agent only accepts command messages"

unfoldable pub classify : Json → Bytes → Received
unfolding protocol_error_code
classify json bytes = as_envelope json (decode_envelope json bytes)

-- An execution that ends is taken out of the list.
abbrev pub with_head : Command → Option (Command × List Command) → Option (Command × List Command)
with_head c none = none
with_head c (some (d, rest)) = some (d, c ∷ rest)

unfoldable pub take_out : ℕ → List Command → Option (Command × List Command)
take_out n [] = none
take_out zero (c ∷ cs) = some (c, cs)
take_out (suc n) (c ∷ cs) = with_head c (take_out n cs)

-- What a round of the loop gives: it goes on, or the session ends with an error or none.
pub data Next (W P R : Type 0) : Type 0 where
  going : Session W P R → Next W P R
  ended : Option Error → Session W P R → Next W P R

module _ {W P R : Type 0} (peer : Peer W P R) where
  abbrev written : Result Bytes → W → W × Option Error
  written (err e) w = (w, some e)
  written (ok bytes) w = peer.write bytes w

  abbrev enveloped : Result Envelope → W → W × Option Error
  enveloped (err e) w = (w, some e)
  enveloped (ok e) w = written (marshal peer.json (peer.message_id w) (peer.now w) e) w

  -- `send`, which is noted with its error.
  unfoldable pub send : Message P R → Session W P R → Session W P R × Option Error
  send m s =
      let (w, e) =
        enveloped
          (new_envelope (peer.message_id s.world) (peer.now s.world) (message_type m)
            (peer.payload m))
          s.world in
      (record s { world = w; sent = (m, e) ∷ s.sent }, e)

  abbrev pub or_end : Session W P R × Option Error → Next W P R
  or_end (s, some e) = ended (some e) s
  or_end (s, none) = going s

  abbrev pub acknowledged : Command → Session W P R × Option Error → Session W P R
  acknowledged c (s, some e) = s
  acknowledged c (s, none) = record s { executing = c ∷ s.executing }

  unfoldable pub handled : Received → Session W P R → Session W P R
  handled (refused code m) s = (send (notice code m) s).0
  handled passed_over s = s
  handled (accepted c) s = acknowledged c (send (command_ack c) s)

  unfoldable pub handle_message : Bytes → Session W P R → Session W P R
  handle_message bytes s = handled (classify peer.json bytes) s

  unfoldable pub start_status : Session W P R → Session W P R
  start_status s =
      if s.status_running
      then s
      else record s { status_running = true; collections = s.collections + 1 }

  -- A report is sent unless the session has been cancelled.
  abbrev pub report_unless : Option Error → P → Session W P R → Next W P R
  report_unless (some over) p s = ended (some over) s
  report_unless none p s = or_end (send (status_report p) s)

  abbrev pub reported : W × (P × Option Error) → Session W P R → Next W P R
  reported (w, (p, e)) s = report_unless (peer.cancelled w) p (record s { world = w })

  abbrev pub collected : ℕ → Session W P R → Next W P R
  collected zero s = going s
  collected (suc n) s =
      reported (peer.collect s.world) (record s { status_running = false; collections = n })

  abbrev pub finished : Option (Command × List Command) → Session W P R → Session W P R
  finished none s = s
  finished (some (c, rest)) s =
      let (w, r) = peer.execute c s.world in
      (send (command_result c.request_id r) (record s { world = w; executing = rest })).0

  -- A round: an event, and what the loop or a goroutine does on it.
  unfoldable pub on_event : Event → Session W P R → Next W P R
  on_event parent_done s = ended none s
  on_event (read_failed e) s = ended (some e) s
  on_event (received bytes) s = going (handle_message bytes s)
  on_event heartbeat_due s = or_end (send (heartbeat (peer.last s.world)) s)
  on_event status_due s = going (start_status s)
  on_event status_collected s = collected s.collections s
  on_event (executed n) s = going (finished (take_out n s.executing) s)

  abbrev pub and_on : Next W P R → (Session W P R → Next W P R) → Next W P R
  and_on (ended e s) rest = ended e s
  and_on (going s) rest = rest s

  unfoldable pub serve : List Event → Session W P R → Next W P R
  serve [] s = going s
  serve (v ∷ vs) s = and_on (on_event v s) (λ s'. serve vs s')

  unfoldable pub send_all : List (String × R) → Session W P R → Next W P R
  send_all [] s = going s
  send_all ((id, r) ∷ rs) s = and_on (or_end (send (command_result id r) s)) (λ s'. send_all rs s')

  abbrev with_status : W × (P × Option Error) → Session W P R → Next W P R
  with_status (w, (p, e)) s = or_end (send (status_report p) (record s { world = w }))

  unfoldable pub send_status : Session W P R → Next W P R
  send_status s = with_status (peer.collect s.world) s

  abbrev pub fresh : W → Session W P R
  fresh w = record { world = w; sent = []; status_running = false; collections = 0; executing = [] }

  -- The opening messages: the hello, a status report and the recent results.
  unfoldable pub open_session : W → Next W P R
  open_session w =
      and_on (or_end (send hello (fresh w)))
        (λ s. and_on (send_status s) (λ s'. send_all (peer.recent s'.world) s'))

  unfoldable pub session : List Event → W → Next W P R
  session events w = and_on (open_session w) (λ s. serve events s)
