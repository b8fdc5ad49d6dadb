-- ===== src/Websocket/Reading.antt =====
-- `ReadMessage` and `appendLimited` of agent/internal/wsclient/client.go over the frames that
-- `readFrame` gives, one after the other.
use vps_tool.Prelude.{
  ℕ, ◌+◌, Bool, true, false, Option, none, some, List, [], ◌∷◌, ◌++◌, ◌==◌, ltb, length,
  if◌then◌else◌,
}
use vps_tool.Common.{Bytes, Error, plain, Result, ok, err}

pub record Frame : Type 0 where
  pub fin : Bool
  pub opcode : ℕ
  pub payload : Bytes

-- The cases of the `switch` on the opcode.
pub data Kind : Type 0 where
  text continuation ending ping pong unknown : Kind

abbrev pub kind : ℕ → Kind
kind opcode =
    if opcode == 8
    then ending
    else if opcode == 9
    then ping
    else if opcode == 10
    then pong
    else if opcode == 1
    then text
    else if opcode == 0
    then continuation
    else unknown

-- How a call of `ReadMessage` ends; `waiting` if no further frame has come.
pub data Outcome : Type 0 where
  message : Bytes → Outcome
  failed : Error → Outcome
  ended waiting : Outcome

-- What a connection is given: its limit, the end of the context, and how the answer to a ping goes.
pub record Connection : Type 0 where
  pub max_bytes : ℕ
  pub context_error : Option Error
  pub write_pong : Bytes → Option Error
  -- `fmt.Errorf` of an opcode.
  pub unsupported : ℕ → Error

abbrev read_error : Option Error → Error → Error
read_error none e = e
read_error (some c) e = c

-- `appendLimited`; `none` is its error.
unfoldable pub append_limited : ℕ → Bytes → Bytes → Option Bytes
append_limited limit buffer payload =
    if ltb limit (length buffer + length payload) then none else some (buffer ++ payload)

-- A data frame; `rest` is the loop from then on, given the buffer.
unfoldable pub add_frame : Connection → Frame → Bytes → (Bytes → Outcome) → Outcome
add_frame c f buffer rest = elim (append_limited c.max_bytes buffer f.payload) [
  | none ↦ failed (plain "websocket message exceeds limit")
  | some more ↦ if f.fin then message more else rest more
]

abbrev pub out_of_turn : Kind → Outcome
out_of_turn text = failed (plain "unexpected websocket text frame")
out_of_turn _ = failed (plain "unexpected websocket continuation frame")

unfoldable pub read_message : Connection → List (Result Frame) → Bool → Bytes → Outcome
read_message c [] started buffer = waiting
read_message c (err e ∷ frames) started buffer = failed (read_error c.context_error e)
read_message c (ok f ∷ frames) started buffer = elim (kind f.opcode) [
  | ending ↦ ended
  | ping ↦ elim (c.write_pong f.payload) [
    | some e ↦ failed e
    | none ↦ read_message c frames started buffer
  ]
  | pong ↦ read_message c frames started buffer
  | text ↦ elim started [
    | true ↦ out_of_turn text
    | false ↦ add_frame c f buffer (λ b. read_message c frames true b)
  ]
  | continuation ↦ elim started [
    | true ↦ add_frame c f buffer (λ b. read_message c frames true b)
    | false ↦ out_of_turn continuation
  ]
  | unknown ↦ failed (c.unsupported f.opcode)
]
