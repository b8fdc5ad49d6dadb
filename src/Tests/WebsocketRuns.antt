-- ===== src/Tests/WebsocketRuns.antt =====
-- A message in two parts with a ping between them, and a short frame that is written and read again.
use vps_tool.Prelude.{
  ◌≤◌, ◌++◌, inl, arith, ◌≡◌, ◌↔◌, refl, true, false, none, List, [], ◌∷◌, length,
}
use vps_tool.Common.{Bytes, Result, ok, plain}
use vps_tool.Websocket.Reading.{Frame, Connection, message, append_limited, add_frame, read_message}
use vps_tool.Websocket.Frames.{read_frame, write_frame}
use vps_tool.Websocket.RoundTrip.{read_frame-write_frame}
use vps_tool.Websocket.Fragments.{Holds, read_message_iff}

abbrev small : Connection
small = record {
  max_bytes = 4;
  context_error = none;
  write_pong = λ b. none;
  unsupported = λ n. plain "unsupported websocket opcode";
}

abbrev together : Bytes
together = 7 ∷ 8 ∷ 9 ∷ []

abbrev two_parts : List (Result Frame)
two_parts =
    ok (record { fin = false; opcode = 1; payload = 7 ∷ 8 ∷ [] })
    ∷ ok (record { fin = true; opcode = 9; payload = [] })
    ∷ ok (record { fin = true; opcode = 0; payload = 9 ∷ [] })
    ∷ []

two_parts_run : read_message small two_parts false [] ≡ message together
unfolding read_message add_frame append_limited
two_parts_run = refl

read_message_iff_example :
    (read_message small two_parts false [] ≡ message together)
    ↔ (Holds small false two_parts together × (length together ≤ 4))
read_message_iff_example = read_message_iff small two_parts together

abbrev some_mask : Bytes
some_mask = 1 ∷ 2 ∷ 3 ∷ 4 ∷ []

read_frame-write_frame_example :
    read_frame (plain "EOF") 8 (write_frame 1 some_mask together ++ [])
    ≡ ok (record { fin = true; opcode = 1; payload = together }, [])
read_frame-write_frame_example =
    read_frame-write_frame (plain "EOF") 8 1 some_mask together [] refl (omega arith) (omega arith)
      (omega arith) (inl (omega arith))
