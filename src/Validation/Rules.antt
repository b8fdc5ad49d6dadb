-- ===== src/Validation/Rules.antt =====
-- The checks `NodeID`, `RequestID`, `UnitName` and `AdapterName` of
-- agent/internal/validation/validation.go. A check answers true where the source returns no error.
use vps_tool.Prelude.{ℕ, Bool, not, ◌&&◌, ◌||◌, String, ◌==◌}
use vps_tool.Chars.{has_char, has_dots, alnum, between, matches}

-- `[A-Za-z0-9._:-]`.
abbrev pub node_char : ℕ → Bool
node_char c = alnum c || ((c == b'.') || ((c == b'_') || ((c == b':') || (c == b'-'))))

unfoldable pub node_id : String → Bool
unfolding matches
node_id s = matches alnum node_char 127 s

unfoldable pub request_id : String → Bool
unfolding matches
request_id s = matches alnum node_char 127 s

-- `[A-Za-z0-9_.@:-]`.
abbrev pub unit_char : ℕ → Bool
unit_char c = node_char c || (c == b'@')

unfoldable pub unit_name : String → Bool
unfolding matches has_char has_dots
unit_name s =
    matches alnum unit_char 127 s && (not (has_char b'/' s || has_char 92 s) && not (has_dots s))

-- `[a-z0-9]` and `[a-z0-9-]`.
abbrev pub adapter_first : ℕ → Bool
adapter_first c = between b'a' b'z' c || between b'0' b'9' c

abbrev pub adapter_char : ℕ → Bool
adapter_char c = adapter_first c || (c == b'-')

unfoldable pub adapter_name : String → Bool
unfolding matches
adapter_name s = matches adapter_first adapter_char 31 s
