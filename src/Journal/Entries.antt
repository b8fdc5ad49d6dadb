-- ===== src/Journal/Entries.antt =====
-- The in-memory half of agent/internal/journal/journal.go: entries, the index by request id,
-- `Lookup`, `Count`, `Entries` and the eviction loop `trimLocked`. The mutex makes each operation
-- atomic, so an operation is a function on the state.
use vps_tool.Prelude.{
  ℕ, suc, ◌+◌, Bool, ◌||◌, Option, none, some, List, [], ◌∷◌, String, str_eq, ◌==◌, ltb, length,
  get_elem?, ℤ, Dict, lookup, insert, if◌then◌else◌,
}
use vps_tool.Common.{Bytes, Time, Decoded}

pub record Entry : Type 0 where
  pub request_id : String
  pub action : String
  pub state : String
  pub code : String
  pub message : String
  pub result : Bytes
  pub finished_at : Time

pub record FileData : Type 0 where
  pub version : ℤ
  pub entries : List Entry

-- encoding/json at the journal's types. `none` is an encoding error. `decode_value` is the first
-- `Decode` of a strict decoder, `decode_extra` the second one, on what the first left over.
pub record Codec : Type 0 where
  pub marshal : FileData → Option Bytes
  pub marshal_indent : FileData → Option Bytes
  pub decode_value : Bytes → Decoded FileData
  pub decode_extra : Bytes → Decoded (Unit {0})

pub record Journal : Type 0 where
  pub max_entries : ℕ
  pub max_bytes : ℕ
  pub version : ℤ
  pub entries : List Entry
  pub index : Dict ℕ

unfoldable pub file_data : Journal → FileData
file_data j = record { version = j.version; entries = j.entries }

-- The test of `Open` and `Record`: a field that must be there is empty.
unfoldable pub incomplete : Entry → Bool
incomplete e =
    str_eq e.request_id ""
    || (str_eq e.action ""
        || (str_eq e.state "" || (str_eq e.message "" || (length e.result == 0))))

unfoldable pub index_from : ℕ → List Entry → Dict ℕ → Dict ℕ
index_from i [] m = m
index_from i (e ∷ es) m = index_from (suc i) es (insert e.request_id i m)

unfoldable pub rebuild_index : Journal → Journal
rebuild_index j = record j { index = index_from 0 j.entries [] }

-- What the index leads to; `out_of_range` is the run-time panic of a stale index.
pub data Found : Type 0 where
  absent : Found
  present : Entry → Found
  out_of_range : Found

abbrev pub slot : Option Entry → Found
slot none = out_of_range
slot (some e) = present e

abbrev pub at_index : List Entry → Option ℕ → Found
at_index es none = absent
at_index es (some i) = slot (get_elem? es i)

unfoldable pub find_entry : Journal → String → Found
find_entry j id = at_index j.entries (lookup id j.index)

unfoldable pub count : Journal → ℕ
count j = length j.entries

module _ (codec : Codec) where
  unfoldable pub serialized_size : Journal → ℕ
  serialized_size j = elim (codec.marshal (file_data j)) [
    | none ↦ j.max_bytes + 1
    | some bytes ↦ length bytes
  ]

  unfoldable pub over_limit : Journal → Bool
  unfolding serialized_size file_data
  over_limit j = ltb j.max_entries (length j.entries) || ltb j.max_bytes (serialized_size j)

  -- The rounds of `trimLocked` over the entries that are left; with none left the loop breaks.
  unfoldable pub trim_from : List Entry → Journal → Journal
  trim_from [] j = j
  trim_from (e ∷ es) j =
      let next = trim_from es (rebuild_index (record j { entries = es })) in
      if over_limit j then next else j

  unfoldable pub trim : Journal → Journal
  unfolding trim_from
  trim j = trim_from j.entries j
