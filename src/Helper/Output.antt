-- ===== src/Helper/Output.antt =====
-- `limitedBuffer` of agent/internal/helper/helper.go. It has two ways in: its own `Write`, which keeps
-- 16 KiB, and `ReadFrom` of the buffer that it embeds. os/exec copies the output of a command with
-- io.Copy, which calls `ReadFrom` where the destination has it, and `Write` only where it has not.
use vps_tool.Prelude.{
  ℕ, zero, suc, ◌-◌, ◌*◌, Bool, true, false, Option, none, some, [], ◌∷◌, ◌++◌, ltb, ◌==◌, length,
  if◌then◌else◌,
}
use vps_tool.Common.{Bytes, Error, plain}

abbrev pub max_output_bytes : ℕ
max_output_bytes = 16 * 1024

pub record LimitedBuffer : Type 0 where
  pub content : Bytes
  pub exceeded : Bool

abbrev pub no_output : LimitedBuffer
no_output = record { content = []; exceeded = false }

unfoldable pub take : ℕ → Bytes → Bytes
take zero xs = []
take (suc n) [] = []
take (suc n) (x ∷ xs) = x ∷ take n xs

abbrev output_limit : Error
output_limit = plain "output limit exceeded"

-- `Write`: how many bytes were kept, and the error.
unfoldable pub write : Bytes → LimitedBuffer → LimitedBuffer × (ℕ × Option Error)
unfolding take
write p b =
    let remaining = max_output_bytes - length b.content in
    if remaining == 0
    then (record b { exceeded = true }, (0, some output_limit))
    else if ltb remaining (length p)
    then (
      record { content = b.content ++ take remaining p; exceeded = true },
      (remaining, some output_limit),
    )
    else (record b { content = b.content ++ p }, (length p, none))

-- `ReadFrom`, which the embedded `bytes.Buffer` gives to limitedBuffer: all that is read is kept.
unfoldable pub read_from : Bytes → LimitedBuffer → LimitedBuffer
read_from p b = record b { content = b.content ++ p }
