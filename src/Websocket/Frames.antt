-- ===== src/Websocket/Frames.antt =====
-- `readFrame`, `writeFrame` and `writeAll` of agent/internal/wsclient/client.go over the bytes of the
-- stream. A byte is a number below 256; shifts and masks are `/`, `%` and `*`, and an int64 is its bit
-- pattern, a number below 2 ^ 64.
use Prim.Native.Nat.{bit_xor}
use vps_tool.Prelude.{
  ℕ, zero, suc, ◌+◌, ◌-◌, ◌*◌, ◌/◌, ◌%◌, ◌^◌, Bool, true, false, not, ◌&&◌, ◌||◌, none, some, [],
  ◌∷◌, ◌++◌, ◌==◌, ltb, leb, length, get_elem?, if◌then◌else◌,
}
use vps_tool.Common.{Bytes, Error, plain, Result, ok, err, ◌>>=◌}
use vps_tool.Websocket.Reading.{Frame}

-- A read that takes bytes off the stream.
abbrev pub Read : Type 0 → Type 0
Read A = Result (A × Bytes)

abbrev put_in_front : ℕ → Read Bytes → Read Bytes
put_in_front b (ok (bytes, rest)) = ok (b ∷ bytes, rest)
put_in_front b (err e) = err e

-- `io.ReadFull`; `e` is the error that the stream ends with.
unfoldable pub read_full : Error → ℕ → Bytes → Read Bytes
read_full e zero stream = ok ([], stream)
read_full e (suc n) [] = err e
read_full e (suc n) (b ∷ stream) = put_in_front b (read_full e n stream)

-- The loop over the eight bytes of an extended length, on int64.
unfoldable pub shift_in : ℕ → Bytes → ℕ
shift_in n [] = n
shift_in n (b ∷ bytes) = shift_in ((n * 2 ^ 8 + b) % 2 ^ 64) bytes

abbrev pub head_or_zero : Bytes → ℕ
head_or_zero [] = 0
head_or_zero (b ∷ _) = b

abbrev pub two_bytes : Bytes → ℕ
two_bytes (high ∷ low ∷ _) = high * 2 ^ 8 + low
two_bytes _ = 0

-- The length in front of the mask, from the seven bits of the second byte.
unfoldable pub read_length : Error → ℕ → Bytes → Read ℕ
read_length e short stream =
    if short == 126
    then read_full e 2 stream >>= (λ (extended, rest). ok (two_bytes extended, rest))
    else if short == 127
    then read_full e 8 stream >>= (λ (extended, rest).
      if leb 128 (head_or_zero extended)
      then err (plain "websocket frame length is invalid")
      else ok (shift_in short extended, rest))
    else ok (short, stream)

-- The test of a length against the limit; a pattern from 2 ^ 63 on is a negative number.
abbrev pub exceeds : ℕ → ℕ → Bool
exceeds limit n = leb (2 ^ 63) n || (ltb limit n || ltb (2 ^ 63 - 1) n)

-- `mask[index%4]`.
abbrev pub mask_at : Bytes → ℕ → ℕ
mask_at mask i = elim (get_elem? mask (i % 4)) [ none ↦ 0 | some m ↦ m ]

-- Both loops over a payload: each byte xor the byte of the mask at its index.
unfoldable pub apply_mask : Bytes → ℕ → Bytes → Bytes
apply_mask mask i [] = []
apply_mask mask i (b ∷ bytes) = bit_xor b (mask_at mask i) ∷ apply_mask mask (suc i) bytes

-- The mask and the payload, the payload without the mask.
unfoldable pub read_payload : Error → Bool → ℕ → Bytes → Read Bytes
read_payload e true n stream = read_full e 4 stream >>= (λ (mask, rest).
    read_full e n rest >>= (λ (payload, rest'). ok (apply_mask mask 0 payload, rest')))
read_payload e false n stream = read_full e n stream

-- `readFrame` behind the length.
unfoldable pub read_body : Error → ℕ → ℕ → ℕ → ℕ → Bytes → Read Frame
read_body e limit first second n stream =
    if exceeds limit n
    then err (plain "websocket frame exceeds limit")
    else if leb 8 (first % 16) && (not (leb 128 first) || ltb 125 n)
    then err (plain "invalid websocket control frame")
    else read_payload e (leb 128 second) n stream >>= (λ (payload, rest).
      ok (record { fin = leb 128 first; opcode = first % 16; payload = payload }, rest))

unfoldable pub read_frame : Error → ℕ → Bytes → Read Frame
read_frame e limit (first ∷ second ∷ stream) =
    read_length e (second % 128) stream >>= (λ (n, rest). read_body e limit first second n rest)
read_frame e limit _ = err e

-- The eight bytes of a length, the highest first.
abbrev pub eight_bytes : ℕ → Bytes
eight_bytes n =
    n / 2 ^ 56 % 256
    ∷ n / 2 ^ 48 % 256
    ∷ n / 2 ^ 40 % 256
    ∷ n / 2 ^ 32 % 256
    ∷ n / 2 ^ 24 % 256
    ∷ n / 2 ^ 16 % 256
    ∷ n / 2 ^ 8 % 256
    ∷ n % 256
    ∷ []

unfoldable pub length_bytes : ℕ → Bytes
length_bytes n =
    if ltb n 126
    then (128 + n % 256) ∷ []
    else if leb n 65_535
    then (128 + 126) ∷ n / 2 ^ 8 % 256 ∷ n % 256 ∷ []
    else (128 + 127) ∷ eight_bytes n

-- `writeFrame`: the header with the mask that was drawn, and the masked payload. An opcode has four
-- bits, so that `0x80 | opcode` is a sum.
unfoldable pub write_header : ℕ → Bytes → Bytes → Bytes
write_header opcode mask payload = (128 + opcode) ∷ (length_bytes (length payload) ++ mask)

unfoldable pub write_frame : ℕ → Bytes → Bytes → Bytes
write_frame opcode mask payload = write_header opcode mask payload ++ apply_mask mask 0 payload
