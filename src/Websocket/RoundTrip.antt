-- ===== src/Websocket/RoundTrip.antt =====
-- A frame written by agent/internal/wsclient/client.go and read again.
use vps_tool.Prelude.{
  ℕ, suc, ◌+◌, ◌*◌, ◌/◌, ◌%◌, ◌^◌, ◌≤◌, ◌<◌, ◌≡◌, refl, sym, ap, Bool-cases, ◌⊎◌, inl, inr, true,
  false, not, ◌&&◌, ◌||◌, [], ◌∷◌, ◌++◌, ltb, leb, length, arith, xor_twice,
}
use mathlib.Core.List.{append_assoc}
use vps_tool.Common.{Bytes, Error, ok}
use vps_tool.Websocket.Frames.{
  read_full, shift_in, read_length, exceeds, apply_mask, read_payload, read_body, read_frame,
  eight_bytes, length_bytes, write_header, write_frame,
}

pub read_full-append :
    (e : Error) (xs rest : Bytes) → read_full e (length xs) (xs ++ rest) ≡ ok (xs, rest)
unfolding read_full
read_full-append e [] rest = refl
read_full-append e (x ∷ xs) rest = rw (read_full-append e xs rest) refl

read_full-written :
    (e : Error) (n : ℕ) (xs rest : Bytes)
    → length xs ≡ n
    → read_full e n (xs ++ rest) ≡ ok (xs, rest)
read_full-written e n xs rest h = rw (sym h) (read_full-append e xs rest)

pub length-apply_mask :
    (mask : Bytes) (i : ℕ) (xs : Bytes) → length (apply_mask mask i xs) ≡ length xs
unfolding apply_mask
length-apply_mask mask i [] = refl
length-apply_mask mask i (x ∷ xs) = ap suc (length-apply_mask mask (suc i) xs)

pub apply_mask_twice :
    (mask : Bytes) (i : ℕ) (xs : Bytes) → apply_mask mask i (apply_mask mask i xs) ≡ xs
unfolding apply_mask
apply_mask_twice mask i [] = refl
apply_mask_twice mask i (x ∷ xs) = rw (xor_twice, apply_mask_twice mask (suc i) xs) refl

abbrev step64 : ℕ → ℕ → ℕ
step64 v b = (v * 2 ^ 8 + b) % 2 ^ 64

-- A byte is shifted in behind the higher bytes `h` of a number, where all fit into 64 bits.
step64_next :
    (v h l : ℕ) → l / 2 ^ 8 ≡ h → v + h < 2 ^ 56 → step64 (v + h) (l % 256) ≡ v * 2 ^ 8 + l
step64_next v h l e fits = omega arith

-- The seven bits that the loop begins with are shifted out by the eight bytes.
shift_in-eight_bytes : (n : ℕ) → n < 2 ^ 63 → shift_in 127 (eight_bytes n) ≡ n
unfolding shift_in
shift_in-eight_bytes n h =
    rw
      (
        step64_next 127 0 (n / 2 ^ 56) (omega arith) (omega arith),
        step64_next (127 * 2 ^ 8) (n / 2 ^ 56) (n / 2 ^ 48) (omega arith) (omega arith),
        step64_next (127 * 2 ^ 16) (n / 2 ^ 48) (n / 2 ^ 40) (omega arith) (omega arith),
        step64_next (127 * 2 ^ 24) (n / 2 ^ 40) (n / 2 ^ 32) (omega arith) (omega arith),
        step64_next (127 * 2 ^ 32) (n / 2 ^ 32) (n / 2 ^ 24) (omega arith) (omega arith),
        step64_next (127 * 2 ^ 40) (n / 2 ^ 24) (n / 2 ^ 16) (omega arith) (omega arith),
        step64_next (127 * 2 ^ 48) (n / 2 ^ 16) (n / 2 ^ 8) (omega arith) (omega arith),
      )
      (omega arith)

short_length :
    (e : Error) (k n : ℕ) (rest : Bytes) → k ≡ n → n < 126 → read_length e k rest ≡ ok (n, rest)
unfolding read_length
short_length e k n rest same h = ground arith

two_byte_length :
    (e : Error) (n : ℕ) (rest : Bytes)
    → n ≤ 65_535
    → read_length e 126 (n / 2 ^ 8 % 256 ∷ n % 256 ∷ rest) ≡ ok (n, rest)
unfolding read_length read_full
two_byte_length e n rest h =
    let same : n / 2 ^ 8 % 256 * 2 ^ 8 + n % 256 ≡ n = omega arith in
    ap (λ (k : ℕ). ok (k, rest)) same

eight_byte_length :
    (e : Error) (n : ℕ) (rest : Bytes)
    → n < 2 ^ 63
    → read_length e 127 (eight_bytes n ++ rest) ≡ ok (n, rest)
unfolding read_length read_full
eight_byte_length e n rest h =
    let low : leb 128 (n / 2 ^ 56 % 256) ≡ false = ground arith in
    rw (low, shift_in-eight_bytes n h) refl

-- The bytes of a length are read as the length, whatever follows them.
read_length-written :
    (e : Error) (n : ℕ) (rest : Bytes)
    → n < 2 ^ 63
    → (second : ℕ) × (more : Bytes) × (length_bytes n ≡ second ∷ more)
      × (128 ≤ second)
      × (second < 256)
      × (read_length e (second % 128) (more ++ rest) ≡ ok (n, rest))
unfolding length_bytes read_length
read_length-written e n rest h = elim (Bool-cases (ltb n 126)) [
  | inl small ↦ (
    128 + n % 256,
    [],
    rw small refl,
    omega arith,
    ground (arith, small),
    short_length e ((128 + n % 256) % 128) n rest (ground (arith, small)) (ground (arith, small)),
  )
  | inr large ↦ elim (Bool-cases (leb n 65_535)) [
    | inl two ↦ (
      254,
      n / 2 ^ 8 % 256 ∷ n % 256 ∷ [],
      rw (large, two) refl,
      omega arith,
      omega arith,
      two_byte_length e n rest (ground (arith, two)),
    )
    | inr eight ↦ (
      255,
      eight_bytes n,
      rw (large, eight) refl,
      omega arith,
      omega arith,
      eight_byte_length e n rest h,
    )
  ]
]

module _ (e : Error) (limit opcode : ℕ) (mask payload rest : Bytes) (four : length mask ≡ 4)
    (small : opcode < 16) (fits : length payload ≤ limit) (bounded : limit < 2 ^ 63)
    (short : (opcode < 8) ⊎ (length payload ≤ 125)) where
  payload-written :
      read_payload e true (length payload) (mask ++ (apply_mask mask 0 payload ++ rest))
      ≡ ok (payload, rest)
  unfolding read_payload
  payload-written =
      rw
        (
          read_full-written e 4 mask (apply_mask mask 0 payload ++ rest) four,
          read_full-written e (length payload) (apply_mask mask 0 payload) rest
              (length-apply_mask mask 0 payload),
          apply_mask_twice mask 0 payload,
        )
        refl

  body-written :
      (second : ℕ)
      → 128 ≤ second
      → read_body e limit
          (128 + opcode)
          second
          (length payload)
          (mask ++ (apply_mask mask 0 payload ++ rest))
        ≡ ok (record { fin = true; opcode = opcode; payload = payload }, rest)
  unfolding read_body
  body-written second h =
      let within : exceeds limit (length payload) ≡ false = ground (arith, fits, bounded) in
      let allowed : (leb 8 ((128 + opcode) % 16)
            && (not (leb 128 (128 + opcode)) || ltb 125 (length payload)))
          ≡ false =
        ground (arith, small, short) in
      let masked : leb 128 second ≡ true = ground (arith, h) in
      let final : leb 128 (128 + opcode) ≡ true = ground arith in
      let low : (128 + opcode) % 16 ≡ opcode = omega arith in
      rw (within, allowed, masked, payload-written, final, low) refl

  -- readFrame gives back the frame that writeFrame wrote, and leaves what follows it: for every
  -- payload within the limit, the limit being below 2^63, every opcode below 16, every mask of
  -- four bytes, where a control frame has at most 125 bytes of payload.
  pub read_frame-write_frame :
      read_frame e limit (write_frame opcode mask payload ++ rest)
      ≡ ok (record { fin = true; opcode = opcode; payload = payload }, rest)
  unfolding read_frame write_frame write_header
  read_frame-write_frame =
      let (second, more, bytes, high, byte, read) =
        read_length-written e (length payload) (mask ++ (apply_mask mask 0 payload ++ rest))
          (omega arith) in
      rw
        (
          bytes,
          append_assoc more mask (apply_mask mask 0 payload),
          append_assoc more (mask ++ apply_mask mask 0 payload) rest,
          append_assoc mask (apply_mask mask 0 payload) rest,
          read,
        )
        (body-written second high)
