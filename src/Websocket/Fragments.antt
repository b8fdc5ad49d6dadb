-- ===== src/Websocket/Fragments.antt =====
-- Which messages `ReadMessage` of agent/internal/wsclient/client.go reads.
use vps_tool.Prelude.{
  ◌↔◌, ◌+◌, ◌≤◌, ◌≡◌, refl, ◌∙◌, ap, sym, Bool-cases, Option-cases, ◌⊎◌, inl, inr, Bool, true,
  false, none, List, [], ◌∷◌, ◌++◌, arith, ltb, length, length-append, if◌then◌else◌,
}
use mathlib.Core.Path.{subst}
use vps_tool.Common.{Bytes, Result, ok, err}
use vps_tool.Websocket.Reading.{
  Frame, Kind, text, continuation, ending, ping, pong, unknown, kind, Outcome, message, Connection,
  append_limited, add_frame, read_message,
}

-- The frame that begins a message is a text frame, the others are continuations.
abbrev pub expected : Bool → Kind
expected false = text
expected true = continuation

-- The frames hold a message, split into parts of which the last has `fin`; pings that can be answered
-- and pongs stand anywhere between the parts.
pub data Holds (c : Connection) : Bool → List (Result Frame) → Bytes → Type 0 where
  final_part :
      (started : Bool) (f : Frame) (rest : List (Result Frame))
      → kind f.opcode ≡ expected started
      → f.fin ≡ true
      → Holds c started (ok f ∷ rest) f.payload
  part :
      (started : Bool) (f : Frame) (rest : List (Result Frame)) (more : Bytes)
      → kind f.opcode ≡ expected started
      → f.fin ≡ false
      → Holds c true rest more
      → Holds c started (ok f ∷ rest) (f.payload ++ more)
  answered :
      (started : Bool) (f : Frame) (rest : List (Result Frame)) (bytes : Bytes)
      → kind f.opcode ≡ ping
      → c.write_pong f.payload ≡ none
      → Holds c started rest bytes
      → Holds c started (ok f ∷ rest) bytes
  passed_over :
      (started : Bool) (f : Frame) (rest : List (Result Frame)) (bytes : Bytes)
      → kind f.opcode ≡ pong
      → Holds c started rest bytes
      → Holds c started (ok f ∷ rest) bytes

bytes_assoc : (xs ys zs : Bytes) → xs ++ (ys ++ zs) ≡ (xs ++ ys) ++ zs
bytes_assoc [] ys zs = refl
bytes_assoc (x ∷ xs) ys zs = ap (λ l. x ∷ l) (bytes_assoc xs ys zs)

add_frame-fits :
    (c : Connection) (f : Frame) (buffer : Bytes) (rest : Bytes → Outcome)
    → length buffer + length f.payload ≤ c.max_bytes
    → add_frame c f buffer rest
      ≡ (if f.fin then message (buffer ++ f.payload) else rest (buffer ++ f.payload))
unfolding add_frame append_limited
add_frame-fits c f buffer rest h = ground arith

read_expected :
    (c : Connection) (f : Frame) (frames : List (Result Frame)) (started : Bool) (buffer : Bytes)
    → kind f.opcode ≡ expected started
    → read_message c (ok f ∷ frames) started buffer
      ≡ add_frame c f buffer (λ b. read_message c frames true b)
unfolding read_message
read_expected c f frames true buffer k = rw (k, read_message) refl
read_expected c f frames false buffer k = rw (k, read_message) refl

read-Holds :
    (c : Connection) (frames : List (Result Frame)) (started : Bool) (buffer bytes : Bytes)
    → Holds c started frames bytes
    → length buffer + length bytes ≤ c.max_bytes
    → read_message c frames started buffer ≡ message (buffer ++ bytes)
unfolding read_message
read-Holds c _ _ buffer _ (final_part started f rest k fin) fits =
    read_expected c f rest started buffer k
    ∙ add_frame-fits c f buffer (λ b. read_message c rest true b) fits
    ∙ rw fin refl
read-Holds c _ _ buffer _ (part started f rest more k fin h) fits =
    read_expected c f rest started buffer k
    ∙ add_frame-fits c f buffer (λ b. read_message c rest true b)
        (omega (arith, fits, length-append f.payload more))
    ∙ rw fin (
        read-Holds c rest true (buffer ++ f.payload) more h
          (omega (arith, fits, length-append f.payload more, length-append buffer f.payload))
        ∙ ap message (sym (bytes_assoc buffer f.payload more)))
read-Holds c _ _ buffer _ (answered started f rest bytes k w h) fits =
    rw (k, w, read_message) (read-Holds c rest started buffer bytes h fits)
read-Holds c _ _ buffer _ (passed_over started f rest bytes k h) fits =
    rw (k, read_message) (read-Holds c rest started buffer bytes h fits)

Kind-cases :
    (k : Kind)
    → (k ≡ text)
      ⊎ ((k ≡ continuation) ⊎ ((k ≡ ending) ⊎ ((k ≡ ping) ⊎ ((k ≡ pong) ⊎ (k ≡ unknown)))))
Kind-cases text = inl refl
Kind-cases continuation = inr (inl refl)
Kind-cases ending = inr (inr (inl refl))
Kind-cases ping = inr (inr (inr (inl refl)))
Kind-cases pong = inr (inr (inr (inr (inl refl))))
Kind-cases unknown = inr (inr (inr (inr (inr refl))))

-- The bytes that a call returns, from the buffer on.
record Held (c : Connection) (started : Bool) (frames : List (Result Frame)) (buffer bytes : Bytes)
    : Type 0 where
  tail : Bytes
  whole : bytes ≡ buffer ++ tail
  holds : Holds c started frames tail
  fits : length bytes ≤ c.max_bytes

add-Held :
    (c : Connection) (started : Bool) (f : Frame) (frames : List (Result Frame))
    (buffer bytes : Bytes)
    → kind f.opcode ≡ expected started
    → ((b : Bytes) → read_message c frames true b ≡ message bytes → Held c true frames b bytes)
    → add_frame c f buffer (λ b. read_message c frames true b) ≡ message bytes
    → Held c started (ok f ∷ frames) buffer bytes
unfolding add_frame append_limited
add-Held c started f frames buffer bytes k ih e =
    elim (Bool-cases (ltb c.max_bytes (length buffer + length f.payload))) [
      | inl big ↦ cc (rw (big, add_frame, append_limited) at e)
      | inr small ↦ elim (Bool-cases f.fin) [
        | inl fin ↦
            let same : buffer ++ f.payload ≡ bytes =
              cc (rw (small, fin, add_frame, append_limited) at e) in
            record {
              tail = f.payload;
              whole = sym same;
              holds = final_part started f frames k fin;
              fits = rw (sym same) (ground (arith, small, length-append buffer f.payload));
            }
        | inr fin ↦
            let h = ih (buffer ++ f.payload) (rw (small, fin, add_frame, append_limited) at e) in
            record {
              tail = f.payload ++ h.tail;
              whole = h.whole ∙ sym (bytes_assoc buffer f.payload h.tail);
              holds = part started f frames h.tail k fin h.holds;
              fits = h.fits;
            }
      ]
    ]

text-Held :
    (c : Connection) (started : Bool) (f : Frame) (frames : List (Result Frame))
    (buffer bytes : Bytes)
    → kind f.opcode ≡ text
    → ((b : Bytes) → read_message c frames true b ≡ message bytes → Held c true frames b bytes)
    → read_message c (ok f ∷ frames) started buffer ≡ message bytes
    → Held c started (ok f ∷ frames) buffer bytes
unfolding read_message
text-Held c true f frames buffer bytes k ih e = absurd (cc (rw (k, read_message) at e))
text-Held c false f frames buffer bytes k ih e =
    add-Held c false f frames buffer bytes k ih (sym (read_expected c f frames false buffer k) ∙ e)

continuation-Held :
    (c : Connection) (started : Bool) (f : Frame) (frames : List (Result Frame))
    (buffer bytes : Bytes)
    → kind f.opcode ≡ continuation
    → ((b : Bytes) → read_message c frames true b ≡ message bytes → Held c true frames b bytes)
    → read_message c (ok f ∷ frames) started buffer ≡ message bytes
    → Held c started (ok f ∷ frames) buffer bytes
unfolding read_message
continuation-Held c false f frames buffer bytes k ih e = absurd (cc (rw (k, read_message) at e))
continuation-Held c true f frames buffer bytes k ih e =
    add-Held c true f frames buffer bytes k ih (sym (read_expected c f frames true buffer k) ∙ e)

message-Held :
    (c : Connection) (frames : List (Result Frame)) (started : Bool) (buffer bytes : Bytes)
    → read_message c frames started buffer ≡ message bytes
    → Held c started frames buffer bytes
unfolding read_message
message-Held c [] started buffer bytes e = absurd (ground arith)
message-Held c (err x ∷ frames) started buffer bytes e = absurd (ground arith)
message-Held c (ok f ∷ frames) started buffer bytes e = elim (Kind-cases (kind f.opcode)) [
  | inl k ↦
      text-Held c started f frames buffer bytes k (λ b d. message-Held c frames true b bytes d) e
  | inr (inl k) ↦
      continuation-Held c started f frames buffer bytes k
        (λ b d. message-Held c frames true b bytes d) e
  | inr (inr (inl k)) ↦ absurd (cc (rw (k, read_message) at e))
  | inr (inr (inr (inl k))) ↦ elim (Option-cases (c.write_pong f.payload)) [
    | inr (x, bad) ↦ absurd (cc (rw (k, bad, read_message) at e))
    | inl sent ↦
        let h = message-Held c frames started buffer bytes (rw (k, sent, read_message) at e) in
        record {
          tail = h.tail;
          whole = h.whole;
          holds = answered started f frames h.tail k sent h.holds;
          fits = h.fits;
        }
  ]
  | inr (inr (inr (inr (inl k)))) ↦
      let h = message-Held c frames started buffer bytes (rw (k, read_message) at e) in
      record {
        tail = h.tail;
        whole = h.whole;
        holds = passed_over started f frames h.tail k h.holds;
        fits = h.fits;
      }
  | inr (inr (inr (inr (inr k)))) ↦ absurd (cc (rw (k, read_message) at e))
]

-- A call of ReadMessage returns a message exactly if the frames that come hold it and it is within
-- the limit: its parts are put together in order, whatever answered pings and pongs stand between
-- them, and nothing longer than the limit is returned.
pub read_message_iff :
    (c : Connection) (frames : List (Result Frame)) (bytes : Bytes)
    → (read_message c frames false [] ≡ message bytes)
      ↔ (Holds c false frames bytes × (length bytes ≤ c.max_bytes))
read_message_iff c frames bytes = (
  λ e.
      let h = message-Held c frames false [] bytes e in
      (subst (λ b. Holds c false frames b) (sym h.whole) h.holds, h.fits),
  λ (h, fits). read-Holds c frames false [] bytes h (omega arith),
)
