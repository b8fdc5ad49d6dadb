-- ===== src/Common.antt =====
-- What every component of the agent shares: bytes, instants, error values and results, and the
-- strict JSON decoding that journal, protocol and configuration each spell out.
use Prim.Native.String.{◌++◌ as str_append}
use vps_tool.Prelude.{
  ℕ, ◌≡◌, ◌⊎◌, inl, inr, refl, Bool, false, Option, none, some, List, String, str_eq, ◌==◌,
  if◌then◌else◌,
}

abbrev pub Bytes : Type 0
Bytes = List ℕ

-- An instant, in nanoseconds after Go's zero time; 0 is the zero time itself. Instants before
-- year 1 are not represented.
abbrev pub Time : Type 0
Time = ℕ

abbrev pub is_zero : Time → Bool
is_zero t = t == 0

-- A Go error as the agent looks at it: its text, and what `errors.As` and `errors.Is` find in its
-- chain: the code of the first error that has an `ErrorCode` method, the code of the first
-- `*protocol.ValidationError`, and whether it wraps `context.DeadlineExceeded`.
pub record Error : Type 0 where
  pub message : String
  pub code : Option String
  pub validation : Option String
  pub deadline : Bool

-- `errors.New`, and `fmt.Errorf` without `%w`.
abbrev pub plain : String → Error
plain m = record { message = m; code = none; validation = none; deadline = false }

-- `fmt.Errorf("prefix%w", err)`: the text is extended, the chain stays visible.
abbrev pub wrap : String → Error → Error
wrap prefix e = record e { message = str_append prefix e.message }

-- The two values `(value, error)` that a fallible function returns, of which one counts.
pub data Result {ℓ} (A : Type ℓ) : Type ℓ where
  ok : A → Result A
  err : Error → Result A

abbrev pub map_error {ℓ} : {A : Type ℓ} → (Error → Error) → Result A → Result A
map_error f (ok a) = ok a
map_error f (err e) = err (f e)

-- The rest of a function behind `if err != nil { return err }`.
infixl 10 ◌>>=◌
abbrev pub ◌>>=◌ {ℓ} : {A B : Type ℓ} → Result A → (A → Result B) → Result B
err failure >>= rest = err failure
ok answer >>= rest = rest answer

-- A code from the chain if there is one that is not empty, else the fallback.
abbrev pub code_or : Option String → String → String
code_or none fallback = fallback
code_or (some c) fallback = if str_eq c "" then fallback else c

-- One call of `Decode` of a strict JSON decoder (`DisallowUnknownFields`): the end of the input, an
-- error with its text, or a value and the input after it.
pub data Decoded {ℓ} (A : Type ℓ) : Type ℓ where
  eof : Decoded A
  malformed : String → Decoded A
  value : A → Bytes → Decoded A

abbrev after_value {ℓ} : {A : Type ℓ} → String → A → Decoded (Unit {0}) → Result A
after_value trailing a eof = ok a
after_value trailing a (malformed m) = err (plain m)
after_value trailing a (value _ _) = err (plain trailing)

-- One value and then the end of the input: a second call of `Decode` must answer `io.EOF`.
unfoldable pub decode_strict {ℓ} :
    {A : Type ℓ} → String → (Bytes → Decoded A) → (Bytes → Decoded (Unit {0})) → Bytes → Result A
decode_strict trailing first extra bytes = elim (first bytes) [
  | eof ↦ err (plain "EOF")
  | malformed m ↦ err (plain m)
  | value a rest ↦ after_value trailing a (extra rest)
]

-- Both halves of a chain that succeeds.
pub record Chained {ℓ} {A B : Type ℓ} (m : Result A) (rest : A → Result B) (b : B) : Type ℓ where
  pub answer : A
  pub before : m ≡ ok answer
  pub after : rest answer ≡ ok b

pub bind-Chained {ℓ} :
    {A B : Type ℓ} (m : Result A) {rest : A → Result B} {b : B}
    → (m >>= rest) ≡ ok b
    → Chained m rest b
bind-Chained (err failure) e = cc
bind-Chained (ok answer) e = record { answer = answer; before = refl; after = e }

pub Result-cases {ℓ} :
    {A : Type ℓ} (r : Result A) → ((a : A) × (r ≡ ok a)) ⊎ ((e : Error) × (r ≡ err e))
Result-cases (ok a) = inl (a, refl)
Result-cases (err e) = inr (e, refl)
