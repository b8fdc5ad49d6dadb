-- ===== src/Validation/Safety.antt =====
-- What the checks of agent/internal/validation/validation.go keep out.
use Prim.Native.Char.{code}
use vps_tool.Prelude.{ℕ, ◌≤◌, ◌≡◌, ◌⊎◌, refl, true, false, String, arith}
use vps_tool.Chars.{
  size, all_chars, has_char, first_is, has_dots, matches, has_char-all_chars, alnum,
}
use vps_tool.Validation.Rules.{unit_char, unit_name}

-- The characters that could turn a name into an option, a path or a second word.
abbrev pub IsHarmful : ℕ → Type 0
IsHarmful k = (k ≤ 32) ⊎ ((k ≡ b'/') ⊎ ((k ≡ 92) ⊎ (127 ≤ k)))

unit_char-harmless : (k : ℕ) → IsHarmful k → unit_char k ≡ false
unit_char-harmless k h = ground arith

alnum-unit_char : (k : ℕ) → alnum k ≡ true → unit_char k ≡ true
alnum-unit_char k h = ground arith

matches-all : (s : String) → matches alnum unit_char 127 s ≡ true → all_chars unit_char s ≡ true
unfolding matches all_chars
matches-all String.[] h = refl
matches-all (String.◌∷◌ c s) h = ground (arith, alnum-unit_char (code c))

matches-size : (s : String) → matches alnum unit_char 127 s ≡ true → size s ≤ 128
unfolding matches size
matches-size String.[] h = omega arith
matches-size (String.◌∷◌ c s) h = ground arith

matches-first : (s : String) → matches alnum unit_char 127 s ≡ true → first_is b'-' s ≡ false
unfolding matches first_is
matches-first String.[] h = refl
matches-first (String.◌∷◌ c s) h = ground arith

-- An accepted unit name has at most 128 characters, does not begin with a hyphen, does not contain
-- two dots in a row, and contains no space, no control character, no slash or backslash and
-- nothing beyond ASCII.
pub unit_name_safe :
    (s : String)
    → unit_name s ≡ true
    → (size s ≤ 128)
      × (first_is b'-' s ≡ false)
      × (has_dots s ≡ false)
      × ((k : ℕ) → IsHarmful k → has_char k s ≡ false)
unfolding unit_name
unit_name_safe s h =
    let m : matches alnum unit_char 127 s ≡ true = ground arith in
    (
      matches-size s m,
      matches-first s m,
      ground arith,
      λ k bad. has_char-all_chars unit_char k s (unit_char-harmless k bad) (matches-all s m),
    )
