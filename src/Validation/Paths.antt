-- ===== src/Validation/Paths.antt =====
-- AbsolutePath of agent/internal/validation/validation.go, with what `filepath.Clean` makes of an
-- absolute path on a system whose paths are separated by slashes.
use Prim.Native.String.{◌++◌ as str_append}
use vps_tool.Prelude.{
  ℕ, Bool, false, not, ◌||◌, Option, none, some, List, [], ◌∷◌, String, str_eq, ◌==◌, if◌then◌else◌,
}
use vps_tool.Common.{Error, plain}
use vps_tool.Chars.{first_is, has_char}
use vps_tool.Texts.{codes, split, nonempty, same}

abbrev two_dots : List ℕ
two_dots = b'.' ∷ b'.' ∷ []

abbrev without_last : List (List ℕ) → List (List ℕ)
without_last [] = []
without_last (p ∷ ps) = ps

-- The parts kept so far, the last one first: a dot is dropped, and two dots take the last part away.
unfoldable pub clean_parts : List (List ℕ) → List (List ℕ) → List (List ℕ)
unfolding same
clean_parts kept [] = kept
clean_parts kept (p ∷ ps) =
    clean_parts
      (if same p (b'.' ∷ []) then kept else if same p two_dots then without_last kept else p ∷ kept)
      ps

unfoldable pub has_two_dots : List (List ℕ) → Bool
unfolding same
has_two_dots [] = false
has_two_dots (p ∷ ps) = same p two_dots || has_two_dots ps

-- A part of the cleaned path that has two dots between backslashes.
unfoldable pub climbs : List (List ℕ) → Bool
unfolding split has_two_dots
climbs [] = false
climbs (p ∷ ps) = has_two_dots (split (λ c. c == 92) p) || climbs ps

unfoldable pub absolute_path : String → String → Option Error
unfolding climbs clean_parts nonempty split first_is has_char
absolute_path value field =
    if str_eq value "" || (not (first_is b'/' value) || (has_char 13 value || has_char 10 value))
    then some (plain (str_append field " must be an absolute local path"))
    else if climbs (clean_parts [] (nonempty (split (λ c. c == b'/') (codes value))))
    then some (plain (str_append field " must not contain parent-directory traversal"))
    else none
