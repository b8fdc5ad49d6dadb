-- ===== src/Chars.antt =====
-- Texts character by character: the character classes and the anchored patterns
-- `^[first][rest]{0,n}$` and `^[class]{low,high}$` that the agent matches identifiers against. The
-- classes hold ASCII characters only, so that a match by characters is Go's match by bytes.
use Prim.Native.Char.{code}
use vps_tool.Prelude.{ℕ, suc, ◌≡◌, refl, Bool, true, false, ◌&&◌, ◌||◌, String, arith, leb, ◌==◌}

-- The number of characters.
unfoldable pub size : String → ℕ
size String.[] = 0
size (String.◌∷◌ c s) = suc (size s)

unfoldable pub all_chars : (ℕ → Bool) → String → Bool
all_chars p String.[] = true
all_chars p (String.◌∷◌ c s) = p (code c) && all_chars p s

unfoldable pub has_char : ℕ → String → Bool
has_char k String.[] = false
has_char k (String.◌∷◌ c s) = (code c == k) || has_char k s

unfoldable pub first_is : ℕ → String → Bool
first_is k String.[] = false
first_is k (String.◌∷◌ c s) = code c == k

-- `strings.Contains(s, "..")`.
unfoldable pub has_dots : String → Bool
unfolding first_is
has_dots String.[] = false
has_dots (String.◌∷◌ c s) = ((code c == b'.') && first_is b'.' s) || has_dots s

abbrev pub between : ℕ → ℕ → ℕ → Bool
between lo hi c = leb lo c && leb c hi

-- `[A-Za-z0-9]`.
abbrev pub alnum : ℕ → Bool
alnum c = between b'A' b'Z' c || (between b'a' b'z' c || between b'0' b'9' c)

-- `^[first][rest]{0,n}$`.
unfoldable pub matches : (ℕ → Bool) → (ℕ → Bool) → ℕ → String → Bool
matches first rest n String.[] = false
matches first rest n (String.◌∷◌ c s) = first (code c) && (all_chars rest s && leb (size s) n)

-- `^[class]{low,high}$`.
unfoldable pub matches_class : (ℕ → Bool) → ℕ → ℕ → String → Bool
matches_class class low high s = all_chars class s && between low high (size s)

-- A class that leaves a character out, with all that it matches.
pub has_char-all_chars :
    (p : ℕ → Bool) (k : ℕ) (s : String) → p k ≡ false → all_chars p s ≡ true → has_char k s ≡ false
unfolding has_char all_chars
has_char-all_chars p k String.[] n h = refl
has_char-all_chars p k (String.◌∷◌ c s) n h = ground (arith, has_char-all_chars p k s n)
