-- ===== src/Texts.antt =====
-- What the agent takes of package strings: pieces between separators, prefixes and suffixes, lower
-- case. A character is its code point.
use Prim.Native.Char.{code}
use vps_tool.Prelude.{
  ℕ, ◌+◌, Bool, true, false, ◌&&◌, ◌||◌, List, [], ◌∷◌, String, ◌==◌, if◌then◌else◌,
}
use vps_tool.Chars.{between}

abbrev pub codes : String → List ℕ
codes String.[] = []
codes (String.◌∷◌ c s) = code c ∷ codes s

-- A separator begins a new piece; any other character is put in front of the first one.
abbrev onto : Bool → ℕ → List (List ℕ) → List (List ℕ)
onto true c parts = [] ∷ parts
onto false c [] = (c ∷ []) ∷ []
onto false c (p ∷ parts) = (c ∷ p) ∷ parts

-- `strings.Split` at the characters of a class.
unfoldable pub split : (ℕ → Bool) → List ℕ → List (List ℕ)
split separates [] = [] ∷ []
split separates (c ∷ s) = onto (separates c) c (split separates s)

abbrev keep_piece : List ℕ → List (List ℕ) → List (List ℕ)
keep_piece [] parts = parts
keep_piece (c ∷ p) parts = (c ∷ p) ∷ parts

unfoldable pub nonempty : List (List ℕ) → List (List ℕ)
nonempty [] = []
nonempty (p ∷ parts) = keep_piece p (nonempty parts)

-- `unicode.IsSpace`.
abbrev pub is_space : ℕ → Bool
is_space c =
    between 9 13 c
    || ((c == 32)
        || ((c == 0x85)
            || ((c == 0xA0)
                || ((c == 0x1680)
                    || (between 0x2000 0x200A c
                        || ((c == 0x2028)
                            || ((c == 0x2029)
                                || ((c == 0x202F) || ((c == 0x205F) || (c == 0x3000))))))))))

-- `strings.Fields`.
unfoldable pub fields : List ℕ → List (List ℕ)
unfolding split nonempty
fields s = nonempty (split is_space s)

unfoldable pub same : List ℕ → List ℕ → Bool
same [] [] = true
same [] (d ∷ t) = false
same (c ∷ s) [] = false
same (c ∷ s) (d ∷ t) = (c == d) && same s t

unfoldable pub ends_with : List ℕ → List ℕ → Bool
unfolding same
ends_with [] t = same [] t
ends_with (c ∷ s) t = same (c ∷ s) t || ends_with s t

-- `strings.TrimPrefix` by one character.
abbrev pub trim_first : ℕ → List ℕ → List ℕ
trim_first k [] = []
trim_first k (c ∷ s) = if c == k then s else c ∷ s

-- Lower case where the result is ASCII: beside A-Z these are U+0130 and the Kelvin sign. All else
-- stays outside ASCII and is left as it is.
abbrev pub lower : ℕ → ℕ
lower c =
    if between b'A' b'Z' c
    then c + 32
    else if c == 0x130
    then b'i'
    else if c == 0x212A
    then b'k'
    else c

-- `strings.TrimPrefix(s, "v")`.
abbrev pub trim_v : String → String
trim_v String.[] = ""
trim_v (String.◌∷◌ c s) = if code c == b'v' then s else String.◌∷◌ c s
