-- ===== src/Upgrade/Versions.antt =====
-- The versions of agent/cmd/vps-agent-helper/upgrade.go: the tags of releases and their order.
use vps_tool.Prelude.{
  ℕ, ◌+◌, ◌-◌, ◌*◌, ◌^◌, Bool, true, false, Option, none, some, List, [], ◌∷◌, String, ltb, ◌==◌, ℤ,
  pos, negsuc, if◌then◌else◌,
}
use vps_tool.Common.{plain, Result, ok, err, ◌>>=◌}
use vps_tool.Chars.{between}
use vps_tool.Texts.{codes, split}

-- `[3]uint64`.
pub record Version : Type 0 where
  pub major : ℕ
  pub minor : ℕ
  pub patch : ℕ

abbrev pub zero_version : Version
zero_version = record { major = 0; minor = 0; patch = 0 }

-- The value of decimal digits behind those that `n` stands for.
unfoldable pub decimal : ℕ → List ℕ → Option ℕ
decimal n [] = some n
decimal n (c ∷ s) =
    let rest = decimal (n * 10 + (c - b'0')) s in if between b'0' b'9' c then rest else none

abbrev fitting : Option ℕ → Option ℕ
fitting none = none
fitting (some n) = if ltb n (2 ^ 32) then some n else none

-- `strconv.ParseUint(part, 10, 32)` of a text that is not empty.
unfoldable pub parse_uint32 : List ℕ → Option ℕ
unfolding decimal
parse_uint32 s = fitting (decimal 0 s)

abbrev numeric : Option ℕ → Result ℕ
numeric none = err (plain "release version component is not numeric")
numeric (some n) = ok n

unfoldable pub component : List ℕ → Result ℕ
unfolding parse_uint32
component [] = err (plain "release version component is empty")
component (c ∷ s) = numeric (parse_uint32 (c ∷ s))

abbrev three : List (List ℕ) → Result Version
three (a ∷ b ∷ c ∷ []) = component a >>= λ x.
    component b >>= λ y. component c >>= λ z. ok (record { major = x; minor = y; patch = z })
three [] = err (plain "release tag must contain three numeric components")
three (a ∷ []) = err (plain "release tag must contain three numeric components")
three (a ∷ b ∷ []) = err (plain "release tag must contain three numeric components")
three (a ∷ b ∷ c ∷ d ∷ more) = err (plain "release tag must contain three numeric components")

unfoldable pub parse_tag : List ℕ → Result Version
unfolding component split
parse_tag [] = err (plain "release tag must start with v")
parse_tag (c ∷ []) = err (plain "release tag must start with v")
parse_tag (c ∷ d ∷ s) =
    if c == b'v'
    then three (split (λ k. k == b'.') (d ∷ s))
    else err (plain "release tag must start with v")

unfoldable pub parse_release_version : String → Result Version
unfolding parse_tag
parse_release_version tag = parse_tag (codes tag)

abbrev succeeded : {A : Type 0} → Result A → Bool
succeeded (ok a) = true
succeeded (err e) = false

unfoldable pub valid_release_tag : String → Bool
unfolding parse_release_version
valid_release_tag tag = succeeded (parse_release_version tag)

-- One round of the loop, with the rounds behind it.
abbrev pub at_index : ℕ → ℕ → ℤ → ℤ
at_index a b rest = if ltb a b then negsuc 0 else if ltb b a then pos 1 else rest

unfoldable pub compare_release_versions : Version → Version → ℤ
compare_release_versions left right =
    at_index left.major right.major
      (at_index left.minor right.minor (at_index left.patch right.patch (pos 0)))
