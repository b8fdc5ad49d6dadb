-- ===== src/Upgrade/Ordering.antt =====
-- The order of versions in agent/cmd/vps-agent-helper/upgrade.go.
use vps_tool.Prelude.{◌≡◌, ◌<◌, ◌⊎◌, ◌↔◌, arith, pos, negsuc}
use vps_tool.Upgrade.Versions.{Version, compare_release_versions}

-- A lower major number; or the same and a lower minor number; or both the same and a lower patch.
abbrev pub Older : Version → Version → Type 0
Older a b =
    (a.major < b.major)
    ⊎ ((a.major ≡ b.major) × ((a.minor < b.minor) ⊎ ((a.minor ≡ b.minor) × (a.patch < b.patch))))

-- compareReleaseVersions gives 0 exactly for equal versions, -1 exactly if the first is older, and
-- 1 exactly if the second is: older is a lower major number, or the same and a lower minor number,
-- or both the same and a lower patch number.
pub compare_release_versions_iff :
    (a b : Version)
    → ((compare_release_versions a b ≡ negsuc 0) ↔ Older a b)
      × ((compare_release_versions a b ≡ pos 0) ↔ (a ≡ b))
      × ((compare_release_versions a b ≡ pos 1) ↔ Older b a)
unfolding compare_release_versions
compare_release_versions_iff a b = ground arith
