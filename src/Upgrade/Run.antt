-- ===== src/Upgrade/Run.antt =====
-- The method `upgrade` of agent/cmd/vps-agent-helper/upgrade.go, from the resolution of the release to
-- the clean-up that it defers.
use Prim.Native.String.{◌++◌ as str_append}
use vps_tool.Prelude.{
  ℕ, Bool, true, false, not, ◌||◌, Option, none, some, List, [], ◌∷◌, String, str_eq, ltb_ℤ, pos,
  if◌then◌else◌,
}
use vps_tool.Common.{Bytes, Error, plain, wrap, Result, ok, err}
use vps_tool.Texts.{trim_v}
use vps_tool.Upgrade.Versions.{
  Version, zero_version, parse_release_version, compare_release_versions,
}
use vps_tool.Upgrade.Assets.{
  Net, Checksums, max_checksum_bytes, parse_checksums, resolve_latest_release,
  download_release_asset, download_verified_asset,
}
use vps_tool.Upgrade.Files.{System, Os}
use vps_tool.Upgrade.Binaries.{Update, Step, prepare, commit, roll_back, cleanup}

-- The machine that the helper was built for, its own version and paths, and the calls of the system.
pub record Host (W : Type 0) : Type 0 where
  pub goos : String
  pub goarch : String
  pub version : String
  pub agent_path : String
  pub helper_path : String
  pub dir_of : String → String
  pub quoted : String → String
  pub status_text : ℕ → String
  -- The bytes of a list of checksums, as characters.
  pub characters : Bytes → List ℕ
  -- `scheduleUpgradeRestart`: the start of the command, and its release.
  pub start : W → W × Option Error
  pub release : W → W × Option Error

pub record State (W : Type 0) : Type 0 where
  pub world : W
  pub system : System

-- What `upgrade` hands to writeJSON as its last act. That an answer is written is not followed here.
pub record Answer : Type 0 where
  pub version : String
  pub changed : Bool
  pub restart_scheduled : Bool

abbrev pub Ran : Type 0 → Type 0
Ran W = State W × Result Answer

abbrev pub any_changed : List Update → Bool
any_changed [] = false
any_changed (u ∷ us) = u.changed || any_changed us

abbrev pub parsed_or_zero : Result Version → Version
parsed_or_zero (ok v) = v
parsed_or_zero (err e) = zero_version

module _ {W : Type 0} (h : Host W) (net : Net W) (os : Os) where
  abbrev released : W × Option Error → W × Option Error
  released (w, some e) = (w, some e)
  released (w, none) = h.release w

  unfoldable pub schedule_restart : W → W × Option Error
  schedule_restart w = released (h.start w)

  abbrev pub scheduled : String → List Update → System → W × Option Error → Ran W
  scheduled tag us s (w, none) = (
    record { world = w; system = s },
    ok (record { version = trim_v tag; changed = true; restart_scheduled = true }),
  )
  scheduled tag us s (w, some e) =
      (record { world = w; system = roll_back os us s }, err (wrap "schedule Agent restart: " e))

  abbrev pub committed : String → List Update → W → Step → Ran W
  committed tag us w (s, some e) = (record { world = w; system = s }, err e)
  committed tag us w (s, none) = scheduled tag us s (schedule_restart w)

  -- From the staged binaries on, without the deferred clean-up.
  unfoldable pub replace_binaries : String → List Update → W → System → Ran W
  replace_binaries tag us w s = if any_changed us then committed tag us w (commit os us s) else (
    record { world = w; system = s },
    ok (record { version = trim_v tag; changed = false; restart_scheduled = false }),
  )

  abbrev pub cleaned : List Update → Ran W → Ran W
  cleaned us (s, r) = (record s { system = cleanup os us s.system }, r)

  abbrev second : String → Update → W → System × Result Update → Ran W
  second tag u w (s, err e) = (record { world = w; system = cleanup os (u ∷ []) s }, err e)
  second tag u w (s, ok v) = cleaned (u ∷ v ∷ []) (replace_binaries tag (u ∷ v ∷ []) w s)

  abbrev first : String → Bytes → W → System × Result Update → Ran W
  first tag helper w (s, err e) = (record { world = w; system = s }, err e)
  first tag helper w (s, ok u) =
      second tag u w (prepare os net.sha256 h.dir_of h.helper_path helper s)

  -- The loop that prepares the two binaries, and what follows.
  unfoldable pub install : String → Bytes → Bytes → W → System → Ran W
  install tag agent helper w s =
      first tag helper w (prepare os net.sha256 h.dir_of h.agent_path agent s)

  abbrev pub with_helper : String → Bytes → System → W × Result Bytes → Ran W
  with_helper tag agent s (w, err e) = (record { world = w; system = s }, err e)
  with_helper tag agent s (w, ok helper) = install tag agent helper w s

  abbrev pub with_agent : String → Checksums → System → W × Result Bytes → Ran W
  with_agent tag sums s (w, err e) = (record { world = w; system = s }, err e)
  with_agent tag sums s (w, ok agent) = with_helper tag agent s (
      download_verified_asset net h.status_text tag (str_append "vps-agent-helper-linux-" h.goarch)
        sums w)

  abbrev pub with_sums : String → W → System → Result Checksums → Ran W
  with_sums tag w s (err e) = (record { world = w; system = s }, err e)
  with_sums tag w s (ok sums) = with_agent tag sums s (
      download_verified_asset net h.status_text tag (str_append "vps-agent-linux-" h.goarch) sums w)

  abbrev pub with_list : String → System → W × Result Bytes → Ran W
  with_list tag s (w, err e) = (record { world = w; system = s }, err e)
  with_list tag s (w, ok bytes) = with_sums tag w s (parse_checksums (h.characters bytes))

  abbrev pub with_current : String → W → System → Result Version → Ran W
  with_current tag w s (err e) = (
    record { world = w; system = s },
    err (plain (str_append "installed helper has invalid version " (h.quoted h.version))),
  )
  with_current tag w s (ok current) =
      if ltb_ℤ (compare_release_versions (parsed_or_zero (parse_release_version tag)) current)
        (pos 0)
      then (
        record { world = w; system = s },
        err (
            plain (
              str_append "latest release "
                (str_append tag (str_append " is older than installed version v" h.version)))),
      )
      else with_list tag s
          (download_release_asset net h.status_text tag "SHA256SUMS" max_checksum_bytes w)

  abbrev pub with_tag : System → W × Result String → Ran W
  with_tag s (w, err e) = (record { world = w; system = s }, err e)
  with_tag s (w, ok tag) = with_current tag w s (parse_release_version (str_append "v" h.version))

  unfoldable pub upgrade : State W → Ran W
  upgrade s =
      if not (str_eq h.goos "linux")
      then (s, err (plain "Agent upgrades are only supported on Linux"))
      else if not (str_eq h.goarch "amd64" || str_eq h.goarch "arm64")
      then (s, err (plain (str_append "unsupported Agent architecture " (h.quoted h.goarch))))
      else with_tag s.system (resolve_latest_release net h.status_text s.world)
