-- ===== src/Tests/UpgradeRuns.antt =====
-- An upgrade of two binaries from version 1.2.3 to 1.3.0, and a commit in which a rename fails.
use vps_tool.Prelude.{
  ℕ, ◌≡◌, ◌≢◌, refl, true, false, none, some, List, [], ◌∷◌, ◌++◌, ◌+◌, String, str_eq, eq_iff,
  ◌==◌, arith, pos, negsuc, if◌then◌else◌, All,
}
use mathlib.Core.Logic.{◌↔◌}
use vps_tool.Common.{Bytes, plain, ok}
use vps_tool.Texts.{codes, split, nonempty, fields, same}
use vps_tool.Upgrade.Versions.{
  Version, decimal, parse_uint32, component, parse_tag, parse_release_version, valid_release_tag,
  compare_release_versions,
}
use vps_tool.Upgrade.Ordering.{Older, compare_release_versions_iff}
use vps_tool.Upgrade.Assets.{
  Net, Digest, Response, read_limited, accept, hex_digits, parse_lines, parse_checksums, expected,
  download_url, resolve_latest_release, download_release_asset, download_verified_asset,
}
use vps_tool.Upgrade.Files.{File, Files, System, Os, put_file, stat, remove, link, rename}
use vps_tool.Upgrade.Binaries.{
  Update, back_up, back_up_all, roll_back, activate, activate_all, commit, cleanup, fill, stage,
  prepare,
}
use vps_tool.Upgrade.Paths.{Apart}
use vps_tool.Upgrade.Rollback.{Staged}
use vps_tool.Upgrade.Commit.{Committed, commit-Committed}
use vps_tool.Upgrade.Run.{Host, State, Answer, schedule_restart, replace_binaries, install, upgrade}
use vps_tool.Upgrade.Replaced.{Ends, replace_binaries-Ends}
use vps_tool.Upgrade.Verified.{Verified, upgrade-Verified}

abbrev version_of : ℕ → ℕ → ℕ → Version
version_of a b c = record { major = a; minor = b; patch = c }

tag_run : parse_release_version "v1.20.3" ≡ ok (version_of 1 20 3)
unfolding parse_release_version parse_tag component parse_uint32 decimal split
tag_run = refl

binary : ℕ → Bytes → File
binary n b = record { node = n; regular = true; trusted = true; mode = 0x1ED; content = b }

abbrev agent_update : Update
agent_update = record {
  target = "/bin/a";
  temp = "/bin/.a1";
  backup = "/bin/a.previous";
  changed = true;
}

abbrev helper_update : Update
helper_update = record {
  target = "/bin/h";
  temp = "/bin/.h1";
  backup = "/bin/h.previous";
  changed = true;
}

abbrev both : List Update
both = agent_update ∷ helper_update ∷ []

abbrev staged_files : Files
staged_files p =
    if str_eq p "/bin/a"
    then some (binary 1 (0 ∷ []))
    else if str_eq p "/bin/h"
    then some (binary 2 (0 ∷ []))
    else if str_eq p "/bin/.a1"
    then some (binary 3 (1 ∷ []))
    else if str_eq p "/bin/.h1"
    then some (binary 4 (1 ∷ []))
    else none

abbrev staged_system : System
staged_system = record { files = staged_files; calls = 0 }

-- The sixth call, the second rename, fails.
abbrev failing : Os
failing = record {
  outcome = λ n. if n == 5 then some (plain "input/output error") else none;
  text = λ f. plain "failed";
  temp_name = λ n d. "/bin/.t";
  new_node = λ n. 100;
  partial = λ n b. [];
}

differ : {s t : String} → str_eq s t ≡ false → s ≢ t
differ {s} {t} h e = let equal : str_eq s t ≡ true = (eq_iff s t).1 e in absurd (cc)

both-Apart : Apart both
both-Apart = (
  (differ refl, differ refl, differ refl),
  (
    (
      (differ refl, differ refl, differ refl),
      (differ refl, differ refl, differ refl),
      (differ refl, differ refl, differ refl),
    ),
    tt,
  ),
  ((differ refl, differ refl, differ refl), tt, tt),
)

both-Staged : All (Staged staged_files) both
unfolding binary
both-Staged = (
  λ c. (binary 1 (0 ∷ []), binary 3 (1 ∷ []), refl, refl, omega arith),
  (λ c. (binary 2 (0 ∷ []), binary 4 (1 ∷ []), refl, refl, omega arith), tt),
)

commit-Committed_example : Committed failing staged_files both (commit failing both staged_system)
commit-Committed_example = commit-Committed failing both staged_system both-Apart both-Staged

compare_release_versions_iff_example :
    ((compare_release_versions (version_of 1 2 3) (version_of 1 10 0) ≡ negsuc 0)
      ↔ Older (version_of 1 2 3) (version_of 1 10 0))
    × ((compare_release_versions (version_of 1 2 3) (version_of 1 10 0) ≡ pos 0)
        ↔ (version_of 1 2 3 ≡ version_of 1 10 0))
    × ((compare_release_versions (version_of 1 2 3) (version_of 1 10 0) ≡ pos 1)
        ↔ Older (version_of 1 10 0) (version_of 1 2 3))
compare_release_versions_iff_example =
    compare_release_versions_iff (version_of 1 2 3) (version_of 1 10 0)

abbrev ones : String
ones = "1111111111111111111111111111111111111111111111111111111111111111"

abbrev list_bytes : Bytes
list_bytes =
    codes ones
    ++ (codes "  vps-agent-linux-amd64"
        ++ (10 ∷ (codes ones ++ codes " *vps-agent-helper-linux-amd64")))

abbrev repeated : ℕ → List ℕ → Digest
repeated d [] = []
repeated d (x ∷ xs) = d ∷ repeated d xs

abbrev first_of : Bytes → ℕ
first_of [] = 0
first_of (x ∷ xs) = x

abbrev answer_with : Bytes → Response
answer_with b = record { status = 200; content_length = negsuc 0; body = b; broken = none }

abbrev toy_net : Net ℕ
toy_net = record {
  send = λ check url w. (
    w,
    ok (
        answer_with (
          if str_eq url
            "https://github.com/wangxiangg1/vps-tool/releases/download/v1.3.0/SHA256SUMS"
          then list_bytes
          else 1 ∷ [])),
  );
  tag_name = λ b. ok "v1.3.0";
  sha256 = λ b. repeated (first_of b) (codes ones);
  quoted = λ s. s;
}

abbrev toy_host : Host ℕ
toy_host = record {
  goos = "linux";
  goarch = "amd64";
  version = "1.2.3";
  agent_path = "/bin/a";
  helper_path = "/bin/h";
  dir_of = λ p. "/bin";
  quoted = λ s. s;
  status_text = λ n. "";
  characters = λ b. b;
  start = λ w. (w, none);
  release = λ w. (w, none);
}

abbrev working : Os
working = record {
  outcome = λ n. none;
  text = λ f. plain "failed";
  temp_name = λ n d. if n == 2 then "/bin/.a2" else "/bin/.h2";
  new_node = λ n. 100 + n;
  partial = λ n b. [];
}

abbrev installed_files : Files
installed_files p =
    if str_eq p "/bin/a"
    then some (binary 1 (0 ∷ []))
    else if str_eq p "/bin/h"
    then some (binary 2 (0 ∷ []))
    else none

abbrev installed_state : State ℕ
installed_state = record { world = 0; system = record { files = installed_files; calls = 0 } }

abbrev new_version : Answer
new_version = record { version = "1.3.0"; changed = true; restart_scheduled = true }

upgraded : (upgrade toy_host toy_net working installed_state).1 ≡ ok new_version
unfolding upgrade resolve_latest_release download_url accept read_limited valid_release_tag
    parse_release_version parse_tag component parse_uint32 decimal split compare_release_versions
    download_release_asset download_verified_asset parse_checksums parse_lines fields nonempty
    hex_digits expected same install prepare stat stage fill replace_binaries commit back_up_all
    back_up remove link activate_all activate rename roll_back cleanup schedule_restart put_file
    binary
upgraded = refl

upgrade-Verified_example :
    Verified toy_host toy_net working installed_state.system
      (upgrade toy_host toy_net working installed_state)
upgrade-Verified_example =
    upgrade-Verified toy_host toy_net working installed_state new_version upgraded

replace_binaries-Ends_example :
    Ends failing
      (commit failing both staged_system).0.calls
      staged_files
      both
      (replace_binaries toy_host toy_net failing "v1.3.0" both 0 staged_system)
replace_binaries-Ends_example =
    replace_binaries-Ends toy_host toy_net failing "v1.3.0" both staged_system both-Apart
      both-Staged 0
