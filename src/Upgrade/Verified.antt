-- ===== src/Upgrade/Verified.antt =====
-- What an upgrade of agent/cmd/vps-agent-helper/upgrade.go has checked before it installs anything.
use Prim.Native.String.{◌++◌ as str_append}
use vps_tool.Prelude.{
  ℕ, ◌≡◌, refl, sym, ap, ◌∙◌, true, false, Option, none, some, List, [], ◌∷◌, String, str_eq,
  ==_iff, not, ◌||◌, arith, pos, ltb_ℤ,
}
use vps_tool.Common.{Bytes, Result, ok, err}
use vps_tool.WarpChange.Verdict.{on_test}
use vps_tool.Texts.{codes, same}
use vps_tool.Upgrade.Versions.{
  Version, parse_release_version, valid_release_tag, compare_release_versions,
}
use vps_tool.Upgrade.Assets.{
  Net, Checksums, Digest, max_checksum_bytes, expected, parse_checksums, tag_of, released,
  resolve_latest_release, with_expected, verified, download_release_asset, download_verified_asset,
}
use vps_tool.Upgrade.Files.{System, Os}
use vps_tool.Upgrade.Run.{
  Host, State, Answer, Ran, parsed_or_zero, install, with_helper, with_agent, with_sums, with_list,
  with_current, with_tag, upgrade,
}

same-eq : (a b : List ℕ) → same a b ≡ true → a ≡ b
unfolding same
same-eq [] [] h = refl
same-eq [] (d ∷ t) h = cc
same-eq (c ∷ s) [] h = cc
same-eq (c ∷ s) (d ∷ t) h = ground (arith, same-eq s t, ==_iff c d)

abbrev pub agent_asset : {W : Type 0} → Host W → String
agent_asset h = str_append "vps-agent-linux-" h.goarch

abbrev pub helper_asset : {W : Type 0} → Host W → String
helper_asset h = str_append "vps-agent-helper-linux-" h.goarch

module _ {W : Type 0} (h : Host W) (net : Net W) (os : Os) where
  -- What was downloaded before the installation `x` of a tag began.
  pub record Verified (s : System) (x : Ran W) : Type 0 where
    pub tag : String
    pub current : Version
    pub list : Bytes
    pub sums : Checksums
    pub agent : Bytes
    pub helper : Bytes
    pub asked : W
    pub world : W
    pub valid : valid_release_tag tag ≡ true
    pub own : parse_release_version (str_append "v" h.version) ≡ ok current
    pub not_older :
        ltb_ℤ
          (compare_release_versions (parsed_or_zero (parse_release_version tag)) current)
          (pos 0)
        ≡ false
    pub listed :
        (download_release_asset net h.status_text tag "SHA256SUMS" max_checksum_bytes asked).1
        ≡ ok list
    pub parsed : parse_checksums (h.characters list) ≡ ok sums
    pub agent_sum : expected (codes (agent_asset h)) sums ≡ some (net.sha256 agent)
    pub helper_sum : expected (codes (helper_asset h)) sums ≡ some (net.sha256 helper)
    pub installed : x ≡ install h net os tag agent helper world s

  verified-sum :
      (asset : String) (sum : Digest) (r : Result Bytes) (bytes : Bytes)
      → verified net h.status_text asset sum r ≡ ok bytes
      → sum ≡ net.sha256 bytes
  verified-sum asset sum (err e) bytes p = cc
  verified-sum asset sum (ok b) bytes step =
      on_test (λ (r : Result Bytes). r ≡ ok bytes → sum ≡ net.sha256 bytes)
        (same (net.sha256 b) sum) _ _
        (λ good p.
          let one : b ≡ bytes = cc in sym (same-eq (net.sha256 b) sum good) ∙ ap net.sha256 one)
        (λ bad p. cc) step

  found_sum :
      (tag asset : String) (w : W) (bytes : Bytes) (o : Option Digest)
      → (with_expected net h.status_text tag asset w o).1 ≡ ok bytes
      → o ≡ some (net.sha256 bytes)
  found_sum tag asset w bytes none p = cc
  found_sum tag asset w bytes (some sum) p =
      ap (λ (d : Digest). some d) (verified-sum asset sum _ bytes p)

  listed_sum :
      (tag asset : String) (sums : Checksums) (w : W) (bytes : Bytes) (x : W × Result Bytes)
      → x ≡ download_verified_asset net h.status_text tag asset sums w
      → x.1 ≡ ok bytes
      → expected (codes asset) sums ≡ some (net.sha256 bytes)
  unfolding download_verified_asset
  listed_sum tag asset sums w bytes x e p =
      found_sum tag asset w bytes (expected (codes asset) sums)
        (ap (λ (y : W × Result Bytes). y.1) (sym e) ∙ p)

  tag_of-valid :
      (r : Result String) (tag : String)
      → tag_of net h.status_text r ≡ ok tag
      → valid_release_tag tag ≡ true
  tag_of-valid (err e) tag p = cc
  tag_of-valid (ok t) tag step =
      on_test (λ (r : Result String). r ≡ ok tag → valid_release_tag tag ≡ true)
        (valid_release_tag t) _ _
        (λ good p. let one : t ≡ tag = cc in ap valid_release_tag (sym one) ∙ good) (λ bad p. cc)
        step

  released-valid :
      (r : Result Bytes) (tag : String)
      → released net h.status_text r ≡ ok tag
      → valid_release_tag tag ≡ true
  released-valid (err e) tag p = cc
  released-valid (ok bytes) tag p = tag_of-valid (net.tag_name bytes) tag p

  resolved :
      (w : W) (tag : String)
      → (resolve_latest_release net h.status_text w).1 ≡ ok tag
      → valid_release_tag tag ≡ true
  unfolding resolve_latest_release
  resolved w tag p = released-valid _ tag p

  module _ (s : System) (a : Answer) where
    module _ (tag : String) (current : Version) (asked : W) (valid : valid_release_tag tag ≡ true)
        (own : parse_release_version (str_append "v" h.version) ≡ ok current)
        (not_older : ltb_ℤ
            (compare_release_versions (parsed_or_zero (parse_release_version tag)) current)
            (pos 0)
          ≡ false) where
      module _ (list : Bytes) (sums : Checksums)
          (listed : (download_release_asset net h.status_text tag "SHA256SUMS" max_checksum_bytes
              asked).1
            ≡ ok list)
          (parsed : parse_checksums (h.characters list) ≡ ok sums) where
        helper-Verified :
            (agent : Bytes) (w : W) (x : W × Result Bytes)
            → expected (codes (agent_asset h)) sums ≡ some (net.sha256 agent)
            → x ≡ download_verified_asset net h.status_text tag (helper_asset h) sums w
            → (with_helper h net os tag agent s x).1 ≡ ok a
            → Verified s (with_helper h net os tag agent s x)
        helper-Verified agent w (w', err e) k d p = cc
        helper-Verified agent w (w', ok helper) k d p = record {
          tag = tag;
          current = current;
          list = list;
          sums = sums;
          agent = agent;
          helper = helper;
          asked = asked;
          world = w';
          valid = valid;
          own = own;
          not_older = not_older;
          listed = listed;
          parsed = parsed;
          agent_sum = k;
          helper_sum = listed_sum tag (helper_asset h) sums w helper (w', ok helper) d refl;
          installed = refl;
        }

        agent-Verified :
            (w : W) (x : W × Result Bytes)
            → x ≡ download_verified_asset net h.status_text tag (agent_asset h) sums w
            → (with_agent h net os tag sums s x).1 ≡ ok a
            → Verified s (with_agent h net os tag sums s x)
        agent-Verified w (w', err e) d p = cc
        agent-Verified w (w', ok agent) d p =
            helper-Verified agent w' _
              (listed_sum tag (agent_asset h) sums w agent (w', ok agent) d refl) refl p

      sums-Verified :
          (list : Bytes) (w : W) (r : Result Checksums)
          → (download_release_asset net h.status_text tag "SHA256SUMS" max_checksum_bytes asked).1
            ≡ ok list
          → parse_checksums (h.characters list) ≡ r
          → (with_sums h net os tag w s r).1 ≡ ok a
          → Verified s (with_sums h net os tag w s r)
      sums-Verified list w (err e) l q p = cc
      sums-Verified list w (ok sums) l q p = agent-Verified list sums l q w _ refl p

      list-Verified :
          (x : W × Result Bytes)
          → x ≡ download_release_asset net h.status_text tag "SHA256SUMS" max_checksum_bytes asked
          → (with_list h net os tag s x).1 ≡ ok a
          → Verified s (with_list h net os tag s x)
      list-Verified (w, err e) d p = cc
      list-Verified (w, ok list) d p =
          sums-Verified list w (parse_checksums (h.characters list))
            (ap (λ (y : W × Result Bytes). y.1) (sym d)) refl p

    current-Verified :
        (tag : String) (w : W) (r : Result Version)
        → valid_release_tag tag ≡ true
        → parse_release_version (str_append "v" h.version) ≡ r
        → (with_current h net os tag w s r).1 ≡ ok a
        → Verified s (with_current h net os tag w s r)
    current-Verified tag w (err e) v q p = cc
    current-Verified tag w (ok current) v q step =
        on_test (λ (x : Ran W). x.1 ≡ ok a → Verified s x)
          (ltb_ℤ (compare_release_versions (parsed_or_zero (parse_release_version tag)) current)
            (pos 0))
          _ _ (λ older p. cc) (λ fine p. list-Verified tag current w v q fine _ refl p) step

    tag-Verified :
        (x : W × Result String)
        → ((tag : String) → x.1 ≡ ok tag → valid_release_tag tag ≡ true)
        → (with_tag h net os s x).1 ≡ ok a
        → Verified s (with_tag h net os s x)
    tag-Verified (w, err e) v p = cc
    tag-Verified (w, ok tag) v p =
        current-Verified tag w (parse_release_version (str_append "v" h.version)) (v tag refl) refl
          p

  -- An upgrade that gets as far as its answer is the installation of two binaries of one release,
  -- whose tag is valid and whose version is not older than the installed one, and each binary has
  -- the digest that the list of checksums of that release gives for it.
  pub upgrade-Verified :
      (s : State W) (a : Answer)
      → (upgrade h net os s).1 ≡ ok a
      → Verified s.system (upgrade h net os s)
  unfolding upgrade
  upgrade-Verified s a step =
      on_test (λ (x : Ran W). x.1 ≡ ok a → Verified s.system x) (not (str_eq h.goos "linux")) _ _
        (λ other p. cc)
        (λ linux.
          on_test (λ (x : Ran W). x.1 ≡ ok a → Verified s.system x)
            (not (str_eq h.goarch "amd64" || str_eq h.goarch "arm64")) _ _ (λ other p. cc)
            (λ known p.
              tag-Verified s.system a (resolve_latest_release net h.status_text s.world)
                (resolved s.world) p))
        step
