-- ===== src/Upgrade/Assets.antt =====
-- The downloads of agent/cmd/vps-agent-helper/upgrade.go: the limits, the hosts, the list of checksums
-- and the check of a file against it. The HTTP client and SHA-256 are parameters (Net); a digest is the
-- list of the values of its 64 hexadecimal digits, so that letters of either case are the same digit.
use Prim.Native.String.{◌++◌ as str_append}
use vps_tool.Prelude.{
  ℕ, zero, suc, ◌+◌, ◌-◌, ◌*◌, Bool, true, false, not, ◌||◌, Option, none, some, List, [], ◌∷◌,
  String, str_eq, ltb, leb, ◌==◌, length, ℤ, pos, ltb_ℤ, if◌then◌else◌,
}
use vps_tool.Common.{Bytes, Error, plain, wrap, Result, ok, err}
use vps_tool.Chars.{between}
use vps_tool.Texts.{codes, split, fields, same, ends_with, trim_first, lower}
use vps_tool.Upgrade.Versions.{valid_release_tag}

abbrev pub max_checksum_bytes : ℕ
max_checksum_bytes = 1024 * 1024

abbrev pub max_binary_bytes : ℕ
max_binary_bytes = 32 * 1024 * 1024

abbrev release_api_url : String
release_api_url = "https://api.github.com/repos/wangxiangg1/vps-tool/releases/latest"

abbrev release_download_url : String
release_download_url = "https://github.com/wangxiangg1/vps-tool/releases/download"

pub record Url : Type 0 where
  pub scheme : String
  pub host : String

-- An answer: its status, the announced length (negative: unknown), what can be read of its body,
-- and the error that the reading then ends with, if any.
pub record Response : Type 0 where
  pub status : ℕ
  pub content_length : ℤ
  pub body : Bytes
  pub broken : Option Error

-- A digest, by its hexadecimal digits.
abbrev pub Digest : Type 0
Digest = List ℕ

-- The HTTP client, which asks its argument before it follows a redirect (the number of requests made,
-- and where to), `json.Unmarshal` of a release, SHA-256, and the text of bytes.
pub record Net (W : Type 0) : Type 0 where
  pub send : (ℕ → Url → Option Error) → String → W → W × Result Response
  pub tag_name : Bytes → Result String
  pub sha256 : Bytes → Digest
  pub quoted : String → String

unfoldable pub allowed_release_host : String → Bool
unfolding same ends_with
allowed_release_host host =
    let h = lowered (codes host) in
    same h (codes "api.github.com")
    || (same h (codes "github.com") || ends_with h (codes ".githubusercontent.com"))
  where
    lowered : List ℕ → List ℕ
    lowered [] = []
    lowered (c ∷ s) = lower c ∷ lowered s

-- `CheckRedirect`.
unfoldable pub check_redirect : ℕ → Url → Option Error
unfolding allowed_release_host
check_redirect via url =
    if leb 8 via
    then some (plain "too many HTTP redirects")
    else if not (str_eq url.scheme "https") || not (allowed_release_host url.host)
    then some (plain "release download redirected to an untrusted host")
    else none

abbrev too_large : Error
too_large = plain "download exceeds the size limit"

abbrev take : ℕ → Bytes → Bytes
take zero xs = []
take (suc n) [] = []
take (suc n) (x ∷ xs) = x ∷ take n xs

-- `io.ReadAll(io.LimitReader(response.Body, n))`.
unfoldable pub read_limited : ℕ → Response → Result Bytes
read_limited n r = ended (leb n (length r.body)) r.broken
  where
    ended : Bool → Option Error → Result Bytes
    ended true e = ok (take n r.body)
    ended false none = ok (take n r.body)
    ended false (some e) = err e

abbrev within : ℕ → Result Bytes → Result Bytes
within limit (err e) = err e
within limit (ok bytes) = if ltb limit (length bytes) then err too_large else ok bytes

unfoldable pub accept : (ℕ → String) → ℕ → Result Response → Result Bytes
unfolding read_limited
accept status_text limit (err e) = err e
accept status_text limit (ok r) =
    if not (r.status == 200)
    then err (plain (str_append "HTTP status " (status_text r.status)))
    else if ltb_ℤ (pos limit) r.content_length
    then err too_large
    else within limit (read_limited (limit + 1) r)

-- The value of a hexadecimal digit.
abbrev hex_value : ℕ → Option ℕ
hex_value c =
    if between b'0' b'9' c
    then some (c - b'0')
    else if between b'a' b'f' c
    then some (c - b'a' + 10)
    else if between b'A' b'F' c
    then some (c - b'A' + 10)
    else none

abbrev put : Option ℕ → Option Digest → Option Digest
put none rest = none
put (some d) none = none
put (some d) (some rest) = some (d ∷ rest)

-- `hex.DecodeString`, on a text of even length.
unfoldable pub hex_digits : List ℕ → Option Digest
hex_digits [] = some []
hex_digits (c ∷ s) = put (hex_value c) (hex_digits s)

abbrev pub Checksums : Type 0
Checksums = List (List ℕ × Digest)

-- A line with two fields, of which the first is a digest.
abbrev checked : List ℕ → Option Digest → Checksums → Checksums
checked name none rest = rest
checked name (some d) rest = (name, d) ∷ rest

abbrev line_fields : List (List ℕ) → Checksums → Checksums
line_fields [] sums = sums
line_fields (a ∷ []) sums = sums
line_fields (a ∷ b ∷ []) sums =
    if length a == 64 then checked (trim_first b'*' b) (hex_digits a) sums else sums
line_fields (a ∷ b ∷ c ∷ more) sums = sums

-- The loop over the lines: a later line stands in front of an earlier one, so that it is found first.
unfoldable pub parse_lines : List (List ℕ) → Checksums → Checksums
unfolding fields hex_digits
parse_lines [] sums = sums
parse_lines (line ∷ lines) sums = parse_lines lines (line_fields (fields line) sums)

abbrev some_sums : Checksums → Result Checksums
some_sums [] = err (plain "release checksum list is invalid")
some_sums (s ∷ sums) = ok (s ∷ sums)

unfoldable pub parse_checksums : List ℕ → Result Checksums
unfolding split parse_lines
parse_checksums text = some_sums (parse_lines (split (λ c. c == 10) text) [])

unfoldable pub expected : List ℕ → Checksums → Option Digest
unfolding same
expected name [] = none
expected name ((n, d) ∷ sums) = if same n name then some d else expected name sums

module _ {W : Type 0} (net : Net W) (status_text : ℕ → String) where
  unfoldable pub download_url : String → ℕ → W → W × Result Bytes
  unfolding check_redirect
  download_url url limit w =
      let (w', answer) = net.send check_redirect url w in (w', accept status_text limit answer)

  abbrev pub tag_of : Result String → Result String
  tag_of (err e) = err (wrap "decode latest release: " e)
  tag_of (ok tag) =
      if valid_release_tag tag
      then ok tag
      else err (plain (str_append "latest release returned invalid tag " (net.quoted tag)))

  abbrev pub released : Result Bytes → Result String
  released (err e) = err (wrap "resolve latest release: " e)
  released (ok bytes) = tag_of (net.tag_name bytes)

  unfoldable pub resolve_latest_release : W → W × Result String
  resolve_latest_release w =
      let (w', bytes) = download_url release_api_url max_checksum_bytes w in (w', released bytes)

  abbrev named : String → Result Bytes → Result Bytes
  named asset (ok bytes) = ok bytes
  named asset (err e) = err (wrap (str_append "download " (str_append asset ": ")) e)

  unfoldable pub download_release_asset : String → String → ℕ → W → W × Result Bytes
  download_release_asset tag asset limit w =
      let url =
        str_append release_download_url (str_append "/" (str_append tag (str_append "/" asset))) in
      let (w', bytes) = download_url url limit w in (w', named asset bytes)

  abbrev pub verified : String → Digest → Result Bytes → Result Bytes
  verified asset sum (err e) = err e
  verified asset sum (ok bytes) =
      if same (net.sha256 bytes) sum
      then ok bytes
      else err (plain (str_append "checksum verification failed for " asset))

  abbrev pub with_expected : String → String → W → Option Digest → W × Result Bytes
  with_expected tag asset w none =
      (w, err (plain (str_append "release checksum list is missing " asset)))
  with_expected tag asset w (some sum) =
      let (w', bytes) = download_release_asset tag asset max_binary_bytes w in
      (w', verified asset sum bytes)

  unfoldable pub download_verified_asset : String → String → Checksums → W → W × Result Bytes
  unfolding expected
  download_verified_asset tag asset sums w = with_expected tag asset w (expected (codes asset) sums)
