-- ===== src/Helper/Executable.antt =====
-- Which programs agent/internal/helper/helper.go trusts: validateExecutable with the owner check of
-- owner_linux.go, and the choice between sudo and doas.
use Prim.Native.Nat.{bit_and}
use Prim.Native.String.{◌++◌ as str_append}
use vps_tool.Prelude.{
  ℕ, Bool, true, false, not, ◌&&◌, Option, none, some, List, [], ◌∷◌, String, ◌==◌, if◌then◌else◌,
}
use vps_tool.Common.{Error, Result, ok, err}
use vps_tool.Manager.Waiting.{operation_error}

-- What `os.Stat` tells of a file. `owner` is none where the system has no owner to tell.
pub record Info : Type 0 where
  pub regular : Bool
  pub mode : ℕ
  pub owner : Option ℕ

-- Why `os.Stat` failed.
pub data StatError : Type 0 where
  not_exist : Error → StatError
  other : Error → StatError

pub data Stat : Type 0 where
  found : Info → Stat
  unknown : StatError → Stat

-- An `Error` of the package.
abbrev pub helper_error : String → String → Option Error → Error
helper_error = operation_error

abbrev root_owned : Option ℕ → Bool
root_owned none = false
root_owned (some uid) = uid == 0

abbrev not_root_owned : String → Error
not_root_owned quoted =
    helper_error "permission_denied"
      (str_append "configured helper " (str_append quoted " is not root-owned")) none

unfoldable pub validate_owner : String → Info → Option Error
validate_owner quoted i = if root_owned i.owner then none else some (not_root_owned quoted)

abbrev or_executable : Info → Option Error → Option Error
or_executable i (some e) = some e
or_executable i none =
    if bit_and i.mode 0x49 == 0
    then some (helper_error "permission_denied" "configured helper is not executable" none)
    else none

unfoldable pub validate_info : String → Stat → Option Error
unfolding validate_owner
validate_info quoted (unknown (not_exist e)) =
    some (helper_error "helper_not_found" "configured helper was not found" (some e))
validate_info quoted (unknown (other e)) =
    some (helper_error "helper_failed" "cannot inspect configured helper" (some e))
validate_info quoted (found i) =
    if not i.regular
    then some (helper_error "helper_failed" "configured helper is not a regular file" none)
    else if not (bit_and i.mode 0x12 == 0)
    then some
        (helper_error "permission_denied" "configured helper is writable by group or others" none)
    else or_executable i (validate_owner quoted i)

-- What the package reads of the file system, and the quoting of a path.
pub record Programs : Type 0 where
  pub stat : String → Stat
  pub quoted : String → String

pub record Escalator : Type 0 where
  pub path : String
  pub doas : Bool

unfoldable pub escalator_args : Escalator → String → List String
escalator_args e helper_path =
    if e.doas then "-n" ∷ helper_path ∷ [] else "-n" ∷ "--" ∷ helper_path ∷ []

abbrev pub is_found : Stat → Bool
is_found (found i) = true
is_found (unknown e) = false

abbrev pub first_some {ℓ} : {A : Type ℓ} → Option A → Option A → Option A
first_some (some a) o = some a
first_some none o = o

abbrev pub fine : Option Error → Bool
fine none = true
fine (some e) = false

abbrev pub sudo_paths : List String
sudo_paths = "/usr/bin/sudo" ∷ "/bin/sudo" ∷ []

abbrev pub doas_paths : List String
doas_paths = "/usr/bin/doas" ∷ "/bin/doas" ∷ []

abbrev pub escalator_or_error : Option Escalator → Result Escalator
escalator_or_error (some e) = ok e
escalator_or_error none =
    err
      (helper_error "helper_not_found" "sudo or doas was not found or is not safely installed" none)

module _ (programs : Programs) where
  unfoldable pub validate_executable : String → Option Error
  unfolding validate_info
  validate_executable p = validate_info (programs.quoted p) (programs.stat p)

  unfoldable pub find_escalator : List String → Bool → Option Escalator
  find_escalator [] doas = none
  find_escalator (p ∷ ps) doas =
      let rest = find_escalator ps doas in
      if is_found (programs.stat p) && fine (validate_executable p)
      then some (record { path = p; doas = doas })
      else rest

  -- doas first, where the installer wrote a rule for it.
  unfoldable pub find_privilege_escalator : Result Escalator
  unfolding find_escalator
  find_privilege_escalator =
      let doas = find_escalator doas_paths true in
      escalator_or_error (
        first_some (if is_found (programs.stat "/etc/doas.d/vps-agent.conf") then doas else none)
          (first_some (find_escalator sudo_paths false) doas))
