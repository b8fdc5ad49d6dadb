-- ===== src/Helper/Calls.antt =====
-- How agent/internal/helper/helper.go runs the helper: callOutputWithTimeout and callJSONWithTimeout.
-- The running of a command and encoding/json are parameters.
use Prim.Native.String.{◌++◌ as str_append}
use vps_tool.Prelude.{
  ℕ, zero, suc, ◌*◌, Bool, ◌||◌, Option, none, some, List, [], ◌∷◌, ◌++◌, String, str_eq, ℤ, pos,
  negsuc, if◌then◌else◌,
}
use vps_tool.Common.{Bytes, Error, Result, ok, err, Decoded, eof, malformed, value, plain}
use vps_tool.WarpChange.Machine.{Context, WarpSnapshot, second}
use vps_tool.Manager.Waiting.{XuiSnapshot}
use vps_tool.Helper.Output.{LimitedBuffer, no_output, take, read_from}
use vps_tool.Helper.Executable.{
  Programs, Escalator, helper_error, validate_executable, escalator_args, find_privilege_escalator,
}

abbrev pub default_helper_timeout : ℕ
default_helper_timeout = 20 * second

abbrev pub upgrade_helper_timeout : ℕ
upgrade_helper_timeout = 150 * second

-- The simulated node of a dry run.
pub record DryRun : Type 0 where
  pub adapter_state : WarpSnapshot
  pub xui_state : XuiSnapshot
  pub ips : List String
  pub ip_index : ℕ

pub record Runner : Type 0 where
  pub path : String
  pub adapter : String
  pub unit : String
  pub state_path : String
  pub timeout : ℤ
  pub dry_run : Bool
  pub escalate : Bool
  pub dry : DryRun

pub record Command : Type 0 where
  pub path : String
  pub args : List String
  pub timeout : ℕ

-- Why `Run` failed.
pub data RunError : Type 0 where
  not_exist : Error → RunError
  failed : Error → RunError

-- A command that has ended: all that it wrote to its two outputs, the error of its context, and that of `Run`.
pub record Ended : Type 0 where
  pub out : Bytes
  pub errors : Bytes
  pub over : Option Error
  pub failure : Option RunError

-- The running of commands, `strings.TrimSpace` on bytes and the text of bytes.
pub record Exec (W : Type 0) : Type 0 where
  pub run : Context → Command → W → W × Ended
  pub trim_space : Bytes → Bytes
  pub text : Bytes → String

abbrev pub positive : ℤ → ℕ
positive (negsuc n) = default_helper_timeout
positive (pos zero) = default_helper_timeout
positive (pos (suc n)) = suc n

abbrev pub failed_call : String → Option Error → Error
failed_call m e = helper_error "helper_failed" m e

abbrev or_else : Bytes → Bytes → Bytes
or_else [] other = other
or_else (x ∷ xs) other = x ∷ xs

module _ {W : Type 0} (exec : Exec W) where
  abbrev described : Bytes → String
  described [] = "helper execution failed"
  described (x ∷ xs) =
      str_append "helper execution failed" (str_append ": " (exec.text (take 512 (x ∷ xs))))

  abbrev run_failed : LimitedBuffer → LimitedBuffer → Error → Error
  run_failed stdout stderr e =
      failed_call
        (described (or_else (exec.trim_space stderr.content) (exec.trim_space stdout.content)))
        (some e)

  -- The order of the checks behind `Run`.
  unfoldable pub judge :
      LimitedBuffer → LimitedBuffer → Option Error → Option RunError → Result Bytes
  judge stdout stderr (some e) failure = err (failed_call "helper timed out" (some e))
  judge stdout stderr none (some (not_exist e)) =
      err (helper_error "helper_not_found" "configured helper was not found" (some e))
  judge stdout stderr none (some (failed e)) = err (run_failed stdout stderr e)
  judge stdout stderr none none =
      if stdout.exceeded || stderr.exceeded
      then err (failed_call "helper output exceeded the limit" none)
      else ok stdout.content

  -- Both outputs are copied into their buffers by `ReadFrom`.
  unfoldable pub judged : Ended → Result Bytes
  unfolding judge read_from
  judged e = judge (read_from e.out no_output) (read_from e.errors no_output) e.over e.failure

  module _ (programs : Programs) where
    abbrev pub run_command : Context → Command → W → W × Result Bytes
    run_command c command w = let (w', e) = exec.run c command w in (w', judged e)

    abbrev pub escalated :
        Context → Runner → List String → ℕ → W → Result Escalator → W × Result Bytes
    escalated c r args timeout w (err e) = (w, err e)
    escalated c r args timeout w (ok e) =
        run_command c
          (record { path = e.path; args = escalator_args e r.path ++ args; timeout = timeout }) w

    abbrev pub trusted : Context → Runner → List String → ℕ → W → Option Error → W × Result Bytes
    trusted c r args timeout w (some e) = (w, err e)
    trusted c r args timeout w none =
        if r.escalate
        then escalated c r args timeout w (find_privilege_escalator programs)
        else run_command c (record { path = r.path; args = args; timeout = timeout }) w

    -- `running` is the JSON text that a dry run answers.
    unfoldable pub call_output_with_timeout :
        Bytes → Context → Runner → List String → ℤ → W → W × Result Bytes
    call_output_with_timeout running c r args timeout w =
        if r.dry_run
        then (w, ok running)
        else if str_eq r.path ""
        then (w, err (helper_error "helper_not_found" "configured helper path is empty" none))
        else trusted c r args (positive timeout) w (validate_executable programs r.path)

    unfoldable pub call_output : Bytes → Context → Runner → List String → W → W × Result Bytes
    call_output running c r args w = call_output_with_timeout running c r args r.timeout w

    abbrev pub error_of : Result Bytes → Option Error
    error_of (err e) = some e
    error_of (ok bytes) = none

    unfoldable pub call : Bytes → Context → Runner → List String → W → W × Option Error
    call running c r args w = let (w', b) = call_output running c r args w in (w', error_of b)

    abbrev trailing : {A : Type 0} → A → Decoded (Unit {0}) → Result A
    trailing a eof = ok a
    trailing a (malformed m) = err (failed_call "helper returned trailing data" none)
    trailing a (value x rest) = err (failed_call "helper returned trailing data" none)

    abbrev first_value : {A : Type 0} → (Bytes → Decoded (Unit {0})) → Decoded A → Result A
    first_value extra eof = err (failed_call "helper returned invalid JSON" (some (plain "EOF")))
    first_value extra (malformed m) =
        err (failed_call "helper returned invalid JSON" (some (plain m)))
    first_value extra (value a rest) = trailing a (extra rest)

    abbrev pub decoded :
        {A : Type 0} → (Bytes → Decoded A) → (Bytes → Decoded (Unit {0})) → Result Bytes → Result A
    decoded decode extra (err e) = err e
    decoded decode extra (ok bytes) = first_value extra (decode bytes)

    unfoldable pub call_json_with_timeout :
        {A : Type 0}
        → (Bytes → Decoded A)
        → (Bytes → Decoded (Unit {0}))
        → Bytes
        → Context
        → Runner
        → List String
        → ℤ
        → W
        → W × Result A
    call_json_with_timeout decode extra running c r args timeout w =
        let (w', b) = call_output_with_timeout running c r args timeout w in
        (w', decoded decode extra b)
