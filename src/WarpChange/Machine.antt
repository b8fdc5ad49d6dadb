-- ===== src/WarpChange/Machine.antt =====
-- The types of agent/internal/warpchange/state.go and agent/internal/model/model.go that a run of
-- the machine works on, its contexts, and the codes and messages of its results.
use Prim.Native.String.{◌++◌ as str_append}
use vps_tool.Prelude.{
  ℕ, ◌+◌, ◌-◌, ◌*◌, ◌/◌, Bool, true, false, Option, none, some, List, String, str_eq, ℤ, pos,
  negsuc, leb, if◌then◌else◌,
}
use vps_tool.Common.{Time, Error, code_or}

-- `model.WarpState` is a text; these are the values that the agent names.
abbrev pub warp_on : String
warp_on = "on"

abbrev pub warp_off : String
warp_off = "off"

abbrev pub warp_degraded : String
warp_degraded = "degraded"

pub record WarpSnapshot : Type 0 where
  pub state : String
  pub ipv4 : String
  pub ipv6 : String

pub record IpSnapshot : Type 0 where
  pub ipv4 : String
  pub ipv6 : String

-- The attempts, and the timeout in nanoseconds; 0 asks for the default.
pub record Options : Type 0 where
  pub max_attempts : ℤ
  pub timeout : ℤ

abbrev pub second : ℕ
second = 1_000_000_000

-- `DefaultMaxAttempts`, `DefaultTimeout`, `DefaultPollInterval` and `DefaultStepTimeout`.
abbrev pub default_max_attempts : ℕ
default_max_attempts = 3

abbrev pub default_timeout : ℕ
default_timeout = 180 * second

abbrev pub default_poll_interval : ℕ
default_poll_interval = second

abbrev pub default_step_timeout : ℕ
default_step_timeout = 20 * second

-- What a `Machine` holds beside its `Ops` and its `Watchdog`: whether both are there, and the two
-- durations.
pub record Machine : Type 0 where
  pub ready : Bool
  pub poll_interval : ℤ
  pub step_timeout : ℤ

abbrev positive_or : ℕ → ℤ → ℕ
positive_or d (pos n) = if leb n 0 then d else n
positive_or d (negsuc n) = d

unfoldable pub poll_interval : Machine → ℕ
poll_interval m = positive_or default_poll_interval m.poll_interval

unfoldable pub step_timeout : Machine → ℕ
step_timeout m = positive_or default_step_timeout m.step_timeout

-- A context: the background, that of the caller, or one that ends at an instant at the latest.
pub data Context : Type 0 where
  background : Context
  caller : Context
  until : Time → Context → Context

-- The environment of a run over a state `W` of the world: the clock, the end of the caller's context,
-- the `Ops`, the `Watchdog`, and the sleeping.
pub record Env (W : Type 0) : Type 0 where
  pub now : W → Time
  pub caller_error : W → Option Error
  pub warp_status : Context → W → W × (WarpSnapshot × Option Error)
  pub switch_on : Context → W → W × Option Error
  pub switch_off : Context → W → W × Option Error
  pub get_ips : Context → W → W × (IpSnapshot × Option Error)
  pub arm : Context → Time → ℤ → W → W × Option Error
  pub disarm : Context → W → W × Option Error
  pub sleep : Context → ℕ → W → W × Option Error

abbrev pub deadline_exceeded : Error
deadline_exceeded = record {
  message = "context deadline exceeded";
  code = none;
  validation = none;
  deadline = true;
}

-- `ctx.Err()`.
unfoldable pub context_error : {W : Type 0} → Env W → Context → W → Option Error
context_error env background w = none
context_error env caller w = env.caller_error w
context_error env (until d c) w =
    let outer = context_error env c w in
    elim outer [
      | some e ↦ some e
      | none ↦ if leb d (env.now w) then some deadline_exceeded else none
    ]

-- `context.WithTimeout`.
abbrev pub with_timeout : {W : Type 0} → Env W → ℕ → Context → W → Context
with_timeout env d c w = until (env.now w + d) c

-- The calls on `Ops` and `Watchdog` that a run has made, the last one first; the calls of the
-- watchdog with whether they succeeded.
pub data Call : Type 0 where
  asked_status asked_ips turned_on turned_off : Call
  armed : Bool → Call
  disarmed : Bool → Call

pub record Sys (W : Type 0) : Type 0 where
  pub world : W
  pub calls : List Call

pub record Result : Type 0 where
  pub success : Bool
  pub code : String
  pub message : String
  pub old_ip : String
  pub new_ip : String
  pub attempts : ℕ
  pub final_state : String
  pub recovery_error : String
  pub watchdog_error : String
  pub duration_ms : ℕ

-- `codeOf`, also of a nil error.
unfoldable pub code_of : Option Error → String → String
code_of none fallback = fallback
code_of (some e) fallback = code_or e.code fallback

abbrev text_or : Option Error → String → String
text_or none code = code
text_or (some e) code = e.message

abbrev late : Option Error → Bool
late none = false
late (some e) = e.deadline

abbrev inner_validation : Option Error → Option String
inner_validation none = none
inner_validation (some e) = e.validation

-- A `stageError`: its own code comes first in the chain.
abbrev pub stage : String → Option Error → Error
stage code e = record {
  message = text_or e code;
  code = some code;
  validation = inner_validation e;
  deadline = late e;
}

abbrev first_of : Option String → Option String → Option String
first_of none y = y
first_of (some x) y = some x

-- `errors.Join` of two errors.
abbrev pub join_errors : Error → Error → Error
join_errors a b = record {
  message = str_append a.message (str_append "\n" b.message);
  code = first_of a.code b.code;
  validation = first_of a.validation b.validation;
  deadline = if a.deadline then true else b.deadline;
}

-- `messageForCode`.
unfoldable pub message_for_code : String → String
message_for_code code =
    if str_eq code "precheck_failed"
    then "WARP precheck failed"
    else if str_eq code "old_ip_unavailable"
    then "old exit IP is unavailable"
    else if str_eq code "warp_stop_failed"
    then "WARP could not be stopped"
    else if str_eq code "warp_start_failed"
    then "WARP could not be started"
    else if str_eq code "network_not_recovered"
    then "network or WARP tunnel did not recover"
    else if str_eq code "ip_check_failed"
    then "exit IP check failed"
    else if str_eq code "ip_unchanged"
    then "exit IP did not change within the attempt limit"
    else if str_eq code "action_timeout"
    then "change_ip exceeded its time limit"
    else "change_ip failed"

abbrev pub default_code : Result → Option Error → String
default_code r none = r.code
default_code r (some e) =
    if str_eq r.code "unknown" then code_of (some e) "helper_failed" else r.code

-- `finish`: the defaults of code and message, and the duration.
unfoldable pub finish : Time → Time → Result → Option Error → Result
unfolding message_for_code code_of
finish started now r e =
    let code = default_code r e in
    record r {
      code = code;
      message = if str_eq r.message "" then message_for_code code else r.message;
      duration_ms = (now - started) / 1_000_000;
    }
