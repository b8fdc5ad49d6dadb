-- ===== src/Manager/Waiting.antt =====
-- The waits `waitWarp` and `waitXUI` of agent/internal/warp/manager.go over the environment that the
-- change of the exit address uses too, and the states of agent/internal/model/model.go. A wait has
-- fuel, one unit for each poll; `none` is a wait whose fuel ran out.
use Prim.Native.String.{◌++◌ as str_append}
use vps_tool.Prelude.{
  ℕ, zero, suc, Bool, true, false, Option, none, some, String, str_eq, if◌then◌else◌,
}
use vps_tool.Common.{Error}
use vps_tool.WarpChange.Machine.{WarpSnapshot, Env, Context, caller}

pub record XuiSnapshot : Type 0 where
  pub state : String

-- The operations on x-ui, beside those of the environment.
pub record Xui (W : Type 0) : Type 0 where
  pub status : Context → W → W × (XuiSnapshot × Option Error)
  pub restart : Context → W → W × Option Error

abbrev cause_text : String → Option Error → String
cause_text m none = m
cause_text m (some e) = str_append m (str_append ": " e.message)

abbrev cause_validation : Option Error → Option String
cause_validation none = none
cause_validation (some e) = e.validation

abbrev cause_deadline : Option Error → Bool
cause_deadline none = false
cause_deadline (some e) = e.deadline

-- An `OperationError`.
abbrev pub operation_error : String → String → Option Error → Error
operation_error code m cause = record {
  message = cause_text m cause;
  code = some code;
  validation = cause_validation cause;
  deadline = cause_deadline cause;
}

abbrev pub newer : Option Error → Option Error → Option Error
newer none last = last
newer (some e) last = some e

-- What a wait for WARP gives when its context has ended.
abbrev pub warp_timeout : Option Error → Error → Error
warp_timeout none over =
    operation_error "action_timeout" "timed out waiting for WARP state" (some over)
warp_timeout (some e) over = e

abbrev pub warp_reached : String → WarpSnapshot × Option Error → Bool
warp_reached desired (state, none) = str_eq state.state desired
warp_reached desired (state, some _) = false

-- What a poll of x-ui settles: it is over with or without an error, or it goes on.
pub data Poll : Type 0 where
  over : Option Error → Poll
  again : Poll

abbrev pub not_found : Error
not_found = operation_error "xui_not_found" "configured x-ui unit was not found" none

abbrev pub xui_poll : String → XuiSnapshot × Option Error → Poll
xui_poll desired (state, none) =
    if str_eq state.state desired
    then over none
    else if str_eq state.state "not_found"
    then over (some not_found)
    else again
xui_poll desired (state, some e) =
    if str_eq state.state "not_found" then over (some not_found) else over (some e)

module _ {W : Type 0} (env : Env W) (interval : ℕ) where
  unfoldable pub wait_warp :
      ℕ → String → WarpSnapshot → Option Error → W → Option (W × (WarpSnapshot × Option Error))
  wait_warp zero desired last failure w = none
  wait_warp (suc fuel) desired last failure w = elim (env.caller_error w) [
    | some e ↦ some (w, (last, some (warp_timeout failure e)))
    | none ↦
        let (w1, answer) = env.warp_status caller w in
        elim (warp_reached desired answer) [
          | true ↦ some (w1, (answer.0, none))
          | false ↦
              let (w2, slept) = env.sleep caller interval w1 in
              elim slept [
                | some e ↦ some (w2, (answer.0, some e))
                | none ↦ wait_warp fuel desired answer.0 (newer answer.1 failure) w2
              ]
        ]
  ]

  unfoldable pub wait_xui :
      Xui W → ℕ → String → XuiSnapshot → W → Option (W × (XuiSnapshot × Option Error))
  wait_xui xui zero desired last w = none
  wait_xui xui (suc fuel) desired last w = elim (env.caller_error w) [
    | some e ↦ some (
      w,
      (last, some (operation_error "action_timeout" "timed out waiting for x-ui state" (some e))),
    )
    | none ↦
        let (w1, answer) = xui.status caller w in
        elim (xui_poll desired answer) [
          | over e ↦ some (w1, (answer.0, e))
          | again ↦
              let (w2, slept) = env.sleep caller interval w1 in
              elim slept [
                | some e ↦ some (w2, (answer.0, some e))
                | none ↦ wait_xui xui fuel desired answer.0 w2
              ]
        ]
  ]
