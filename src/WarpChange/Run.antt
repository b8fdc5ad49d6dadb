-- ===== src/WarpChange/Run.antt =====
-- `Run` of agent/internal/warpchange/state.go, behind and before its loop: the two ways
-- in which the attempts end, what happens under the armed watchdog, and what comes before it.
use vps_tool.Prelude.{
  ℕ, ◌+◌, ◌*◌, Bool, true, false, ◌||◌, Option, none, some, String, str_eq, ℤ, pos, negsuc, ltb_ℤ,
  eq_ℤ, if◌then◌else◌,
}
use vps_tool.Common.{Time, Error, plain}
use vps_tool.WarpChange.Machine.{
  warp_on, warp_degraded, WarpSnapshot, Options, second, default_max_attempts, default_timeout,
  Machine, Context, background, caller, until, Env, Result, code_of, message_for_code, finish,
}
use vps_tool.WarpChange.Steps.{
  Act, pure, ◌>>=◌, current_state, with_ip, arm, disarm, is_on, reached, recover_on,
}
use vps_tool.WarpChange.Attempts.{Attempt, no_ip, attempts}

abbrev pub to_nat : ℤ → ℕ
to_nat (pos n) = n
to_nat (negsuc _) = 0

-- The result that `Run` begins with.
abbrev pub unfinished : Result
unfinished = record {
  success = false;
  code = "unknown";
  message = "change_ip did not complete";
  old_ip = "";
  new_ip = "";
  attempts = 0;
  final_state = "";
  recovery_error = "";
  watchdog_error = "";
  duration_ms = 0;
}

-- The defaults of options that are zero.
unfoldable pub default_options : Options → Options
default_options o = record {
  max_attempts = if eq_ℤ o.max_attempts (pos 0) then pos default_max_attempts else o.max_attempts;
  timeout = if eq_ℤ o.timeout (pos 0) then pos default_timeout else o.timeout;
}

unfoldable pub out_of_range : Options → Bool
out_of_range o =
    ltb_ℤ o.max_attempts (pos 1)
    || (ltb_ℤ (pos default_max_attempts) o.max_attempts
        || (ltb_ℤ o.timeout (pos (30 * second)) || ltb_ℤ (pos default_timeout) o.timeout))

abbrev pub found_closed : Result → Option Error → Result × (Option Error × Bool)
found_closed r none = (r, (none, false))
found_closed r (some e) = (
  record r {
    success = false;
    code = "watchdog_disarm_failed";
    message = "WARP is on, but recovery watchdog could not be canceled";
    watchdog_error = e.message;
  },
  (some e, true),
)

abbrev pub failed_closed : Result → Option Error → Option Error → Result × (Option Error × Bool)
failed_closed r last none = (r, (last, false))
failed_closed r last (some e) = (record r { watchdog_error = e.message }, (last, true))

-- The code and message after attempts that failed.
unfoldable pub with_code : Result → Option Error → Result
with_code r last =
    let code = if str_eq r.code "unknown" then code_of last "action_timeout" else r.code in
    record r { code = code; message = message_for_code code }

module _ {W : Type 0} (env : Env W) (m : Machine) (fuel : ℕ) where
  -- The end after an attempt that succeeded: the result, the error, and whether the watchdog is
  -- still armed.
  unfoldable pub close_found : Context → Result → Act W (Result × (Option Error × Bool))
  close_found ctx r = do e ← disarm env m ctx; pure (found_closed r e)

  -- The disarming after a recovery, which is left out when the recovery failed.
  unfoldable pub settle :
      Result → Option Error → Option Error → Act W (Result × (Option Error × Bool))
  settle r last (some e) = pure (record r { recovery_error = e.message }, (last, true))
  settle r last none = do e ← disarm env m background; pure (failed_closed r last e)

  unfoldable pub recover : WarpSnapshot × Option Error → Act W (WarpSnapshot × Option Error)
  recover answer = if reached is_on answer then pure (answer.0, none) else recover_on env m fuel

  -- The end after attempts none of which succeeded.
  unfoldable pub close_failed :
      Context → Result → Option Error → Act W (Result × (Option Error × Bool))
  close_failed ctx r last = do
    answer ← current_state env m ctx
    final ← recover answer
    settle (record (with_code r last) { final_state = final.0.state }) last final.1

  -- The result is made before the deferred call, which disarms a watchdog that is still armed.
  unfoldable pub conclude_run : Time → Result × (Option Error × Bool) → Act W Result
  conclude_run started (r, (e, false)) s = some (s, finish started (env.now s.world) r e)
  conclude_run started (r, (e, true)) s =
      (disarm env m background >>= λ _. pure (finish started (env.now s.world) r e)) s

  unfoldable pub close : Context → Attempt → Act W (Result × (Option Error × Bool))
  close ctx (r, last) = if r.success then close_found ctx r else close_failed ctx r last

  -- All that happens under the armed watchdog.
  unfoldable pub guarded : Context → Time → ℕ → Result → Act W Result
  guarded ctx started k r = do
    tried ← attempts env m fuel ctx k 1 r none
    closed ← close ctx tried
    conclude_run started closed

  -- A run that ends before the watchdog is armed.
  unfoldable pub stop : Time → Result → Option Error → Act W Result
  stop started r e s = some (s, finish started (env.now s.world) r e)

  unfoldable pub when_armed : Context → Time → Options → Result → Option Error → Act W Result
  when_armed ctx started o r none =
      guarded ctx started (to_nat o.max_attempts) (record r { final_state = "" })
  when_armed ctx started o r (some e) =
      stop started
        (record r {
          code = code_of (some e) "precheck_failed";
          message = "unable to arm the WARP recovery watchdog";
        })
        (some e)

  -- Behind the old address. `final_state` holds the state of the precheck for the ends that show it.
  unfoldable pub with_old_ip :
      Context → Time → Options → Result → String × Option Error → Act W Result
  with_old_ip ctx started o r answer =
      if no_ip answer
      then stop started
          (record r {
            code = code_of answer.1 "old_ip_unavailable";
            message = "unable to determine the old WARP exit IP";
          })
          answer.1
      else arm env m ctx (started + to_nat o.timeout) o.max_attempts
        >>= when_armed ctx started o (record r { old_ip = answer.0 })

  -- Behind the precheck.
  unfoldable pub with_precheck :
      Context → Time → Options → WarpSnapshot × Option Error → Act W Result
  with_precheck ctx started o (state, some e) =
      stop started
        (record unfinished {
          code = code_of (some e) "precheck_failed";
          message = "unable to read WARP state before change_ip";
        })
        (some e)
  with_precheck ctx started o (state, none) =
      if str_eq state.state warp_on || str_eq state.state warp_degraded
      then with_ip env m ctx
        >>= with_old_ip ctx started o (record unfinished { final_state = state.state })
      else stop started
          (record unfinished {
            code = "invalid_state";
            message = "change_ip requires WARP to be on or degraded";
            final_state = state.state;
          })
          none

  unfoldable pub with_options : Time → Options → Act W Result
  with_options started o =
      if out_of_range o
      then stop started
          (record unfinished {
            code = "invalid_parameters";
            message = "change_ip options are outside the allowed range";
          })
          none
      else let ctx = until (started + to_nat o.timeout) caller in
        current_state env m ctx >>= with_precheck ctx started o

  -- `Run`, under the context of the caller.
  unfoldable pub run : Options → Act W Result
  run o s =
      let started = env.now s.world in
      if m.ready
      then with_options started (default_options o) s
      else stop started unfinished (some (plain "change_ip dependencies are incomplete")) s
