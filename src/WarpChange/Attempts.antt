-- ===== src/WarpChange/Attempts.antt =====
-- The attempts of `Run` of agent/internal/warpchange/state.go: the body of its loop step by step, and
-- the loop.
use vps_tool.Prelude.{
  ℕ, zero, suc, Bool, true, false, Option, none, some, String, str_eq, if◌then◌else◌,
}
use vps_tool.Common.{Error, plain}
use vps_tool.WarpChange.Machine.{
  warp_off, WarpSnapshot, Machine, Context, Env, context_error, Result, stage,
}
use vps_tool.WarpChange.Steps.{
  Act, pure, ◌>>=◌, on_error, current_state, step_on, step_off, with_ip, wait_for, is_on, reached,
}

abbrev pub is_off : WarpSnapshot → Bool
is_off state = str_eq state.state warp_off

-- A result with the address and the state that an attempt found.
abbrev pub Attempt : Type 0
Attempt = Result × Option Error

-- The state behind a changed address; `none` is success.
abbrev pub judge_final : Result → WarpSnapshot × Option Error → Attempt
judge_final r (final, e) =
    let r' = record r { final_state = final.state } in
    if reached is_on (final, e)
    then (
      record r' { success = true; code = "ok"; message = "WARP exit IP changed and WARP is on" },
      none,
    )
    else (r', some (stage "network_not_recovered" e))

abbrev pub no_ip : String × Option Error → Bool
no_ip (ip, none) = str_eq ip ""
no_ip (ip, some _) = true

module _ {W : Type 0} (env : Env W) (m : Machine) (fuel : ℕ) where
  unfoldable pub check_final : Context → Result → Act W Attempt
  check_final ctx r = do answer ← current_state env m ctx; pure (judge_final r answer)

  unfoldable pub judge_ip : Context → Result → String × Option Error → Act W Attempt
  judge_ip ctx r answer =
      if no_ip answer
      then pure (r, some (stage "ip_check_failed" answer.1))
      else if str_eq answer.0 r.old_ip
      then pure (
        record r { new_ip = answer.0 },
        some (stage "ip_unchanged" (some (plain "exit IP did not change"))),
      )
      else check_final ctx (record r { new_ip = answer.0 })

  unfoldable pub check_ip : Context → Result → Act W Attempt
  check_ip ctx r = do answer ← with_ip env m ctx; judge_ip ctx r answer

  -- A step that fails ends the attempt.
  abbrev pub or_stage : String → Result → Act W Attempt → Option Error → Act W Attempt
  or_stage code r = on_error (λ e. pure (r, some (stage code (some e))))

  unfoldable pub after_on : Context → Result → Act W Attempt
  after_on ctx r =
      wait_for env m is_on ctx fuel none >>= or_stage "network_not_recovered" r (check_ip ctx r)

  unfoldable pub after_off : Context → Result → Act W Attempt
  after_off ctx r = step_on env m ctx >>= or_stage "warp_start_failed" r (after_on ctx r)

  unfoldable pub await_off : Context → Result → Act W Attempt
  await_off ctx r =
      wait_for env m is_off ctx fuel none >>= or_stage "warp_stop_failed" r (after_off ctx r)

  -- The body of the loop behind the test of the context.
  unfoldable pub attempt : Context → Result → Act W Attempt
  attempt ctx r = step_off env m ctx >>= or_stage "warp_stop_failed" r (await_off ctx r)

  -- The loop: `k` attempts are left, and `n` is the number of the next one.
  unfoldable pub attempts : Context → ℕ → ℕ → Result → Option Error → Act W Attempt
  attempts ctx zero n r last s = some (s, (r, last))
  attempts ctx (suc k) n r last s = elim (context_error env ctx s.world) [
    | some e ↦ some (s, (record r { attempts = n; code = "action_timeout" }, some e))
    | none ↦ elim (attempt ctx (record r { attempts = n }) s) [
      | none ↦ none
      | some (s', (r', e)) ↦ elim r'.success [
        | true ↦ some (s', (r', e))
        | false ↦ attempts ctx k (suc n) r' e s'
      ]
    ]
  ]
