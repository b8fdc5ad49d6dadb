-- ===== src/Tests/WarpRuns.antt =====
-- The change of the exit address over a toy node: each call takes one nanosecond, and the address is
-- another one as soon as WARP was turned on.
use vps_tool.Prelude.{
  ℕ, suc, ◌+◌, ◌≤◌, ◌≡◌, refl, Bool, true, false, none, some, [], arith, pos, if◌then◌else◌,
}
use vps_tool.WarpChange.Machine.{
  Options, Machine, Env, Sys, Result, default_timeout, step_timeout, poll_interval, context_error,
  finish,
}
use vps_tool.WarpChange.Steps.{
  current_state, step_on, step_off, with_ip, arm, disarm, sleep, after_poll, poll, wait_for,
}
use vps_tool.WarpChange.Attempts.{
  check_final, judge_ip, check_ip, after_on, after_off, await_off, attempt, attempts,
}
use vps_tool.WarpChange.Run.{
  default_options, out_of_range, close_found, conclude_run, close, guarded, stop, when_armed,
  with_old_ip, with_precheck, with_options, run,
}
use vps_tool.WarpChange.Fuel.{Ticks}
use vps_tool.WarpChange.Ordering.{Ran, run-Ran}
use vps_tool.WarpChange.Termination.{run_returns}

pub record Toy : Type 0 where
  pub time : ℕ
  pub is_on : Bool
  pub renewed : Bool

abbrev tick : Toy → Toy
tick w = record w { time = w.time + 1 }

abbrev pub toy_env : Env Toy
toy_env = record {
  now = λ w. w.time;
  caller_error = λ w. none;
  warp_status = λ c w.
      (tick w, (record { state = if w.is_on then "on" else "off"; ipv4 = ""; ipv6 = "" }, none));
  switch_on = λ c w. (record { time = w.time + 1; is_on = true; renewed = true }, none);
  switch_off = λ c w. (record { time = w.time + 1; is_on = false; renewed = w.renewed }, none);
  get_ips = λ c w.
      (tick w, (record { ipv4 = if w.renewed then "192.0.2.2" else "192.0.2.1"; ipv6 = "" }, none));
  arm = λ c t n w. (tick w, none);
  disarm = λ c w. (tick w, none);
  sleep = λ c d w. (tick w, none);
}

abbrev machine : Machine
machine = record { ready = true; poll_interval = pos 0; step_timeout = pos 0 }

abbrev no_options : Options
no_options = record { max_attempts = pos 0; timeout = pos 0 }

abbrev before : Sys Toy
before = record { world = record { time = 1000; is_on = true; renewed = false }; calls = [] }

changing_run : (x : Sys Toy × Result) × (run toy_env machine 2 no_options before ≡ some x)
unfolding run with_options default_options out_of_range current_state with_precheck with_ip
    with_old_ip arm when_armed guarded attempts context_error attempt await_off after_off after_on
    step_on step_off wait_for poll after_poll sleep check_ip judge_ip check_final close close_found
    disarm conclude_run finish stop step_timeout poll_interval
changing_run = (_, refl)

-- The run above changes the address in its first attempt.
changing_run_lem :
    (changing_run.0.1.success ≡ true)
    × (changing_run.0.1.attempts ≡ 1)
    × (changing_run.0.1.new_ip ≡ "192.0.2.2")
unfolding changing_run
changing_run_lem = (refl, refl, refl)

run-Ran_example : Ran [] changing_run.0.0.calls changing_run.0.1
run-Ran_example =
    run-Ran toy_env machine 2 no_options before changing_run.0.0 changing_run.0.1 changing_run.1

toy_env-Ticks : Ticks toy_env
toy_env-Ticks = record {
  by_status = λ c w. omega arith;
  by_on = λ c w. omega arith;
  by_off = λ c w. omega arith;
  by_ips = λ c w. omega arith;
  by_arm = λ c t n w. omega arith;
  by_disarm = λ c w. omega arith;
  by_sleep = λ c d w. omega arith;
  by_full_sleep = λ c d w h. omega arith;
}

short_steps : step_timeout machine ≤ default_timeout
unfolding step_timeout
short_steps = omega arith

run_returns_example :
    (s' : Sys Toy) × (r : Result) × (run toy_env machine (suc default_timeout) no_options before
      ≡ some (s', r))
run_returns_example =
    run_returns toy_env machine default_timeout no_options before toy_env-Ticks (omega arith)
      short_steps
