-- ===== src/WarpChange/Termination.antt =====
-- The fuel of `Run` of agent/internal/warpchange/state.go.
use vps_tool.Prelude.{
  ℕ, suc, ◌+◌, ◌≤◌, ◌≡◌, refl, false, Option, none, some, String, str_eq, arith, ℤ, pos, negsuc,
  ◌||◌,
}
use vps_tool.Common.{Time, Error}
use vps_tool.WarpChange.Machine.{
  warp_on, warp_degraded, WarpSnapshot, Options, default_timeout, Machine, step_timeout, Context,
  caller, until, Env, Sys, Result,
}
use vps_tool.WarpChange.Steps.{arm}
use vps_tool.WarpChange.Attempts.{no_ip}
use vps_tool.WarpChange.Run.{
  to_nat, default_options, out_of_range, stop, when_armed, with_old_ip, with_precheck, with_options,
  run,
}
use vps_tool.WarpChange.Verdict.{on_test}
use vps_tool.WarpChange.Fuel.{Ticks, Returns, bind-Returns, state-Returns, ip-Returns}
use vps_tool.WarpChange.Returning.{guarded-Returns}

short_timeout :
    (a t : ℤ)
    → out_of_range (record { max_attempts = a; timeout = t }) ≡ false
    → to_nat t ≤ default_timeout
unfolding out_of_range
short_timeout a (pos n) h = ground arith
short_timeout a (negsuc n) h = omega arith

module _ {W : Type 0} (env : Env W) (ticks : Ticks env) (m : Machine) (t : Time) (n : ℕ)
    (short : step_timeout m ≤ n) where
  stop-Returns :
      (started : Time) (r : Result) (e : Option Error)
      → Returns env t (stop env m (suc n) started r e)
  unfolding stop
  stop-Returns started r e = record { returns = λ s l. (s, _, refl, omega arith) }

  arm-Returns : (c : Context) (d : Time) (k : ℤ) → Returns env t (arm env m c d k)
  unfolding arm
  arm-Returns c d k = record { returns = λ s l. (_, _, refl, ticks.by_arm c d k s.world) }

  module _ (c : Context) (d : Time) (b : d ≤ t + n) (started : Time) (o : Options) where
    armed-Returns :
        (r : Result) (e : Option Error)
        → Returns env t (when_armed env m (suc n) (until d c) started o r e)
    unfolding when_armed
    armed-Returns r none =
        guarded-Returns env ticks m t n short c d b started (to_nat o.max_attempts) _
    armed-Returns r (some e) = stop-Returns started _ _

    old_ip-Returns :
        (r : Result) (a : String × Option Error)
        → Returns env t (with_old_ip env m (suc n) (until d c) started o r a)
    unfolding with_old_ip
    old_ip-Returns r a =
        on_test (Returns env t) (no_ip a) _ _ (λ _. stop-Returns started _ _)
          (λ _.
            bind-Returns env t (arm-Returns (until d c) _ o.max_attempts) (λ e. armed-Returns _ e))

    precheck-Returns :
        (a : WarpSnapshot × Option Error)
        → Returns env t (with_precheck env m (suc n) (until d c) started o a)
    unfolding with_precheck
    precheck-Returns (state, some e) = stop-Returns started _ _
    precheck-Returns (state, none) =
        on_test (Returns env t) (str_eq state.state warp_on || str_eq state.state warp_degraded) _ _
          (λ _. bind-Returns env t (ip-Returns env ticks m t (until d c)) (λ a. old_ip-Returns _ a))
          (λ _. stop-Returns started _ _)

  options-Returns :
      default_timeout ≤ n → (o : Options) → Returns env t (with_options env m (suc n) t o)
  unfolding with_options
  options-Returns long o =
      on_test (Returns env t) (out_of_range o) _ _ (λ _. stop-Returns t _ _)
        (λ good.
          let bound = short_timeout o.max_attempts o.timeout good in
          bind-Returns env t (state-Returns env ticks m t (until (t + to_nat o.timeout) caller))
            (λ a. precheck-Returns caller (t + to_nat o.timeout) (omega arith) t o a))

-- Every run has a result, whatever the node answers, provided that the clock does not go back and
-- that a sleep without an error takes time: fuel beyond the longest timeout and the step timeout,
-- in nanoseconds, is enough.
pub run_returns :
    {W : Type 0} (env : Env W) (m : Machine) (n : ℕ) (o : Options) (s : Sys W)
    → Ticks env
    → default_timeout ≤ n
    → step_timeout m ≤ n
    → (s' : Sys W) × (r : Result) × (run env m (suc n) o s ≡ some (s', r))
unfolding run stop
run_returns env m n o s ticks long short =
    let (s1, r, e, _) =
      (options-Returns env ticks m (env.now s.world) n short long (default_options o)).returns s
        (omega arith) in
    on_test (λ x. (s' : Sys _) × (r : Result) × (x ≡ some (s', r))) m.ready _ _ (λ _. (s1, r, e))
      (λ _. (s, _, refl))
