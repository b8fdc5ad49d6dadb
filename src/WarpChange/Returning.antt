-- ===== src/WarpChange/Returning.antt =====
-- The fuel of the attempts and of the recovery of agent/internal/warpchange/state.go.
use vps_tool.Prelude.{
  inl, inr, ℕ, zero, suc, ◌+◌, ◌≤◌, refl, Bool, true, false, Option, none, some, Option-cases,
  Bool-cases, String, str_eq, arith,
}
use vps_tool.Common.{Time, Error}
use vps_tool.WarpChange.Machine.{
  Machine, step_timeout, Context, background, until, Env, context_error, turned_on, Result, finish,
}
use vps_tool.WarpChange.Steps.{
  Act, reached, is_on, with_reason, give_reason, await_on, turn_back_on, recover_within, recover_on,
}
use vps_tool.WarpChange.Attempts.{
  Attempt, is_off, no_ip, check_final, judge_ip, check_ip, or_stage, after_on, after_off, await_off,
  attempt, attempts,
}
use vps_tool.WarpChange.Run.{
  found_closed, failed_closed, close_found, settle, recover, close_failed, conclude_run, close,
  guarded,
}
use vps_tool.WarpChange.Verdict.{on_test}
use vps_tool.WarpChange.Fuel.{
  Ticks, Returns, bind-Returns, pure-Returns, call-Returns, error-Returns, state-Returns,
  on-Returns, off-Returns, ip-Returns, disarm-Returns, wait-Returns,
}

module _ {W : Type 0} (env : Env W) (ticks : Ticks env) (m : Machine) (n : ℕ) where
  module _ (t d : Time) (b : d ≤ t + n) where
    reason-Returns : (x : Error) → Returns env t (give_reason env m x)
    unfolding give_reason
    reason-Returns x =
        bind-Returns env t (state-Returns env ticks m t background)
          (λ a. pure-Returns env t (with_reason x a))

    await-Returns : Returns env t (await_on env m (suc n) (until d background))
    unfolding await_on
    await-Returns =
        bind-Returns env t (wait-Returns env ticks m d background is_on t n none b)
          (λ e. error-Returns env t e reason-Returns (state-Returns env ticks m t background))

    back-Returns : Returns env t (turn_back_on env m (suc n) (until d background))
    unfolding turn_back_on
    back-Returns =
        bind-Returns env t
          (call-Returns env t (λ _. turned_on) (env.switch_on (until d background))
            (ticks.by_on (until d background)))
          (λ e. error-Returns env t e reason-Returns await-Returns)

    within-Returns : Returns env t (recover_within env m (suc n) (until d background))
    unfolding recover_within
    within-Returns = bind-Returns env t (state-Returns env ticks m t (until d background)) (λ a.
        on_test (Returns env t) (reached is_on a) _ _ (λ _. pure-Returns env t (a.0, none))
          (λ _. back-Returns))

  -- The context of the recovery ends one step timeout after it began.
  recover-Returns : step_timeout m ≤ n → (t : Time) → Returns env t (recover_on env m (suc n))
  unfolding recover_on
  recover-Returns short t = record {
    returns = λ s l.
        (within-Returns (env.now s.world) (env.now s.world + step_timeout m) (omega arith)).returns
          s (omega arith);
  }

module _ {W : Type 0} (env : Env W) (ticks : Ticks env) (m : Machine) (t : Time) (n : ℕ)
    (short : step_timeout m ≤ n) where
  settle-Returns :
      (r : Result) (last e : Option Error) → Returns env t (settle env m (suc n) r last e)
  unfolding settle
  settle-Returns r last none =
      bind-Returns env t (disarm-Returns env ticks m t background)
        (λ e. pure-Returns env t (failed_closed r last e))
  settle-Returns r last (some e) = pure-Returns env t _

  conclude-Returns :
      (started : Time) (p : Result × (Option Error × Bool))
      → Returns env t (conclude_run env m (suc n) started p)
  unfolding conclude_run
  conclude-Returns started (r, (e, false)) = record { returns = λ s l. (s, _, refl, omega arith) }
  conclude-Returns started (r, (e, true)) = record {
    returns = λ s l.
        (bind-Returns env t (disarm-Returns env ticks m t background)
            (λ _. pure-Returns env t (finish started (env.now s.world) r e))).returns
          s l;
  }

  module _ (c : Context) (d : Time) (b : d ≤ t + n) where
    stage-Returns :
        (code : String) (r : Result) (rest : Act W Attempt) (e : Option Error)
        → Returns env t rest
        → Returns env t (or_stage env m (suc n) code r rest e)
    stage-Returns code r rest e h = error-Returns env t e (λ x. pure-Returns env t _) h

    judge-Returns :
        (r : Result) (a : String × Option Error)
        → Returns env t (judge_ip env m (suc n) (until d c) r a)
    unfolding judge_ip check_final
    judge-Returns r a =
        on_test (Returns env t) (no_ip a) _ _ (λ _. pure-Returns env t _)
          (λ _.
            on_test (Returns env t) (str_eq a.0 r.old_ip) _ _ (λ _. pure-Returns env t _)
              (λ _.
                bind-Returns env t (state-Returns env ticks m t (until d c))
                  (λ x. pure-Returns env t _)))

    attempt-Returns : (r : Result) → Returns env t (attempt env m (suc n) (until d c) r)
    unfolding attempt await_off after_off after_on check_ip
    attempt-Returns r = bind-Returns env t (off-Returns env ticks m t (until d c)) (λ e1.
        stage-Returns _ r _ e1 (
          bind-Returns env t (wait-Returns env ticks m d c is_off t n none b) (λ e2.
            stage-Returns _ r _ e2 (
              bind-Returns env t (on-Returns env ticks m t (until d c)) (λ e3.
                stage-Returns _ r _ e3 (
                  bind-Returns env t (wait-Returns env ticks m d c is_on t n none b) (λ e4.
                    stage-Returns _ r _ e4 (
                      bind-Returns env t (ip-Returns env ticks m t (until d c))
                        (λ a. judge-Returns r a)))))))))

    attempts-Returns :
        (k i : ℕ) (r : Result) (last : Option Error)
        → Returns env t (attempts env m (suc n) (until d c) k i r last)
    unfolding attempts
    attempts-Returns zero i r last = record { returns = λ s l. (s, (r, last), refl, omega arith) }
    attempts-Returns (suc k) i r last = record {
      returns = λ s l. elim (Option-cases (context_error env (until d c) s.world)) [
        | inr (x, over) ↦ (
          s,
          (record r { attempts = i; code = "action_timeout" }, some x),
          rw (over, attempts) refl,
          omega arith,
        )
        | inl fine ↦
            let (s1, x, tried, l1) = (attempt-Returns (record r { attempts = i })).returns s l in
            elim (Bool-cases x.0.success) [
              | inl good ↦ (s1, x, rw (fine, tried, good, attempts) refl, l1)
              | inr bad ↦
                  let (s2, y, rest, l2) =
                    (attempts-Returns k (suc i) x.0 x.1).returns s1 (omega arith) in
                  (s2, y, rw (fine, tried, bad, attempts) rest, omega arith)
            ]
      ];
    }

    close-Returns : (x : Attempt) → Returns env t (close env m (suc n) (until d c) x)
    unfolding close close_found close_failed recover
    close-Returns (r, last) =
        on_test (Returns env t) r.success _ _
          (λ _.
            bind-Returns env t (disarm-Returns env ticks m t (until d c))
              (λ e. pure-Returns env t (found_closed r e)))
          (λ _. bind-Returns env t (state-Returns env ticks m t (until d c)) (λ a.
            bind-Returns env t
              (on_test (Returns env t) (reached is_on a) _ _ (λ _. pure-Returns env t (a.0, none))
                (λ _. recover-Returns env ticks m n short t))
              (λ final. settle-Returns _ last final.1)))

    pub guarded-Returns :
        (started : Time) (k : ℕ) (r : Result)
        → Returns env t (guarded env m (suc n) (until d c) started k r)
    unfolding guarded
    guarded-Returns started k r =
        bind-Returns env t (attempts-Returns k 1 r none)
          (λ x. bind-Returns env t (close-Returns x) (λ p. conclude-Returns started p))
