-- ===== src/WarpChange/Ordering.antt =====
-- The whole of `Run` of agent/internal/warpchange/state.go: what a result means, and where the calls
-- of the watchdog stand among its calls.
use mathlib.Core.Path.{subst}
use vps_tool.Prelude.{
  ℕ, ◌+◌, ◌≤◌, ◌≡◌, ◌≢◌, refl, true, false, Option, none, some, List, [], ◌∷◌, ◌++◌, All, String,
  str_eq, arith, ℤ, pos, negsuc, ◌||◌,
}
use vps_tool.Common.{Time, Error}
use vps_tool.WarpChange.Machine.{
  warp_on, warp_degraded, WarpSnapshot, Options, Machine, Context, caller, until, Env, Call,
  asked_status, asked_ips, turned_on, turned_off, armed, disarmed, Sys, Result, finish,
}
use vps_tool.WarpChange.Steps.{Act, current_state, with_ip, arm, succeeded}
use vps_tool.WarpChange.Attempts.{no_ip}
use vps_tool.WarpChange.Run.{
  to_nat, unfinished, default_options, out_of_range, stop, when_armed, with_old_ip, with_precheck,
  with_options, run,
}
use vps_tool.WarpChange.Verdict.{on_test}
use vps_tool.WarpChange.Guarded.{Watched, guarded-Watched}

-- The calls that leave WARP as it is: questions, and an `Arm` that failed.
abbrev pub IsProbe : Call → Type 0
IsProbe asked_status = Unit
IsProbe asked_ips = Unit
IsProbe turned_on = ⊥
IsProbe turned_off = ⊥
IsProbe (armed true) = ⊥
IsProbe (armed false) = Unit
IsProbe (disarmed _) = ⊥

-- How a run can have gone, from the calls before it to those after it.
pub data Ran (old calls : List Call) (r : Result) : Type 0 where
  declined :
      (probes : List Call)
      → calls ≡ probes ++ old
      → All IsProbe probes
      → r.success ≡ false
      → r.attempts ≡ 0
      → Ran old calls r
  watched :
      (max : ℕ) (old_ip : String)
      → max ≤ 3
      → Watched (armed true ∷ asked_ips ∷ asked_status ∷ old) calls max old_ip r
      → Ran old calls r

pub record InRange (o : Options) : Type 0 where
  pub some_attempts : to_nat o.max_attempts ≢ 0
  pub few_attempts : to_nat o.max_attempts ≤ 3

range :
    (a t : ℤ)
    → out_of_range (record { max_attempts = a; timeout = t }) ≡ false
    → InRange (record { max_attempts = a; timeout = t })
unfolding out_of_range
range (pos n) t h = record { some_attempts = λ e. ground arith; few_attempts = ground arith }
range (negsuc n) t h = absurd (ground arith)

module _ {W : Type 0} (env : Env W) (m : Machine) (fuel : ℕ) where
  stop-Ran :
      (old probes : List Call) (started : Time) (r : Result) (e : Option Error) (s s' : Sys W)
      (q : Result)
      → s.calls ≡ probes ++ old
      → All IsProbe probes
      → r.success ≡ false
      → r.attempts ≡ 0
      → stop env m fuel started r e s ≡ some (s', q)
      → Ran old s'.calls q
  unfolding stop finish
  stop-Ran old probes started r e s s' q c p f z h =
      let same : (s, finish started (env.now s.world) r e) ≡ (s', q) = cc in
      subst (λ (t : Sys W × Result). Ran old t.0.calls t.1) same (declined probes c p f z)

  module _ (ctx : Context) (started : Time) (o : Options) (within : InRange o)
      (old : List Call) where
    armed-Ran :
        (r : Result) (e : Option Error) (s s' : Sys W) (q : Result)
        → s.calls ≡ armed (succeeded e) ∷ asked_ips ∷ asked_status ∷ old
        → r.success ≡ false
        → r.attempts ≡ 0
        → when_armed env m fuel ctx started o r e s ≡ some (s', q)
        → Ran old s'.calls q
    unfolding when_armed
    armed-Ran r none s s' q c f z h = watched (to_nat o.max_attempts) r.old_ip within.few_attempts (
        subst (λ l. Watched l s'.calls (to_nat o.max_attempts) r.old_ip q) c
          (guarded-Watched env m fuel ctx started (to_nat o.max_attempts)
            (record r { final_state = "" }) s s' q f within.some_attempts h))
    armed-Ran r (some e) s s' q c f z h =
        stop-Ran old (armed false ∷ asked_ips ∷ asked_status ∷ []) started _ (some e) s s' q c
          (tt, (tt, (tt, tt))) f z h

    ip-Ran :
        (r : Result) (answer : String × Option Error) (s s' : Sys W) (q : Result)
        → s.calls ≡ asked_ips ∷ asked_status ∷ old
        → r.success ≡ false
        → r.attempts ≡ 0
        → with_old_ip env m fuel ctx started o r answer s ≡ some (s', q)
        → Ran old s'.calls q
    unfolding with_old_ip arm
    ip-Ran r answer s s' q c f z =
        on_test (λ (act : Act W Result). act s ≡ some (s', q) → Ran old s'.calls q) (no_ip answer) _
          _
          (λ _ h.
            stop-Ran old (asked_ips ∷ asked_status ∷ []) started _ _ s s' q c (tt, (tt, tt)) f z h)
          (λ _ h. armed-Ran (record r { old_ip = answer.0 }) _ _ s' q (rw c refl) f z h)

    precheck-Ran :
        (answer : WarpSnapshot × Option Error) (s s' : Sys W) (q : Result)
        → s.calls ≡ asked_status ∷ old
        → with_precheck env m fuel ctx started o answer s ≡ some (s', q)
        → Ran old s'.calls q
    unfolding with_precheck with_ip
    precheck-Ran (state, some e) s s' q c h =
        stop-Ran old (asked_status ∷ []) started _ _ s s' q c (tt, tt) refl refl h
    precheck-Ran (state, none) s s' q c step =
        on_test (λ (act : Act W Result). act s ≡ some (s', q) → Ran old s'.calls q)
          (str_eq state.state warp_on || str_eq state.state warp_degraded) _ _
          (λ _ h.
            ip-Ran (record unfinished { final_state = state.state }) _ _ s' q (rw c refl) refl refl
              h)
          (λ _ h. stop-Ran old (asked_status ∷ []) started _ _ s s' q c (tt, tt) refl refl h) step

  options-Ran :
      (started : Time) (o : Options) (s s' : Sys W) (q : Result)
      → with_options env m fuel started o s ≡ some (s', q)
      → Ran s.calls s'.calls q
  unfolding with_options current_state
  options-Ran started o s s' q =
      on_test (λ (act : Act W Result). act s ≡ some (s', q) → Ran s.calls s'.calls q)
        (out_of_range o) _ _ (λ _ h. stop-Ran s.calls [] started _ _ s s' q refl tt refl refl h)
        (λ good h.
          precheck-Ran (until (started + to_nat o.timeout) caller) started o
            (range o.max_attempts o.timeout good) s.calls _ _ s' q refl h)

  -- Every run that ends declined, or went under the watchdog. If it declined, it only asked, or
  -- failed to arm the watchdog, and its result is no success and has no attempts. Else it armed
  -- the watchdog after the two questions for state and address, its last call was a call of Disarm
  -- (also when the recovery failed), it made between 1 and 3 attempts, and if its result is a
  -- success, then the code is ok, the new address is not empty and not the old one, and the final
  -- state is on.
  pub run-Ran :
      (o : Options) (s s' : Sys W) (q : Result)
      → run env m fuel o s ≡ some (s', q)
      → Ran s.calls s'.calls q
  unfolding run
  run-Ran o s s' q =
      on_test (λ x. x ≡ some (s', q) → Ran s.calls s'.calls q) m.ready _ _
        (λ _ h. options-Ran (env.now s.world) (default_options o) s s' q h)
        (λ _ h. stop-Ran s.calls [] (env.now s.world) unfinished _ s s' q refl tt refl refl h)
