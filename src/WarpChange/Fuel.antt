-- ===== src/WarpChange/Fuel.antt =====
-- The fuel of the waits of agent/internal/warpchange/state.go, over a clock that moves on.
use vps_tool.Prelude.{
  inl, inr, ℕ, zero, suc, ◌+◌, ◌≤◌, ◌<◌, ◌≡◌, refl, Bool, Option, none, some, Option-cases, ◌∷◌,
  arith, ℤ,
}
use vps_tool.Common.{Time, Error}
use vps_tool.WarpChange.Machine.{
  WarpSnapshot, Machine, poll_interval, Context, until, Env, context_error, Call, asked_status,
  disarmed, Sys,
}
use vps_tool.WarpChange.Steps.{
  Act, pure, ◌>>=◌, on_error, call, succeeded, last_or, newer, reached, step_context, current_state,
  step_on, step_off, with_ip, disarm, sleep, after_poll, poll, wait_for,
}
use vps_tool.WarpChange.Verdict.{on_test}

-- A clock that does not go back, and that a sleep without an error moves on.
pub record Ticks {W : Type 0} (env : Env W) : Type 0 where
  pub by_status : (c : Context) (w : W) → env.now w ≤ env.now (env.warp_status c w).0
  pub by_on : (c : Context) (w : W) → env.now w ≤ env.now (env.switch_on c w).0
  pub by_off : (c : Context) (w : W) → env.now w ≤ env.now (env.switch_off c w).0
  pub by_ips : (c : Context) (w : W) → env.now w ≤ env.now (env.get_ips c w).0
  pub by_arm : (c : Context) (t : Time) (n : ℤ) (w : W) → env.now w ≤ env.now (env.arm c t n w).0
  pub by_disarm : (c : Context) (w : W) → env.now w ≤ env.now (env.disarm c w).0
  pub by_sleep : (c : Context) (d : ℕ) (w : W) → env.now w ≤ env.now (env.sleep c d w).0
  pub by_full_sleep :
      (c : Context) (d : ℕ) (w : W)
      → (env.sleep c d w).1 ≡ none
      → env.now w < env.now (env.sleep c d w).0

-- An action returns when it begins at `t` or later, and ends no earlier than it began.
pub record Returns {W A : Type 0} (env : Env W) (t : Time) (m : Act W A) : Type 0 where
  pub returns :
      (s : Sys W)
      → t ≤ env.now s.world
      → (s' : Sys W) × (a : A) × (m s ≡ some (s', a)) × (env.now s.world ≤ env.now s'.world)

module _ {W : Type 0} (env : Env W) (t : Time) where
  pub bind-Returns :
      {A B : Type 0} {m : Act W A} {f : A → Act W B}
      → Returns env t m
      → ((a : A) → Returns env t (f a))
      → Returns env t (m >>= f)
  bind-Returns {m = m} {f = f} g h = record {
    returns = λ s l.
        let (s1, a, e1, l1) = g.returns s l in
        let (s2, b, e2, l2) = (h a).returns s1 (omega arith) in (s2, b, rw e1 e2, omega arith);
  }

  pub pure-Returns : {A : Type 0} (a : A) → Returns env t (pure a)
  pure-Returns a = record { returns = λ s l. (s, a, refl, omega arith) }

  pub call-Returns :
      {A : Type 0} (note : A → Call) (f : W → W × A)
      → ((w : W) → env.now w ≤ env.now (f w).0)
      → Returns env t (call note f)
  call-Returns note f h = record { returns = λ s l. (_, (f s.world).1, refl, h s.world) }

  pub error-Returns :
      {A : Type 0} {f : Error → Act W A} {g : Act W A} (e : Option Error)
      → ((x : Error) → Returns env t (f x))
      → Returns env t g
      → Returns env t (on_error f g e)
  error-Returns none h k = k
  error-Returns (some x) h k = h x

module _ {W : Type 0} (env : Env W) (ticks : Ticks env) (m : Machine) (t : Time) where
  pub state-Returns : (c : Context) → Returns env t (current_state env m c)
  unfolding current_state
  state-Returns c = record {
    returns = λ s l. (_, _, refl, ticks.by_status (step_context env m c s) s.world);
  }

  pub on-Returns : (c : Context) → Returns env t (step_on env m c)
  unfolding step_on
  on-Returns c = record {
    returns = λ s l. (_, _, refl, ticks.by_on (step_context env m c s) s.world);
  }

  pub off-Returns : (c : Context) → Returns env t (step_off env m c)
  unfolding step_off
  off-Returns c = record {
    returns = λ s l. (_, _, refl, ticks.by_off (step_context env m c s) s.world);
  }

  pub ip-Returns : (c : Context) → Returns env t (with_ip env m c)
  unfolding with_ip
  ip-Returns c = record {
    returns = λ s l. (_, _, refl, ticks.by_ips (step_context env m c s) s.world);
  }

  pub disarm-Returns : (c : Context) → Returns env t (disarm env m c)
  unfolding disarm
  disarm-Returns c =
      call-Returns env t (λ e. disarmed (succeeded e)) (env.disarm c) (ticks.by_disarm c)

alive :
    {W : Type 0} (env : Env W) (d : Time) (c : Context) (w : W)
    → context_error env (until d c) w ≡ none
    → env.now w < d
unfolding context_error
alive env d c w h = ground arith

module _ {W : Type 0} (env : Env W) (ticks : Ticks env) (m : Machine) (d : Time) (c : Context)
    (p : WarpSnapshot → Bool) where
  abbrev Back : Sys W → Option (Sys W × Option Error) → Type 0
  Back s x =
      (s' : Sys W) × (a : Option Error) × (x ≡ some (s', a)) × (env.now s.world ≤ env.now s'.world)

  -- The sleep, with the rest of the loop behind it.
  slept :
      (s0 s : Sys W) (rest : Act W (Option Error))
      → env.now s0.world ≤ env.now s.world
      → ((s2 : Sys W) → env.now s.world < env.now s2.world → Back s2 (rest s2))
      → Back s0 ((sleep env m (until d c) >>= on_error (λ e. pure (some e)) rest) s)
  unfolding sleep
  slept s0 s rest l k =
      let s2 : Sys W = record s { world = (env.sleep (until d c) (poll_interval m) s.world).0 } in
      let passed = ticks.by_sleep (until d c) (poll_interval m) s.world in
      elim (Option-cases (env.sleep (until d c) (poll_interval m) s.world).1) [
        | inr (x, bad) ↦ (s2, some x, rw bad refl, omega arith)
        | inl full ↦
            let after = ticks.by_full_sleep (until d c) (poll_interval m) s.world full in
            let (s3, a, e3, l3) = k s2 after in (s3, a, rw full e3, omega arith)
      ]

  -- A poll, with the rest of the loop behind it.
  polled :
      (last : Option Error) (s : Sys W) (rest : Option Error → Act W (Option Error))
      → ((e : Option Error) (s2 : Sys W) → env.now s.world < env.now s2.world → Back s2 (rest e s2))
      → Back s (poll env m p (until d c) last rest s)
  unfolding poll current_state after_poll
  polled last s rest k =
      let answer = env.warp_status (step_context env m (until d c) s) s.world in
      let s1 : Sys W = record { world = answer.0; calls = asked_status ∷ s.calls } in
      let passed = ticks.by_status (step_context env m (until d c) s) s.world in
      on_test (λ (act : Act W (Option Error)). Back s (act s1)) (reached p answer.1) _ _
        (λ _. (s1, none, refl, passed))
        (λ _.
          slept s s1 (rest (newer answer.1.1 last)) passed
            (λ s2 after. k (newer answer.1.1 last) s2 (omega arith)))

  pub wait-Back :
      (n : ℕ) (last : Option Error) (s : Sys W)
      → d ≤ env.now s.world + n
      → Back s (wait_for env m p (until d c) (suc n) last s)
  unfolding wait_for
  wait-Back zero last s b = elim (Option-cases (context_error env (until d c) s.world)) [
    | inr (x, over) ↦ (s, some (last_or last x), rw (over, wait_for) refl, omega arith)
    | inl fine ↦ let early = alive env d c s.world fine in absurd (omega arith)
  ]
  wait-Back (suc n) last s b = elim (Option-cases (context_error env (until d c) s.world)) [
    | inr (x, over) ↦ (s, some (last_or last x), rw (over, wait_for) refl, omega arith)
    | inl fine ↦
        let (s1, a, e, l) =
          polled last s (λ e. wait_for env m p (until d c) (suc n) e)
            (λ e s2 after. wait-Back n e s2 (omega arith)) in
        (s1, a, rw (fine, wait_for) e, l)
  ]

  -- A wait returns when its fuel exceeds the time that is left to its context.
  pub wait-Returns :
      (t : Time) (n : ℕ) (last : Option Error)
      → d ≤ t + n
      → Returns env t (wait_for env m p (until d c) (suc n) last)
  wait-Returns t n last b = record { returns = λ s l. wait-Back n last s (omega arith) }
