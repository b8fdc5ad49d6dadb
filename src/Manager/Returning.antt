-- ===== src/Manager/Returning.antt =====
-- The fuel of the waits of agent/internal/warp/manager.go, over a clock that moves on.
use vps_tool.Prelude.{
  ℕ, zero, suc, ◌+◌, ◌≤◌, ◌<◌, ◌≡◌, ◌≢◌, refl, Bool-cases, Option-cases, inl, inr, Bool, true,
  false, Option, none, some, String, str_eq, arith,
}
use vps_tool.Common.{Time, Error}
use vps_tool.WarpChange.Machine.{WarpSnapshot, Env, caller}
use vps_tool.WarpChange.Fuel.{Ticks}
use vps_tool.WarpChange.Verdict.{on_test}
use vps_tool.Manager.Waiting.{wait_warp, warp_timeout, warp_reached, newer}
use vps_tool.Manager.Operations.{
  Manager, State, invalidate_ip, Toggled, nothing, desired, switch, waited, switched, looked,
  toggle,
}

-- The context of the caller has ended from an instant on.
abbrev pub EndsBy : {W : Type 0} → Env W → Time → Type 0
EndsBy {W = W} env d = (w : W) → d ≤ env.now w → env.caller_error w ≢ none

module _ {W : Type 0} (env : Env W) (ticks : Ticks env) (d : Time) (ends : EndsBy env d)
    (interval : ℕ) where
  early : (w : W) → env.caller_error w ≡ none → env.now w < d
  early w alive = ground (arith, ends w, alive)

  -- The rest of a wait behind a poll that did not settle it.
  abbrev Goes : ℕ → String → W → Type 0
  Goes fuel state w =
      (last : WarpSnapshot) (failure : Option Error)
      → (x : W × (WarpSnapshot × Option Error)) × (wait_warp env interval fuel state last failure w
          ≡ some x)

  one_round :
      (fuel : ℕ) (state : String) (last : WarpSnapshot) (failure : Option Error) (w : W)
      → ((w2 : W) → env.now w < d → env.now w < env.now w2 → Goes fuel state w2)
      → (x : W × (WarpSnapshot × Option Error)) × (wait_warp env interval
            (suc fuel)
            state
            last
            failure
            w
          ≡ some x)
  unfolding wait_warp
  one_round fuel state last failure w go = elim (Option-cases (env.caller_error w)) [
    | inr (e, ended) ↦ ((w, (last, some (warp_timeout failure e))), rw (ended, wait_warp) refl)
    | inl alive ↦
        let before = early w alive in
        let polled = ticks.by_status caller w in
        let answer = env.warp_status caller w in
        elim (Bool-cases (warp_reached state answer.1)) [
          | inl good ↦ ((answer.0, (answer.1.0, none)), rw (alive, good, wait_warp) refl)
          | inr bad ↦ elim (Option-cases (env.sleep caller interval answer.0).1) [
            | inr (e, woken) ↦ (
              ((env.sleep caller interval answer.0).0, (answer.1.0, some e)),
              rw (alive, bad, woken, wait_warp) refl,
            )
            | inl slept ↦
                let full = ticks.by_full_sleep caller interval answer.0 slept in
                let (x, e) =
                  go (env.sleep caller interval answer.0).0 before (omega arith) answer.1.0
                    (newer answer.1.1 failure) in
                (x, rw (alive, bad, slept, wait_warp) e)
          ]
        ]
  ]

  wait_warp-returns : (n : ℕ) (state : String) (w : W) → d ≤ env.now w + n → Goes (suc n) state w
  wait_warp-returns zero state w b last failure =
      one_round zero state last failure w (λ w2 before after. absurd (omega arith))
  wait_warp-returns (suc n) state w b last failure =
      one_round (suc n) state last failure w
        (λ w2 before after. wait_warp-returns n state w2 (omega arith))

module _ {W : Type 0} (env : Env W) (ticks : Ticks env) (d : Time) (ends : EndsBy env d) where
  waited-returns :
      (m : Manager) (x : W × (WarpSnapshot × Option Error))
      → (y : State W × Toggled) × (waited env m (some x) ≡ some y)
  waited-returns m (w, (state, none)) = (_, refl)
  waited-returns m (w, (state, some e)) = (_, refl)

  switch-ticks : (on : Bool) (w : W) → env.now w ≤ env.now (switch env on w).0
  switch-ticks true w = ticks.by_on caller w
  switch-ticks false w = ticks.by_off caller w

  module _ (n : ℕ) (on : Bool) (m : Manager) where
    switched-returns :
        (x : W × Option Error)
        → d ≤ env.now x.0 + n
        → (y : State W × Toggled) × (switched env (suc n) on m x ≡ some y)
    unfolding switched
    switched-returns (w, some e) b = (_, refl)
    switched-returns (w, none) b =
        let (x, e) =
          wait_warp-returns env ticks d ends m.poll_interval n (desired on) w b nothing none in
        let (y, f) = waited-returns (invalidate_ip m) x in (y, rw e f)

    looked-returns :
        (x : W × (WarpSnapshot × Option Error))
        → d ≤ env.now x.0 + n
        → (y : State W × Toggled) × (looked env (suc n) on m x ≡ some y)
    unfolding looked
    looked-returns (w, (state, some e)) b = (_, refl)
    looked-returns (w, (state, none)) b =
        on_test (λ (o : Option (State W × Toggled)). (y : State W × Toggled) × (o ≡ some y))
          (str_eq state.state (desired on)) _ _ (λ _. (_, refl))
          (λ _. let passed = switch-ticks on w in switched-returns (switch env on w) (omega arith))

  -- A toggle returns if the context of the caller ends at some instant, the clock does not go back
  -- and a sleep without an error takes time: fuel beyond the time that is left until that instant,
  -- in nanoseconds, is enough.
  pub toggle_returns :
      (n : ℕ) (on : Bool) (s : State W)
      → d ≤ env.now s.world + n
      → (y : State W × Toggled) × (toggle env (suc n) on s ≡ some y)
  unfolding toggle
  toggle_returns n on s b =
      let passed = ticks.by_status caller s.world in
      looked-returns n on s.manager (env.warp_status caller s.world) (omega arith)
