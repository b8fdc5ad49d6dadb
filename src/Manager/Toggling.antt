-- ===== src/Manager/Toggling.antt =====
-- What the operations of agent/internal/warp/manager.go leave behind: the state they report, and the
-- cache of addresses.
use mathlib.Core.Path.{subst}
use vps_tool.Prelude.{
  ℕ, zero, suc, ◌≡◌, refl, sym, ap, ◌∙◌, inl, inr, Bool-cases, Option-cases, Bool, true, Option,
  none, some, String, str_eq, eq_iff,
}
use vps_tool.Common.{Error}
use vps_tool.WarpChange.Machine.{WarpSnapshot, Env, caller}
use vps_tool.WarpChange.Verdict.{on_test}
use vps_tool.Manager.Waiting.{wait_warp, warp_reached, newer}
use vps_tool.Manager.Operations.{
  Manager, State, invalidate_ip, Toggled, nothing, unknown, desired, already, switch, waited,
  switched, looked, toggle,
}

-- A wait that ends without an error has seen the state that it waits for.
reached_state :
    (d : String) (answer : WarpSnapshot × Option Error)
    → warp_reached d answer ≡ true
    → answer.0.state ≡ d
reached_state d (state, none) h = (eq_iff state.state d).0 h
reached_state d (state, some e) h = cc

wait-reached :
    {W : Type 0} (env : Env W) (interval fuel : ℕ) (d : String) (last : WarpSnapshot)
    (failure : Option Error) (w w' : W) (state : WarpSnapshot)
    → wait_warp env interval fuel d last failure w ≡ some (w', (state, none))
    → state.state ≡ d
unfolding wait_warp
wait-reached env interval zero d last failure w w' state h = cc
wait-reached env interval (suc fuel) d last failure w w' state h =
    elim (Option-cases (env.caller_error w)) [
      | inr (e, ended) ↦ cc (rw (ended, wait_warp) at h)
      | inl alive ↦
          let answer = env.warp_status caller w in
          elim (Bool-cases (warp_reached d answer.1)) [
            | inl good ↦
                let same : answer.1.0 ≡ state = cc (rw (alive, good, wait_warp) at h) in
                ap (λ (t : WarpSnapshot). t.state) (sym same) ∙ reached_state d answer.1 good
            | inr bad ↦ elim (Option-cases (env.sleep caller interval answer.0).1) [
              | inr (e, woken) ↦ cc (rw (alive, bad, woken, wait_warp) at h)
              | inl slept ↦
                  wait-reached env interval fuel d answer.1.0 (newer answer.1.1 failure)
                    (env.sleep caller interval answer.0).0 w' state
                    (rw (alive, bad, slept, wait_warp) at h)
            ]
          ]
    ]

-- What `toggle` returns, and what it leaves of the cache.
pub data Settled {W : Type 0} (on : Bool) (m : Manager) : State W × Toggled → Type 0 where
  as_before :
      (w : W) (state : WarpSnapshot)
      → state.state ≡ desired on
      → Settled on m (record { manager = m; world = w }, (state, (already on, none)))
  switched_over :
      (w : W) (state : WarpSnapshot)
      → state.state ≡ desired on
      → Settled on m (record { manager = invalidate_ip m; world = w }, (state, ("ok", none)))
  not_switched :
      (w : W) (e : Error)
      → Settled on m (record { manager = m; world = w }, (unknown, ("", some e)))
  not_reached :
      (w : W) (state : WarpSnapshot) (e : Error)
      → Settled on m (record { manager = invalidate_ip m; world = w }, (state, ("", some e)))

some-same {ℓ} : {A : Type ℓ} (x y : A) → some x ≡ some y → x ≡ y
some-same x y e = cc

module _ {W : Type 0} (env : Env W) (on : Bool) (m : Manager) where
  waited-Settled :
      (x : Option (W × (WarpSnapshot × Option Error))) (t : State W × Toggled)
      → ((w : W) (state : WarpSnapshot) → x ≡ some (w, (state, none)) → state.state ≡ desired on)
      → waited env (invalidate_ip m) x ≡ some t
      → Settled on m t
  waited-Settled none t h e = cc
  waited-Settled (some (w, (state, none))) t h e =
      subst (Settled on m) (some-same _ t e) (switched_over w state (h w state refl))
  waited-Settled (some (w, (state, some x))) t h e =
      subst (Settled on m) (some-same _ t e) (not_reached w state x)

  switched-Settled :
      (fuel : ℕ) (x : W × Option Error) (t : State W × Toggled)
      → switched env fuel on m x ≡ some t
      → Settled on m t
  unfolding switched
  switched-Settled fuel (w, some e) t h = subst (Settled on m) (some-same _ t h) (not_switched w e)
  switched-Settled fuel (w, none) t h =
      waited-Settled _ t
        (λ w' state p. wait-reached env m.poll_interval fuel (desired on) nothing none w w' state p)
        h

  looked-Settled :
      (fuel : ℕ) (x : W × (WarpSnapshot × Option Error)) (t : State W × Toggled)
      → looked env fuel on m x ≡ some t
      → Settled on m t
  unfolding looked
  looked-Settled fuel (w, (state, some e)) t h =
      subst (Settled on m) (some-same _ t h) (not_switched w e)
  looked-Settled fuel (w, (state, none)) t step =
      on_test (λ x. x ≡ some t → Settled on m t) (str_eq state.state (desired on)) _ _
        (λ there h.
          subst (Settled on m) (some-same _ t h) (as_before w state ((eq_iff _ _).0 there)))
        (λ away h. switched-Settled fuel (switch env on w) t h) step

-- A toggle that returns has one of four ends. WARP was in the desired state: it says so, with that
-- state, and the cache of addresses stays. It has reached the desired state: note ok, and the
-- cache is emptied. A call failed before or while switching: unknown state, no note, an error, and
-- the cache stays. The wait failed: no note, an error, and the cache is emptied.
pub toggle-Settled :
    {W : Type 0} (env : Env W) (fuel : ℕ) (on : Bool) (s : State W) (t : State W × Toggled)
    → toggle env fuel on s ≡ some t
    → Settled on s.manager t
unfolding toggle
toggle-Settled env fuel on s t h = looked-Settled env on s.manager fuel _ t h
