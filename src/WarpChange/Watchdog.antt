-- ===== src/WarpChange/Watchdog.antt =====
-- The calls of the recovery watchdog at the end of `Run` of agent/internal/warpchange/state.go.
use mathlib.Core.Path.{subst}
use vps_tool.Prelude.{
  ℕ, ◌≡◌, refl, ◌∙◌, ap, Bool, true, false, Option, none, some, List, [], ◌∷◌, ◌++◌,
}
use vps_tool.Common.{Time, Error}
use vps_tool.WarpChange.Machine.{
  WarpSnapshot, Machine, Context, background, Env, Call, disarmed, Sys, Result, finish,
}
use vps_tool.WarpChange.Steps.{Act, pure, ◌>>=◌, succeeded, disarm, reached, is_on}
use vps_tool.WarpChange.Attempts.{Attempt}
use vps_tool.WarpChange.Run.{
  found_closed, failed_closed, close_found, settle, recover, close_failed, conclude_run, close,
}
use vps_tool.WarpChange.Trace.{
  Gives, Anything, longer, feed-some, pure-Gives, if-Gives, state-Gives, recover-Gives,
}
use vps_tool.WarpChange.Verdict.{on_test}

-- The last call is a call of `Disarm`.
pub record Disarmed (old calls : List Call) : Type 0 where
  pub worked : Bool
  pub middle : List Call
  pub last_call : calls ≡ disarmed worked ∷ (middle ++ old)

-- The pending end of a run: the result, the error, and whether the watchdog is still armed.
abbrev pub Pending : Type 0
Pending = Result × (Option Error × Bool)

pub record Stops {W : Type 0} (m : Act W Pending) : Type 0 where
  pub stops :
      (s s' : Sys W) (a : Pending) → m s ≡ some (s', a) → a.1.1 ≡ false → Disarmed s.calls s'.calls

pub before-Disarmed :
    {old mid calls : List Call}
    → (new : List Call) × (mid ≡ new ++ old)
    → Disarmed mid calls
    → Disarmed old calls
before-Disarmed {old = old} {calls = calls} (new, e) d =
    let both = longer (new, e) (d.middle, refl) in
    record {
      worked = d.worked;
      middle = both.0;
      last_call = d.last_call ∙ ap (λ l. disarmed d.worked ∷ l) both.1;
    }

bind-Stops :
    {W A : Type 0} {P : A → Type 0} {m : Act W A} {f : A → Act W Pending}
    → Gives P m
    → ((a : A) → Stops (f a))
    → Stops (m >>= f)
bind-Stops {m = m} {f = f} g h = record {
  stops = λ s s' b e off.
      let (s1, a, first, rest) = feed-some (m s) f e in
      before-Disarmed (g.gives s s1 a first).0 ((h a).stops s1 s' b rest off);
}

some-same {ℓ} : {A : Type ℓ} (x y : A) → some x ≡ some y → x ≡ y
some-same x y e = cc

armed-Stops : {W : Type 0} (r : Result) (e : Option Error) → Stops {W = W} (pure (r, (e, true)))
armed-Stops r e = record {
  stops = λ s s' b h off.
      let same = some-same (s, (r, (e, true))) (s', b) h in
      let armed_still : b.1.1 ≡ true = subst (λ t. t.1.1.1 ≡ true) same refl in
      cc (off, armed_still);
}

module _ {W : Type 0} (env : Env W) (m : Machine) where
  disarm-last :
      {A : Type 0} (ctx : Context) (f : Option Error → A) (s s' : Sys W) (a : A)
      → (disarm env m ctx >>= λ e. pure (f e)) s ≡ some (s', a)
      → Disarmed s.calls s'.calls
  unfolding disarm
  disarm-last ctx f s s' a h =
      let (w, e) = env.disarm ctx s.world in
      subst (λ t. Disarmed s.calls t.0.calls)
        (some-same (record { world = w; calls = disarmed (succeeded e) ∷ s.calls }, f e) (s', a) h)
        (record { worked = succeeded e; middle = []; last_call = refl })

  disarm-Stops :
      (ctx : Context) (f : Option Error → Pending) → Stops (disarm env m ctx >>= λ e. pure (f e))
  disarm-Stops ctx f = record { stops = λ s s' a h off. disarm-last ctx f s s' a h }

module _ {W : Type 0} (env : Env W) (m : Machine) (fuel : ℕ) where
  found-Stops : (ctx : Context) (r : Result) → Stops (close_found env m fuel ctx r)
  unfolding close_found
  found-Stops ctx r = disarm-Stops env m ctx (found_closed r)

  settle-Stops : (r : Result) (last e : Option Error) → Stops (settle env m fuel r last e)
  unfolding settle
  settle-Stops r last none = disarm-Stops env m background (failed_closed r last)
  settle-Stops r last (some e) = armed-Stops _ last

  pub recover-any : (a : WarpSnapshot × Option Error) → Gives Anything (recover env m fuel a)
  unfolding recover
  recover-any a =
      if-Gives (reached is_on a) _ _ (pure-Gives (a.0, none) tt) (recover-Gives env m fuel)

  failed-Stops :
      (ctx : Context) (r : Result) (last : Option Error)
      → Stops (close_failed env m fuel ctx r last)
  unfolding close_failed
  failed-Stops ctx r last =
      bind-Stops (state-Gives env m ctx)
        (λ a. bind-Stops (recover-any a) (λ final. settle-Stops _ last final.1))

  pub close-Stops : (ctx : Context) (x : Attempt) → Stops (close env m fuel ctx x)
  unfolding close
  close-Stops ctx (r, last) =
      on_test Stops r.success _ _ (λ _. found-Stops ctx r) (λ _. failed-Stops ctx r last)

  pub conclude-Disarmed :
      (started : Time) (p : Pending) (old : List Call) (s s' : Sys W) (r : Result)
      → conclude_run env m fuel started p s ≡ some (s', r)
      → (new : List Call) × (s.calls ≡ new ++ old)
      → (p.1.1 ≡ false → Disarmed old s.calls)
      → Disarmed old s'.calls
  unfolding conclude_run
  conclude-Disarmed started (q, (e, false)) old s s' r h new d =
      subst (λ t. Disarmed old t.0.calls)
        (some-same (s, finish started (env.now s.world) q e) (s', r) h) (d refl)
  conclude-Disarmed started (q, (e, true)) old s s' r h new d =
      before-Disarmed new
        (disarm-last env m background (λ _. finish started (env.now s.world) q e) s s' r h)
