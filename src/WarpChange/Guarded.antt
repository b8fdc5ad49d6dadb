-- ===== src/WarpChange/Guarded.antt =====
-- What comes of a run of agent/internal/warpchange/state.go under the armed watchdog: the result, and
-- the last call.
use vps_tool.Prelude.{
  ℕ, ◌≡◌, ◌≢◌, refl, ◌∙◌, true, false, inl, inr, Option, none, some, List, [], String, arith,
}
use vps_tool.Common.{Time, Error}
use vps_tool.WarpChange.Machine.{
  Machine, Context, background, Env, Call, Sys, Result, finish, default_code,
}
use vps_tool.WarpChange.Attempts.{Attempt, attempts}
use vps_tool.WarpChange.Run.{
  found_closed, failed_closed, with_code, close_found, settle, close_failed, conclude_run, close,
  guarded,
}
use vps_tool.WarpChange.Trace.{
  Gives, feed-some, bind-Gives, pure-Gives, state-Gives, disarm-Gives, at_once,
}
use vps_tool.WarpChange.Verdict.{Looped, loop-Ends, on_test}
use vps_tool.WarpChange.Watchdog.{
  Disarmed, Pending, close-Stops, conclude-Disarmed, recover-any, before-Disarmed,
}

module _ (lo hi : ℕ) (old : String) where
  -- A result that differs in what the end of a run sets, and is no success.
  not_changed :
      (r q : Result)
      → Looped lo hi old r
      → q.old_ip ≡ r.old_ip
      → q.attempts ≡ r.attempts
      → q.success ≡ false
      → Looped lo hi old q
  not_changed r q l o a f = record {
    keeps_old = o ∙ l.keeps_old;
    at_least = rw a l.at_least;
    at_most = rw a l.at_most;
    verdict = inl f;
  }

  found-Looped :
      (r : Result) (e : Option Error) → Looped lo hi old r → Looped lo hi old (found_closed r e).0
  found-Looped r none l = l
  found-Looped r (some e) l = not_changed r _ l refl refl refl

  closed-Looped :
      (r : Result) (last e : Option Error)
      → Looped lo hi old r
      → Looped lo hi old (failed_closed r last e).0
  closed-Looped r last none l = l
  closed-Looped r last (some e) l = record {
    keeps_old = l.keeps_old;
    at_least = l.at_least;
    at_most = l.at_most;
    verdict = elim l.verdict [
      | inl f ↦ inl f
      | inr c ↦ inr (record {
        code_ok = c.code_ok;
        new_address = c.new_address;
        has_address = c.has_address;
        is_on = c.is_on;
      })
    ];
  }

  ok_code : (r : Result) (e : Option Error) → r.code ≡ "ok" → default_code r e ≡ "ok"
  ok_code r none h = h
  ok_code r (some e) h = rw h refl

  finish-Looped :
      (started now : Time) (r : Result) (e : Option Error)
      → Looped lo hi old r
      → Looped lo hi old (finish started now r e)
  unfolding finish
  finish-Looped started now r e l = record {
    keeps_old = l.keeps_old;
    at_least = l.at_least;
    at_most = l.at_most;
    verdict = elim l.verdict [
      | inl f ↦ inl f
      | inr c ↦ inr (record {
        code_ok = ok_code r e c.code_ok;
        new_address = c.new_address;
        has_address = c.has_address;
        is_on = c.is_on;
      })
    ];
  }

  abbrev Good : Pending → Type 0
  Good p = Looped lo hi old p.0

module _ {W : Type 0} (env : Env W) (m : Machine) (fuel : ℕ) (lo hi : ℕ) (old : String) where
  settle-Good :
      (r : Result) (last e : Option Error)
      → Looped lo hi old r
      → r.success ≡ false
      → Gives (Good lo hi old) (settle env m fuel r last e)
  unfolding settle
  settle-Good r last none l f =
      bind-Gives (disarm-Gives env m background)
        (λ e _. pure-Gives (failed_closed r last e) (closed-Looped lo hi old r last e l))
  settle-Good r last (some e) l f =
      pure-Gives (record r { recovery_error = e.message }, (last, true))
        (not_changed lo hi old r _ l refl refl f)

  failed-Good :
      (ctx : Context) (r : Result) (last : Option Error)
      → Looped lo hi old r
      → r.success ≡ false
      → Gives (Good lo hi old) (close_failed env m fuel ctx r last)
  unfolding close_failed with_code
  failed-Good ctx r last l f = bind-Gives (state-Gives env m ctx) (λ a _.
      bind-Gives (recover-any env m fuel a) (λ final _.
        settle-Good (record (with_code r last) { final_state = final.0.state }) last final.1
          (not_changed lo hi old r _ l refl refl f) f))

  close-Good :
      (ctx : Context) (x : Attempt)
      → Looped lo hi old x.0
      → Gives (Good lo hi old) (close env m fuel ctx x)
  unfolding close close_found
  close-Good ctx (r, last) l =
      on_test (Gives (Good lo hi old)) r.success _ _
        (λ _.
          bind-Gives (disarm-Gives env m ctx)
            (λ e _. pure-Gives (found_closed r e) (found-Looped lo hi old r e l)))
        (λ f. failed-Good ctx r last l f)

  conclude-Good :
      (started : Time) (p : Pending)
      → Looped lo hi old p.0
      → Gives (Looped lo hi old) (conclude_run env m fuel started p)
  unfolding conclude_run
  conclude-Good started (r, (e, false)) l = record {
    gives = λ s s' b h.
        at_once (Looped lo hi old) s (s, finish started (env.now s.world) r e) (s', b) h
          (([], refl), finish-Looped lo hi old started (env.now s.world) r e l);
  }
  conclude-Good started (r, (e, true)) l = record {
    gives = λ s s' b h.
        (bind-Gives {Q = Looped lo hi old} (disarm-Gives env m background) (λ _ _.
            pure-Gives (finish started (env.now s.world) r e)
              (finish-Looped lo hi old started (env.now s.world) r e l))).gives
          s s' b h;
  }

-- A run under the armed watchdog.
pub record Watched (old_calls calls : List Call) (max : ℕ) (old : String) (r : Result)
    : Type 0 where
  pub watchdog : Disarmed old_calls calls
  pub result : Looped 1 max old r

pub guarded-Watched :
    {W : Type 0} (env : Env W) (m : Machine) (fuel : ℕ) (ctx : Context) (started : Time) (k : ℕ)
    (r : Result) (s s' : Sys W) (q : Result)
    → r.success ≡ false
    → k ≢ 0
    → guarded env m fuel ctx started k r s ≡ some (s', q)
    → Watched s.calls s'.calls k r.old_ip q
unfolding guarded
guarded-Watched env m fuel ctx started k r s s' q f positive h =
    let (s1, x, tried, h1) = feed-some (attempts env m fuel ctx k 1 r none s) _ h in
    let (s2, p, closed, h2) = feed-some (close env m fuel ctx x s1) _ h1 in
    let looped =
      (loop-Ends env m fuel ctx 1 k r.old_ip k 1 r none refl f (omega arith) (omega arith)
          (λ z. absurd (positive z))).gives
        s s1 x tried in
    let ended = (close-Good env m fuel 1 k r.old_ip ctx x looped.1).gives s1 s2 p closed in
    let concluded = (conclude-Good env m fuel 1 k r.old_ip started p ended.1).gives s2 s' q h2 in
    record {
      watchdog = before-Disarmed looped.0 (
          conclude-Disarmed env m fuel started p s1.calls s2 s' q h2 ended.0
            ((close-Stops env m fuel ctx x).stops s1 s2 p closed));
      result = concluded.1;
    }
