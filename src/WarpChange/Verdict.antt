-- ===== src/WarpChange/Verdict.antt =====
-- The results of the attempts of `Run` of agent/internal/warpchange/state.go.
use vps_tool.Prelude.{
  ℕ, zero, suc, ◌+◌, ◌≤◌, ◌≡◌, ◌≢◌, refl, ◌∙◌, Bool, true, false, ◌⊎◌, inl, inr, Option, none, some,
  Option-cases, Bool-cases, [], String, str_eq, eq_iff, arith, if◌then◌else◌,
}
use vps_tool.Common.{Error}
use vps_tool.WarpChange.Machine.{WarpSnapshot, Machine, Context, Env, context_error, Result}
use vps_tool.WarpChange.Steps.{Act, is_on}
use vps_tool.WarpChange.Attempts.{
  Attempt, judge_final, check_final, judge_ip, check_ip, or_stage, after_on, after_off, await_off,
  attempt, attempts, is_off,
}
use vps_tool.WarpChange.Trace.{
  Gives, longer, Act-cases, bind-Gives, pure-Gives, error-Gives, state-Gives, on-Gives, off-Gives,
  ip-Gives, wait-Gives, at_once,
}

-- A result of a change that succeeded.
pub record Changed (r : Result) : Type 0 where
  pub code_ok : r.code ≡ "ok"
  pub new_address : r.new_ip ≢ r.old_ip
  pub has_address : r.new_ip ≢ ""
  pub is_on : r.final_state ≡ "on"

-- What an attempt that began with `r` may answer.
pub record Tried (r : Result) (x : Attempt) : Type 0 where
  pub same_old : x.0.old_ip ≡ r.old_ip
  pub same_attempts : x.0.attempts ≡ r.attempts
  pub verdict : (x.0.success ≡ false) ⊎ Changed x.0

failed-Tried : (r : Result) (e : Error) → r.success ≡ false → Tried r (r, some e)
failed-Tried r e f = record { same_old = refl; same_attempts = refl; verdict = inl f }

-- Both branches of a test, with what it answered.
pub on_test {ℓ κ} :
    {A : Type ℓ} (P : A → Type κ) (b : Bool) (x y : A)
    → (b ≡ true → P x)
    → (b ≡ false → P y)
    → P (if b then x else y)
on_test P true x y h k = h refl
on_test P false x y h k = k refl

final-Tried :
    (r : Result) (answer : WarpSnapshot × Option Error)
    → r.success ≡ false
    → r.new_ip ≢ r.old_ip
    → r.new_ip ≢ ""
    → Tried r (judge_final r answer)
final-Tried r (state, none) f n h =
    on_test (Tried r) (is_on state) _ _
      (λ on. record {
        same_old = refl;
        same_attempts = refl;
        verdict = inr (record {
          code_ok = refl;
          new_address = n;
          has_address = h;
          is_on = (eq_iff state.state "on").0 on;
        });
      })
      (λ off. record { same_old = refl; same_attempts = refl; verdict = inl f })
final-Tried r (state, some e) f n h = record {
  same_old = refl;
  same_attempts = refl;
  verdict = inl f;
}

module _ {W : Type 0} (env : Env W) (m : Machine) (fuel : ℕ) (ctx : Context) (r : Result)
    (f : r.success ≡ false) where
  new-Tried :
      (a : WarpSnapshot × Option Error) (ip : String)
      → str_eq ip "" ≡ false
      → str_eq ip r.old_ip ≡ false
      → Tried r (judge_final (record r { new_ip = ip }) a)
  new-Tried a ip some_ip new =
      let t =
        final-Tried (record r { new_ip = ip }) a f (λ e. ground (arith, new, eq_iff ip r.old_ip))
          (λ e. ground (arith, some_ip, eq_iff ip "")) in
      record { same_old = t.same_old; same_attempts = t.same_attempts; verdict = t.verdict }

  ip-Tried : (answer : String × Option Error) → Gives (Tried r) (judge_ip env m fuel ctx r answer)
  unfolding judge_ip check_final
  ip-Tried (ip, some e) = pure-Gives _ (failed-Tried r _ f)
  ip-Tried (ip, none) =
      on_test (Gives (Tried r)) (str_eq ip "") _ _ (λ _. pure-Gives _ (failed-Tried r _ f))
        (λ some_ip.
          on_test (Gives (Tried r)) (str_eq ip r.old_ip) _ _
            (λ _. pure-Gives _ (record { same_old = refl; same_attempts = refl; verdict = inl f }))
            (λ new.
              bind-Gives (state-Gives env m ctx)
                (λ a _. pure-Gives _ (new-Tried a ip some_ip new))))

  stage-Tried :
      (code : String) (rest : Act W Attempt) (e : Option Error)
      → Gives (Tried r) rest
      → Gives (Tried r) (or_stage env m fuel code r rest e)
  stage-Tried code rest e h = error-Gives e (λ x. pure-Gives _ (failed-Tried r _ f)) h

  attempt-Tried : Gives (Tried r) (attempt env m fuel ctx r)
  unfolding attempt await_off after_off after_on check_ip
  attempt-Tried = bind-Gives (off-Gives env m ctx) (λ e1 _. stage-Tried _ _ e1 (
      bind-Gives (wait-Gives env m is_off ctx fuel none) (λ e2 _. stage-Tried _ _ e2 (
        bind-Gives (on-Gives env m ctx) (λ e3 _. stage-Tried _ _ e3 (
          bind-Gives (wait-Gives env m is_on ctx fuel none)
            (λ e4 _. stage-Tried _ _ e4 (bind-Gives (ip-Gives env m ctx) (λ a _. ip-Tried a)))))))))

-- What the loop may answer: `old` is the old address, and the attempts lie between `lo` and `hi`.
pub record Looped (lo hi : ℕ) (old : String) (r : Result) : Type 0 where
  pub keeps_old : r.old_ip ≡ old
  pub at_least : lo ≤ r.attempts
  pub at_most : r.attempts ≤ hi
  pub verdict : (r.success ≡ false) ⊎ Changed r

module _ {W : Type 0} (env : Env W) (m : Machine) (fuel : ℕ) (ctx : Context) (lo hi : ℕ)
    (old : String) where
  abbrev Ends : Attempt → Type 0
  Ends x = Looped lo hi old x.0

  over-Ends :
      (n : ℕ) (r : Result) (e : Error)
      → r.old_ip ≡ old
      → r.success ≡ false
      → lo ≤ n
      → n ≤ hi
      → Ends (record r { attempts = n; code = "action_timeout" }, some e)
  over-Ends n r e o f l h = record { keeps_old = o; at_least = l; at_most = h; verdict = inl f }

  Tried-Ends :
      (n : ℕ) (r : Result) (x : Attempt)
      → Tried (record r { attempts = n }) x
      → r.old_ip ≡ old
      → lo ≤ n
      → n ≤ hi
      → Ends x
  Tried-Ends n r x t o l h = record {
    keeps_old = t.same_old ∙ o;
    at_least = rw t.same_attempts l;
    at_most = rw t.same_attempts h;
    verdict = t.verdict;
  }

  -- `k` attempts are left, and with none left the result is within the bounds already.
  pub loop-Ends :
      (k n : ℕ) (r : Result) (last : Option Error)
      → r.old_ip ≡ old
      → r.success ≡ false
      → lo ≤ n
      → n + k ≤ suc hi
      → (k ≡ 0 → Ends (r, last))
      → Gives Ends (attempts env m fuel ctx k n r last)
  unfolding attempts
  loop-Ends zero n r last o f l h d = record {
    gives = λ s s' b e. at_once Ends s (s, (r, last)) (s', b) e (([], refl), d refl);
  }
  loop-Ends (suc k) n r last o f l h d = record {
    gives = λ s s' b e. elim (Option-cases (context_error env ctx s.world)) [
      | inr (x, over) ↦
          at_once Ends s (s, (record r { attempts = n; code = "action_timeout" }, some x)) (s', b)
            (rw (over, attempts) at e) (([], refl), over-Ends n r x o f l (omega arith))
      | inl fine ↦ elim (Act-cases (attempt env m fuel ctx (record r { attempts = n }) s)) [
        | inl stuck ↦ cc (rw (fine, stuck, attempts) at e)
        | inr (s1, x, tried) ↦
            let first =
              (attempt-Tried env m fuel ctx (record r { attempts = n }) f).gives s s1 x tried in
            let within = Tried-Ends n r x first.1 o l (omega arith) in
            elim (Bool-cases x.0.success) [
              | inl good ↦
                  at_once Ends s (s1, x) (s', b) (rw (fine, tried, good, attempts) at e)
                    (first.0, within)
              | inr bad ↦
                  let rest =
                    (loop-Ends k (suc n) x.0 x.1 within.keeps_old bad (omega arith) (omega arith)
                        (λ _. within)).gives
                      s1 s' b (rw (fine, tried, bad, attempts) at e) in
                  (longer first.0 rest.0, rest.1)
            ]
      ]
    ];
  }
