-- ===== src/WarpChange/Trace.antt =====
-- What an action of agent/internal/warpchange/state.go leaves on record: its calls are put before the
-- earlier ones, and its value satisfies a predicate.
use mathlib.Core.Path.{subst}
use vps_tool.Prelude.{
  ℕ, zero, suc, ◌≡◌, refl, ◌∙◌, ap, Bool, true, false, ◌⊎◌, inl, inr, Option, none, some,
  Option-cases, List, [], ◌∷◌, ◌++◌, if◌then◌else◌,
}
use vps_tool.Common.{Error}
use vps_tool.WarpChange.Machine.{
  WarpSnapshot, Machine, Context, background, with_timeout, step_timeout, poll_interval,
  asked_status, asked_ips, turned_on, turned_off, disarmed, Env, context_error, Call, Sys,
}
use vps_tool.WarpChange.Steps.{
  Act, pure, ◌>>=◌, on_error, call, feed, current_state, step_on, step_off, with_ip, disarm, sleep,
  wait_for, poll, after_poll, pick_ip, step_context, succeeded, last_or, with_reason, reached,
  newer, give_reason, await_on, turn_back_on, recover_within, recover_on, is_on,
}

pub record Gives {W A : Type 0} (Q : A → Type 0) (m : Act W A) : Type 0 where
  pub gives :
      (s s' : Sys W) (a : A)
      → m s ≡ some (s', a)
      → ((new : List Call) × (s'.calls ≡ new ++ s.calls)) × Q a

abbrev pub Anything : {A : Type 0} → A → Type 0
Anything _ = Unit

append_assoc : (xs ys zs : List Call) → xs ++ (ys ++ zs) ≡ (xs ++ ys) ++ zs
append_assoc [] ys zs = refl
append_assoc (x ∷ xs) ys zs = ap (λ l. x ∷ l) (append_assoc xs ys zs)

pub longer :
    {old mid calls : List Call}
    → (new : List Call) × (mid ≡ new ++ old)
    → (new : List Call) × (calls ≡ new ++ mid)
    → (new : List Call) × (calls ≡ new ++ old)
longer {old} (n1, e1) (n2, e2) = (n2 ++ n1, e2 ∙ ap (λ l. n2 ++ l) e1 ∙ append_assoc n2 n1 old)

pub Act-cases :
    {W A : Type 0} (x : Option (Sys W × A))
    → (x ≡ none) ⊎ ((s : Sys W) × (a : A) × (x ≡ some (s, a)))
Act-cases none = inl refl
Act-cases (some (s, a)) = inr (s, a, refl)

pub feed-some :
    {W A B : Type 0} (x : Option (Sys W × A)) (f : A → Act W B) {t : Sys W × B}
    → feed x f ≡ some t
    → (s : Sys W) × (a : A) × (x ≡ some (s, a)) × (f a s ≡ some t)
feed-some none f e = cc
feed-some (some (s, a)) f e = (s, a, refl, e)

pub bind-Gives :
    {W A B : Type 0} {P : A → Type 0} {Q : B → Type 0} {m : Act W A} {f : A → Act W B}
    → Gives P m
    → ((a : A) → P a → Gives Q (f a))
    → Gives Q (m >>= f)
bind-Gives {m = m} {f = f} g h = record {
  gives = λ s s' b e.
      let (s1, a, first, rest) = feed-some (m s) f e in
      let before = g.gives s s1 a first in
      let after = (h a before.1).gives s1 s' b rest in (longer before.0 after.0, after.1);
}

-- What an action that has a value gives at once.
pub at_once :
    {W A : Type 0} (Q : A → Type 0) (s : Sys W) (x y : Sys W × A)
    → some x ≡ some y
    → ((new : List Call) × (x.0.calls ≡ new ++ s.calls)) × Q x.1
    → ((new : List Call) × (y.0.calls ≡ new ++ s.calls)) × Q y.1
at_once Q s x y e h =
    let same : x ≡ y = cc in
    subst (λ t. ((new : List Call) × (t.0.calls ≡ new ++ s.calls)) × Q t.1) same h

pub pure-Gives : {W A : Type 0} {Q : A → Type 0} (a : A) → Q a → Gives {W = W} Q (pure a)
pure-Gives {Q = Q} a q = record { gives = λ s s' b e. at_once Q s (s, a) (s', b) e (([], refl), q) }

pub call-Gives : {W A : Type 0} (note : A → Call) (f : W → W × A) → Gives Anything (call note f)
call-Gives note f = record {
  gives = λ s s' b e.
      let (w, a) = f s.world in
      at_once Anything s (record { world = w; calls = note a ∷ s.calls }, a) (s', b) e
        ((note a ∷ [], refl), tt);
}

pub error-Gives :
    {W A : Type 0} {Q : A → Type 0} {f : Error → Act W A} {g : Act W A} (e : Option Error)
    → ((x : Error) → Gives Q (f x))
    → Gives Q g
    → Gives Q (on_error f g e)
error-Gives none h k = k
error-Gives (some x) h k = h x

pub if-Gives :
    {W A : Type 0} {Q : A → Type 0} (b : Bool) (m n : Act W A)
    → Gives Q m
    → Gives Q n
    → Gives Q (if b then m else n)
if-Gives true m n g h = g
if-Gives false m n g h = h

module _ {W : Type 0} (env : Env W) (m : Machine) where
  pub state-Gives : (ctx : Context) → Gives Anything (current_state env m ctx)
  unfolding current_state
  state-Gives ctx = record {
    gives = λ s s' a e.
        (call-Gives (λ _. asked_status) (env.warp_status (step_context env m ctx s))).gives s s' a
          e;
  }

  pub on-Gives : (ctx : Context) → Gives Anything (step_on env m ctx)
  unfolding step_on
  on-Gives ctx = record {
    gives = λ s s' a e.
        (call-Gives (λ _. turned_on) (env.switch_on (step_context env m ctx s))).gives s s' a e;
  }

  pub off-Gives : (ctx : Context) → Gives Anything (step_off env m ctx)
  unfolding step_off
  off-Gives ctx = record {
    gives = λ s s' a e.
        (call-Gives (λ _. turned_off) (env.switch_off (step_context env m ctx s))).gives s s' a e;
  }

  pub ip-Gives : (ctx : Context) → Gives Anything (with_ip env m ctx)
  unfolding with_ip
  ip-Gives ctx =
      bind-Gives {P = Anything}
        (record {
          gives = λ s s' a e.
              (call-Gives (λ _. asked_ips) (env.get_ips (step_context env m ctx s))).gives s s' a e;
        })
        (λ a _. pure-Gives (pick_ip a) tt)

  pub disarm-Gives : (ctx : Context) → Gives Anything (disarm env m ctx)
  unfolding disarm
  disarm-Gives ctx = call-Gives (λ e. disarmed (succeeded e)) (env.disarm ctx)

  sleep-Gives : (ctx : Context) → Gives Anything (sleep env m ctx)
  unfolding sleep
  sleep-Gives ctx = record {
    gives = λ s s' b e.
        let (w, a) = env.sleep ctx (poll_interval m) s.world in
        at_once Anything s (record s { world = w }, a) (s', b) e (([], refl), tt);
  }

  poll-Gives :
      (p : WarpSnapshot → Bool) (ctx : Context) (last : Option Error)
      (rest : Option Error → Act W (Option Error))
      → ((e : Option Error) → Gives Anything (rest e))
      → Gives Anything (poll env m p ctx last rest)
  unfolding poll after_poll
  poll-Gives p ctx last rest h = bind-Gives (state-Gives ctx) (λ answer _.
      if-Gives (reached p answer) (pure none) _ (pure-Gives none tt) (
        bind-Gives (sleep-Gives ctx)
          (λ e _. error-Gives e (λ x. pure-Gives (some x) tt) (h (newer answer.1 last)))))

  pub wait-Gives :
      (p : WarpSnapshot → Bool) (ctx : Context) (fuel : ℕ) (last : Option Error)
      → Gives Anything (wait_for env m p ctx fuel last)
  unfolding wait_for
  wait-Gives p ctx zero last = record { gives = λ s s' b e. cc }
  wait-Gives p ctx (suc fuel) last = record {
    gives = λ s s' b e. elim (Option-cases (context_error env ctx s.world)) [
      | inl fine ↦
          (poll-Gives p ctx last (λ e. wait_for env m p ctx fuel e)
              (λ x. wait-Gives p ctx fuel x)).gives
            s s' b (rw (fine, wait_for) at e)
      | inr (x, over) ↦
          at_once Anything s (s, some (last_or last x)) (s', b) (rw (over, wait_for) at e)
            (([], refl), tt)
    ];
  }

  reason-Gives : (x : Error) → Gives Anything (give_reason env m x)
  unfolding give_reason
  reason-Gives x = bind-Gives (state-Gives background) (λ a _. pure-Gives (with_reason x a) tt)

  await-Gives : (fuel : ℕ) (ctx : Context) → Gives Anything (await_on env m fuel ctx)
  unfolding await_on
  await-Gives fuel ctx =
      bind-Gives (wait-Gives is_on ctx fuel none)
        (λ e _. error-Gives e reason-Gives (state-Gives background))

  back-Gives : (fuel : ℕ) (ctx : Context) → Gives Anything (turn_back_on env m fuel ctx)
  unfolding turn_back_on
  back-Gives fuel ctx =
      bind-Gives (call-Gives (λ _. turned_on) (env.switch_on ctx))
        (λ e _. error-Gives e reason-Gives (await-Gives fuel ctx))

  within-Gives : (fuel : ℕ) (ctx : Context) → Gives Anything (recover_within env m fuel ctx)
  unfolding recover_within
  within-Gives fuel ctx =
      bind-Gives (state-Gives ctx)
        (λ a _. if-Gives (reached is_on a) _ _ (pure-Gives (a.0, none) tt) (back-Gives fuel ctx))

  pub recover-Gives : (fuel : ℕ) → Gives Anything (recover_on env m fuel)
  unfolding recover_on
  recover-Gives fuel = record {
    gives = λ s s' b e.
        (within-Gives fuel (with_timeout env (step_timeout m) background s.world)).gives s s' b e;
  }
