-- ===== src/WarpChange/Steps.antt =====
-- The bounded steps of agent/internal/warpchange/state.go (`step`, `withIP`, `currentState`), its
-- waiting (`waitFor`) and the recovery (`recoverOn`). An action gives a new state and a value, or
-- `none` when the fuel of the waiting ran out.
use vps_tool.Prelude.{
  ℕ, zero, suc, Bool, true, false, not, Option, none, some, ◌∷◌, String, str_eq, if◌then◌else◌, ℤ,
}
use vps_tool.Common.{Time, Error}
use vps_tool.WarpChange.Machine.{
  warp_on, WarpSnapshot, IpSnapshot, Machine, poll_interval, step_timeout, Context, background, Env,
  context_error, with_timeout, Call, asked_status, asked_ips, turned_on, turned_off, armed,
  disarmed, Sys, join_errors,
}

abbrev pub Act : Type 0 → Type 0 → Type 0
Act W A = Sys W → Option (Sys W × A)

abbrev pub pure : {W A : Type 0} → A → Act W A
pure a s = some (s, a)

abbrev pub feed : {W A B : Type 0} → Option (Sys W × A) → (A → Act W B) → Option (Sys W × B)
feed none f = none
feed (some (s, a)) f = f a s

infixl 10 ◌>>=◌
abbrev pub ◌>>=◌ : {W A B : Type 0} → Act W A → (A → Act W B) → Act W B
◌>>=◌ m f s = feed (m s) f

-- `if err != nil` with what is done then, and what is done else.
abbrev pub on_error : {W A : Type 0} → (Error → Act W A) → Act W A → Option Error → Act W A
on_error f g none = g
on_error f g (some e) = f e

-- A call of the environment, put on record.
abbrev pub call : {W A : Type 0} → (A → Call) → (W → W × A) → Act W A
call note f s = let (w, a) = f s.world in some (record { world = w; calls = note a ∷ s.calls }, a)

abbrev pub succeeded : Option Error → Bool
succeeded none = true
succeeded (some _) = false

abbrev pub last_or : Option Error → Error → Error
last_or none e = e
last_or (some x) e = x

-- What a poll adds to the last error.
abbrev pub newer : Option Error → Option Error → Option Error
newer none last = last
newer (some e) last = some e

-- The answer of a poll is the awaited state.
abbrev pub reached : (WarpSnapshot → Bool) → WarpSnapshot × Option Error → Bool
reached p (state, none) = p state
reached p (state, some _) = false

abbrev pub is_on : WarpSnapshot → Bool
is_on state = str_eq state.state warp_on

abbrev pub with_reason : Error → WarpSnapshot × Option Error → WarpSnapshot × Option Error
with_reason reason (state, none) = (state, some reason)
with_reason reason (state, some e) = (state, some (join_errors reason e))

abbrev pub pick_ip : IpSnapshot × Option Error → String × Option Error
pick_ip (ips, some e) = ("", some e)
pick_ip (ips, none) = (if not (str_eq ips.ipv6 "") then ips.ipv6 else ips.ipv4, none)

module _ {W : Type 0} (env : Env W) (m : Machine) where
  -- The context of one step.
  abbrev pub step_context : Context → Sys W → Context
  step_context ctx s = with_timeout env (step_timeout m) ctx s.world

  unfoldable pub current_state : Context → Act W (WarpSnapshot × Option Error)
  current_state ctx s = call (λ _. asked_status) (env.warp_status (step_context ctx s)) s

  unfoldable pub step_on : Context → Act W (Option Error)
  step_on ctx s = call (λ _. turned_on) (env.switch_on (step_context ctx s)) s

  unfoldable pub step_off : Context → Act W (Option Error)
  step_off ctx s = call (λ _. turned_off) (env.switch_off (step_context ctx s)) s

  -- `withIP`: the IPv6 address if there is one, else the IPv4 address.
  unfoldable pub with_ip : Context → Act W (String × Option Error)
  with_ip ctx = do
    answer ← λ s. call (λ _. asked_ips) (env.get_ips (step_context ctx s)) s
    pure (pick_ip answer)

  unfoldable pub arm : Context → Time → ℤ → Act W (Option Error)
  arm ctx deadline attempts = call (λ e. armed (succeeded e)) (env.arm ctx deadline attempts)

  unfoldable pub disarm : Context → Act W (Option Error)
  disarm ctx = call (λ e. disarmed (succeeded e)) (env.disarm ctx)

  unfoldable pub sleep : Context → Act W (Option Error)
  sleep ctx s =
      let (w, e) = env.sleep ctx (poll_interval m) s.world in some (record s { world = w }, e)

  -- Behind a poll; `rest` is the loop from then on, given the last error.
  unfoldable pub after_poll :
      (WarpSnapshot → Bool)
      → Context
      → Option Error
      → (Option Error → Act W (Option Error))
      → WarpSnapshot × Option Error
      → Act W (Option Error)
  after_poll p ctx last rest answer =
      if reached p answer
      then pure none
      else sleep ctx >>= on_error (λ e. pure (some e)) (rest (newer answer.1 last))

  unfoldable pub poll :
      (WarpSnapshot → Bool)
      → Context
      → Option Error
      → (Option Error → Act W (Option Error))
      → Act W (Option Error)
  poll p ctx last rest = current_state ctx >>= after_poll p ctx last rest

  -- `waitFor`: one unit of fuel for each poll.
  unfoldable pub wait_for :
      (WarpSnapshot → Bool) → Context → ℕ → Option Error → Act W (Option Error)
  wait_for p ctx zero last s = none
  wait_for p ctx (suc fuel) last s = elim (context_error env ctx s.world) [
    | some e ↦ some (s, some (last_or last e))
    | none ↦ poll p ctx last (λ e. wait_for p ctx fuel e) s
  ]

  -- The state after a recovery that failed for a reason.
  unfoldable pub give_reason : Error → Act W (WarpSnapshot × Option Error)
  give_reason reason = do answer ← current_state background; pure (with_reason reason answer)

  -- The waiting of `recoverOn`, and the state after it.
  unfoldable pub await_on : ℕ → Context → Act W (WarpSnapshot × Option Error)
  await_on fuel ctx = do
    e ← wait_for is_on ctx fuel none
    on_error give_reason (current_state background) e

  unfoldable pub turn_back_on : ℕ → Context → Act W (WarpSnapshot × Option Error)
  turn_back_on fuel ctx = do
    e ← call (λ _. turned_on) (env.switch_on ctx)
    on_error give_reason (await_on fuel ctx) e

  unfoldable pub recover_within : ℕ → Context → Act W (WarpSnapshot × Option Error)
  recover_within fuel ctx = do
    answer ← current_state ctx
    if reached is_on answer then pure (answer.0, none) else turn_back_on fuel ctx

  -- `recoverOn`: its context ends one step timeout from now.
  unfoldable pub recover_on : ℕ → Act W (WarpSnapshot × Option Error)
  recover_on fuel s = recover_within fuel (with_timeout env (step_timeout m) background s.world) s
