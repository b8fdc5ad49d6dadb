-- ===== src/Manager/Operations.antt =====
-- The manager of agent/internal/warp/manager.go: its cache of exit addresses and its operations, on
-- the state of the manager and of the world.
use vps_tool.Prelude.{
  ℕ, ◌-◌, ◌*◌, Bool, true, not, ◌&&◌, Option, none, some, [], String, str_eq, ltb, pos,
  if◌then◌else◌,
}
use vps_tool.Common.{Time, Error}
use vps_tool.WarpChange.Machine.{
  WarpSnapshot, IpSnapshot, Env, caller, second, default_poll_interval, default_step_timeout,
  Machine, Options, Sys, Result,
}
use vps_tool.WarpChange.Run.{run}
use vps_tool.Manager.Waiting.{XuiSnapshot, Xui, operation_error, not_found, wait_warp, wait_xui}

-- The fields of `Manager` that are data: the two durations, the lifetime of the cache, and the cache.
pub record Manager : Type 0 where
  pub poll_interval : ℕ
  pub step_timeout : ℕ
  pub ip_ttl : ℕ
  pub cached : IpSnapshot
  pub cached_at : Time

pub record State (W : Type 0) : Type 0 where
  pub manager : Manager
  pub world : W

abbrev pub no_ips : IpSnapshot
no_ips = record { ipv4 = ""; ipv6 = "" }

-- `NewManager`, with its dependencies there.
abbrev pub new_manager : Manager
new_manager = record {
  poll_interval = default_poll_interval;
  step_timeout = default_step_timeout;
  ip_ttl = 5 * (60 * second);
  cached = no_ips;
  cached_at = 0;
}

unfoldable pub set_timings : ℕ → ℕ → Manager → Manager
set_timings poll step m = record m {
  poll_interval = if ltb 0 poll then poll else m.poll_interval;
  step_timeout = if ltb 0 step then step else m.step_timeout;
}

abbrev pub is_empty : IpSnapshot → Bool
is_empty ips = str_eq ips.ipv4 "" && str_eq ips.ipv6 ""

-- The cache holds an address and is young enough.
abbrev pub is_fresh : Time → Manager → Bool
is_fresh now m = not (is_empty m.cached) && ltb (now - m.cached_at) m.ip_ttl

unfoldable pub invalidate_ip : Manager → Manager
invalidate_ip m = record m { cached = no_ips; cached_at = 0 }

abbrev ip_check_failed : String → Error
ip_check_failed m = operation_error "ip_check_failed" m none

abbrev pub first_ip : IpSnapshot × Option Error → String × Option Error
first_ip (ips, some e) = ("", some e)
first_ip (ips, none) =
    if str_eq ips.ipv4 ""
    then ("", some (ip_check_failed "helper returned an empty IPv4 exit IP"))
    else (ips.ipv4, none)

-- What `toggle` returns: the snapshot, the note and the error.
abbrev pub Toggled : Type 0
Toggled = WarpSnapshot × (String × Option Error)

abbrev pub unknown : WarpSnapshot
unknown = record { state = "unknown"; ipv4 = ""; ipv6 = "" }

abbrev pub nothing : WarpSnapshot
nothing = record { state = ""; ipv4 = ""; ipv6 = "" }

abbrev pub desired : Bool → String
desired on = if on then "on" else "off"

abbrev pub already : Bool → String
already on = if on then "already_on" else "already_off"

-- What `RestartXUI` returns: the states before and after, and the error.
abbrev pub Restarted : Type 0
Restarted = XuiSnapshot × (XuiSnapshot × Option Error)

abbrev pub xui_unknown : XuiSnapshot
xui_unknown = record { state = "unknown" }

abbrev pub machine_of : Manager → Machine
machine_of m = record {
  ready = true;
  poll_interval = pos m.poll_interval;
  step_timeout = pos m.step_timeout;
}

module _ {W : Type 0} (env : Env W) where
  -- The answer of the helper, which is put into the cache if it has an address.
  unfoldable pub store_ips :
      Manager → W → IpSnapshot × Option Error → State W × (IpSnapshot × Option Error)
  store_ips m w (ips, some e) = (record { manager = m; world = w }, (no_ips, some e))
  store_ips m w (ips, none) =
      if is_empty ips
      then (
        record { manager = m; world = w },
        (no_ips, some (ip_check_failed "helper returned empty exit IPs")),
      )
      else (
        record { manager = record m { cached = ips; cached_at = env.now w }; world = w },
        (ips, none),
      )

  unfoldable pub get_ips : State W → State W × (IpSnapshot × Option Error)
  get_ips s =
      if is_fresh (env.now s.world) s.manager
      then (s, (s.manager.cached, none))
      else let (w, answer) = env.get_ips caller s.world in store_ips s.manager w answer

  unfoldable pub get_ip : State W → State W × (String × Option Error)
  get_ip s = let (s', answer) = get_ips s in (s', first_ip answer)

  abbrev pub switch : Bool → W → W × Option Error
  switch on w = if on then env.switch_on caller w else env.switch_off caller w

  abbrev pub waited :
      Manager → Option (W × (WarpSnapshot × Option Error)) → Option (State W × Toggled)
  waited m none = none
  waited m (some (w, (state, none))) =
      some (record { manager = m; world = w }, (state, ("ok", none)))
  waited m (some (w, (state, some e))) =
      some (record { manager = m; world = w }, (state, ("", some e)))

  -- `toggle` behind the switching.
  unfoldable pub switched : ℕ → Bool → Manager → W × Option Error → Option (State W × Toggled)
  switched fuel on m (w, some e) = some (record { manager = m; world = w }, (unknown, ("", some e)))
  switched fuel on m (w, none) =
      waited (invalidate_ip m) (wait_warp env m.poll_interval fuel (desired on) nothing none w)

  -- `toggle` behind the first look at the state.
  unfoldable pub looked :
      ℕ → Bool → Manager → W × (WarpSnapshot × Option Error) → Option (State W × Toggled)
  looked fuel on m (w, (state, some e)) =
      some (record { manager = m; world = w }, (unknown, ("", some e)))
  looked fuel on m (w, (state, none)) =
      if str_eq state.state (desired on)
      then some (record { manager = m; world = w }, (state, (already on, none)))
      else switched fuel on m (switch on w)

  unfoldable pub toggle : ℕ → Bool → State W → Option (State W × Toggled)
  toggle fuel on s = looked fuel on s.manager (env.warp_status caller s.world)

  abbrev pub with_before :
      XuiSnapshot → Option (W × (XuiSnapshot × Option Error)) → Option (W × Restarted)
  with_before before none = none
  with_before before (some (w, after)) = some (w, (before, after))

  -- `RestartXUI` behind the restart.
  unfoldable pub restarted :
      Xui W → ℕ → Manager → XuiSnapshot → W × Option Error → Option (W × Restarted)
  restarted xui fuel m before (w, some e) = some (w, (before, (xui_unknown, some e)))
  restarted xui fuel m before (w, none) =
      with_before before (wait_xui env m.poll_interval xui fuel "running" (record { state = "" }) w)

  -- `RestartXUI` behind the first look at the state.
  unfoldable pub found :
      Xui W → ℕ → Manager → W × (XuiSnapshot × Option Error) → Option (W × Restarted)
  found xui fuel m (w, (before, some e)) = some (w, (before, (xui_unknown, some e)))
  found xui fuel m (w, (before, none)) =
      if str_eq before.state "not_found"
      then some (w, (before, (before, some not_found)))
      else restarted xui fuel m before (xui.restart caller w)

  unfoldable pub restart_xui : Xui W → ℕ → Manager → W → Option (W × Restarted)
  restart_xui xui fuel m w = found xui fuel m (xui.status caller w)

  abbrev pub changed : Manager → Option (Sys W × Result) → Option (State W × Result)
  changed m none = none
  changed m (some (s, r)) = some (record { manager = invalidate_ip m; world = s.world }, r)

  -- `ChangeIP`: the machine runs, and then the cache is emptied.
  unfoldable pub change_ip : ℕ → Options → State W → Option (State W × Result)
  change_ip fuel o s =
      changed s.manager
        (run env (machine_of s.manager) fuel o (record { world = s.world; calls = [] }))
