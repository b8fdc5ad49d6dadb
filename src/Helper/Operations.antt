-- ===== src/Helper/Operations.antt =====
-- The operations of `Runner` in agent/internal/helper/helper.go, on the runner and the world: a dry run
-- works on a simulated node, any other asks the helper and checks its answer.
use Prim.Native.String.{◌++◌ as str_append}
use vps_tool.Prelude.{
  ℕ, zero, suc, ◌+◌, ◌%◌, Bool, false, not, ◌&&◌, ◌||◌, Option, none, some, List, [], ◌∷◌, String,
  str_eq, ◌==◌, length, ℤ, pos, if◌then◌else◌,
}
use vps_tool.Common.{Bytes, Error, Result, ok, err, plain, Decoded}
use vps_tool.Validation.Paths.{absolute_path}
use vps_tool.Validation.Rules.{adapter_name, unit_name}
use vps_tool.WarpChange.Machine.{Context, WarpSnapshot, IpSnapshot}
use vps_tool.Manager.Waiting.{XuiSnapshot}
use vps_tool.Helper.Executable.{Programs}
use vps_tool.Helper.Calls.{
  Runner, DryRun, Exec, failed_call, default_helper_timeout, upgrade_helper_timeout, call,
  call_json_with_timeout,
}

abbrev pub is_warp_state : String → Bool
is_warp_state s = str_eq s "on" || (str_eq s "off" || (str_eq s "degraded" || str_eq s "unknown"))

abbrev pub is_xui_state : String → Bool
is_xui_state s =
    str_eq s "running"
    || (str_eq s "stopped" || (str_eq s "failed" || (str_eq s "not_found" || str_eq s "unknown")))

abbrev pub supported_adapters : List String
supported_adapters = "generic" ∷ "fixed-helper" ∷ "wgcf" ∷ "warp-cli" ∷ "warp-go" ∷ "dry-run" ∷ []

unfoldable pub is_supported : List String → String → Bool
is_supported [] s = false
is_supported (a ∷ more) s = str_eq a s || is_supported more s

abbrev simulated : DryRun
simulated = record {
  adapter_state = record { state = "on"; ipv4 = ""; ipv6 = "" };
  xui_state = record { state = "running" };
  ips = "198.51.100.10" ∷ "198.51.100.11" ∷ [];
  ip_index = 0;
}

-- `NewRunner`.
unfoldable pub new_runner :
    (String → String) → String → String → String → String → Bool → Result Runner
unfolding is_supported absolute_path
new_runner quoted path adapter unit state_path dry_run =
    if not (adapter_name adapter)
    then err (plain "invalid warp adapter name")
    else if not (is_supported supported_adapters adapter)
    then err (plain (str_append "unsupported warp adapter " (quoted adapter)))
    else if not (unit_name unit)
    then err (plain "invalid service name")
    else made (if str_eq path "" then none else absolute_path path "helper_path")
  where
    made : Option Error → Result Runner
    made (some e) = err e
    made none = ok (record {
      path = path;
      adapter = adapter;
      unit = unit;
      state_path = state_path;
      timeout = pos default_helper_timeout;
      dry_run = dry_run;
      escalate = not dry_run;
      dry = simulated;
    })

-- The answers of the helper, and the decoding of each.
pub record WarpResponse : Type 0 where
  pub state : String
  pub ipv4 : String
  pub ipv6 : String

pub record BackupResponse : Type 0 where
  pub method : String
  pub database : String

pub record UpgradeResult : Type 0 where
  pub version : String
  pub changed : Bool
  pub restart_scheduled : Bool

-- What `BackupXUI` returns.
pub record Backup : Type 0 where
  pub path : String
  pub method : String
  pub database : String

pub record Answers : Type 0 where
  pub warp : Bytes → Decoded WarpResponse
  pub xui : Bytes → Decoded XuiSnapshot
  pub ips : Bytes → Decoded IpSnapshot
  pub upgrade : Bytes → Decoded UpgradeResult
  pub backup : Bytes → Decoded BackupResponse
  pub extra : Bytes → Decoded (Unit {0})

pub record State (W : Type 0) : Type 0 where
  pub runner : Runner
  pub world : W

abbrev pub with_dry : {W : Type 0} → State W → DryRun → State W
with_dry s d = record s { runner = record s.runner { dry = d } }

abbrev get_or : List String → ℕ → String
get_or [] i = ""
get_or (x ∷ xs) zero = x
get_or (x ∷ xs) (suc i) = get_or xs i

abbrev pub checked_warp : Result WarpResponse → Result WarpSnapshot
checked_warp (err e) = err e
checked_warp (ok a) =
    if is_warp_state a.state
    then ok (record { state = a.state; ipv4 = a.ipv4; ipv6 = a.ipv6 })
    else err (failed_call "helper returned an invalid WARP state" none)

abbrev pub checked_xui : Result XuiSnapshot → Result XuiSnapshot
checked_xui (err e) = err e
checked_xui (ok a) =
    if is_xui_state a.state
    then ok a
    else err (failed_call "helper returned an invalid x-ui state" none)

abbrev pub checked_ips : Result IpSnapshot → Result IpSnapshot
checked_ips (err e) = err e
checked_ips (ok a) =
    if str_eq a.ipv4 "" && str_eq a.ipv6 ""
    then err (failed_call "helper returned empty exit IPs" none)
    else ok a

abbrev pub checked_ip : Result IpSnapshot → Result String
checked_ip (err e) = err e
checked_ip (ok a) =
    if str_eq a.ipv4 ""
    then err (failed_call "helper returned an empty IPv4 address" none)
    else ok a.ipv4

abbrev pub checked_upgrade : Result UpgradeResult → Result UpgradeResult
checked_upgrade (err e) = err e
checked_upgrade (ok a) =
    if str_eq a.version ""
    then err (failed_call "helper returned an empty release version" none)
    else ok a

abbrev pub as_backup : String → Result BackupResponse → Result Backup
as_backup p (err e) = err e
as_backup p (ok a) = ok (record { path = p; method = a.method; database = a.database })

module _ {W : Type 0} (exec : Exec W) (programs : Programs) (answers : Answers)
    (running : Bytes) where
  abbrev pub ask :
      {A : Type 0} → (Bytes → Decoded A) → Context → List String → ℤ → State W → State W × Result A
  ask decode c args timeout s =
      let (w, a) =
        call_json_with_timeout exec programs decode answers.extra running c s.runner args timeout
          s.world in
      (record s { world = w }, a)

  abbrev pub tell : Context → List String → State W → State W × Option Error
  tell c args s =
      let (w, e) = call exec programs running c s.runner args s.world in (record s { world = w }, e)

  unfoldable pub warp_status : Context → State W → State W × Result WarpSnapshot
  warp_status c s =
      if s.runner.dry_run
      then (s, ok s.runner.dry.adapter_state)
      else let (s', a) =
          ask answers.warp c ("warp" ∷ s.runner.adapter ∷ "status" ∷ []) s.runner.timeout s in
        (s', checked_warp a)

  abbrev set_warp : String → State W → State W
  set_warp state s =
      with_dry s (record s.runner.dry {
        adapter_state = record s.runner.dry.adapter_state { state = state };
      })

  unfoldable pub warp_on : Context → State W → State W × Option Error
  warp_on c s =
      if s.runner.dry_run
      then (set_warp "on" s, none)
      else tell c ("warp" ∷ s.runner.adapter ∷ "on" ∷ []) s

  unfoldable pub warp_off : Context → State W → State W × Option Error
  warp_off c s =
      if s.runner.dry_run
      then (set_warp "off" s, none)
      else tell c ("warp" ∷ s.runner.adapter ∷ "off" ∷ []) s

  abbrev next_ip : State W → State W × Result IpSnapshot
  next_ip s =
      let d = s.runner.dry in
      if length d.ips == 0 then (s, err (failed_call "dry-run IP sequence is empty" none)) else (
        with_dry s (record d { ip_index = d.ip_index + 1 }),
        ok (record { ipv4 = get_or d.ips (d.ip_index % length d.ips); ipv6 = "" }),
      )

  unfoldable pub get_ips : Context → State W → State W × Result IpSnapshot
  get_ips c s =
      if s.runner.dry_run
      then next_ip s
      else let (s', a) = ask answers.ips c ("ip" ∷ s.runner.adapter ∷ []) s.runner.timeout s in
        (s', checked_ips a)

  unfoldable pub get_ip : Context → State W → State W × Result String
  get_ip c s = let (s', a) = get_ips c s in (s', checked_ip a)

  unfoldable pub xui_status : Context → State W → State W × Result XuiSnapshot
  xui_status c s =
      if s.runner.dry_run
      then (s, ok s.runner.dry.xui_state)
      else let (s', a) =
          ask answers.xui c ("xui" ∷ s.runner.unit ∷ "status" ∷ []) s.runner.timeout s in
        (s', checked_xui a)

  unfoldable pub restart_xui : Context → State W → State W × Option Error
  restart_xui c s =
      if s.runner.dry_run
      then (with_dry s (record s.runner.dry { xui_state = record { state = "running" } }), none)
      else tell c ("xui" ∷ s.runner.unit ∷ "restart" ∷ []) s

  unfoldable pub upgrade : Context → State W → State W × Result UpgradeResult
  upgrade c s =
      if s.runner.dry_run
      then (s, ok (record { version = "dry-run"; changed = false; restart_scheduled = false }))
      else let (s', a) =
          ask answers.upgrade c ("upgrade" ∷ "latest" ∷ []) (pos upgrade_helper_timeout) s in
        (s', checked_upgrade a)

  unfoldable pub install_warp : Context → State W → State W × Result WarpSnapshot
  install_warp c s =
      if s.runner.dry_run
      then (s, ok (record { state = "on"; ipv4 = "198.51.100.10"; ipv6 = "2001:db8::10" }))
      else let (s', a) = ask answers.warp c ("warp" ∷ "install" ∷ []) s.runner.timeout s in
        (s', checked_warp a)

  abbrev then_status : Context → State W × Option Error → State W × Result XuiSnapshot
  then_status c (s, some e) = (s, err e)
  then_status c (s, none) = xui_status c s

  unfoldable pub install_xui : Context → State W → State W × Result XuiSnapshot
  install_xui c s =
      if s.runner.dry_run
      then (s, ok (record { state = "running" }))
      else then_status c (tell c ("xui" ∷ s.runner.unit ∷ "install" ∷ []) s)

  unfoldable pub backup_xui : Context → String → State W → State W × Result Backup
  backup_xui c p s =
      if s.runner.dry_run
      then (s, ok (record { path = p; method = "dry-run"; database = "/etc/x-ui/x-ui.db" }))
      else let (s', a) =
          ask answers.backup c ("xui" ∷ s.runner.unit ∷ "backup" ∷ p ∷ []) s.runner.timeout s in
        (s', as_backup p a)

  unfoldable pub restore_xui : Context → String → State W → State W × Option Error
  restore_xui c p s =
      if s.runner.dry_run then (s, none) else tell c ("xui" ∷ s.runner.unit ∷ "restore" ∷ p ∷ []) s

  -- The watchdog keeps the token of the last arming; `token` is a new random one, `unix` the deadline in
  -- seconds and `attempts` the attempts, as texts.
  unfoldable pub arm :
      Context → String → String → String → State W × String → (State W × String) × Option Error
  arm c token unix attempts (s, old) =
      if s.runner.dry_run
      then ((s, token), none)
      else let (s', e) =
          tell c ("watchdog" ∷ s.runner.adapter ∷ "arm" ∷ token ∷ unix ∷ attempts ∷ []) s in
        ((s', token), e)

  unfoldable pub disarm : Context → State W × String → (State W × String) × Option Error
  disarm c (s, token) =
      if s.runner.dry_run
      then ((s, token), none)
      else if str_eq token ""
      then ((s, token), none)
      else let (s', e) = tell c ("watchdog" ∷ s.runner.adapter ∷ "disarm" ∷ token ∷ []) s in
        ((s', token), e)
