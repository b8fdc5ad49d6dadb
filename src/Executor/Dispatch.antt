-- ===== src/Executor/Dispatch.antt =====
-- `execute`, `backupXUI` and `restoreXUI` of agent/internal/action/executor.go: one action, from its
-- name to its result. The operations of the node are given by a `Node` over a state `W` of the world.
use vps_tool.Prelude.{
  ℕ, suc, ◌-◌, ◌*◌, Bool, false, Option, none, some, String, str_eq, ℤ, pos, negsuc, if◌then◌else◌,
}
use vps_tool.Common.{Bytes, Time, Error, Result, ok, err}
use vps_tool.Protocol.Messages.{Json, Command, ChangeIpParameters}
use vps_tool.Protocol.Commands.{decode_change_ip, decode_backup}
use vps_tool.WarpChange.Machine.{Options}
use vps_tool.Executor.Results.{ActionResult, error_code}

-- The deadline of the context that an operation runs under.
abbrev pub Deadline : Type 0
Deadline = Option Time

-- What the executor reads of a `warpchange.Result`.
pub record Change (P : Type 0) : Type 0 where
  pub success : Bool
  pub code : String
  pub message : String
  pub payload : P

-- The operations of manager, collector and upgrader. Each gives a payload and perhaps an error.
pub record Node (W P : Type 0) : Type 0 where
  pub now : W → Time
  pub collect : Deadline → W → W × (Option P × Option Error)
  pub get_ips : Deadline → W → W × (Option P × Option Error)
  pub turn_on : Deadline → W → W × (Option P × Option Error)
  pub turn_off : Deadline → W → W × (Option P × Option Error)
  pub change_ip : Deadline → Options → W → W × Change P
  pub restart_xui : Deadline → W → W × (Option P × Option Error)
  pub upgrade : Deadline → W → W × (Option P × Option Error)

-- The `Installer` and the `BackupTransport`, each of which may be nil, and `os.Remove`. `with_upload`
-- puts the id, size and checksum into the metadata of a backup.
pub record Installer (W P : Type 0) : Type 0 where
  pub install_warp : Deadline → W → W × (Option P × Option Error)
  pub install_xui : Deadline → W → W × (Option P × Option Error)
  pub backup_path : String → W → W × Result String
  pub backup_xui : Deadline → String → W → W × Result P
  pub restore_xui : Deadline → String → W → W × Option Error
  pub remove : String → W → W

pub record Transport (W P : Type 0) : Type 0 where
  pub upload : Deadline → String → String → W → W × Result (ℕ × String)
  pub download : Deadline → String → String → W → W × Result (ℕ × String)
  pub with_upload : P → String → ℕ → String → P
  pub restored : String → ℕ → String → P

-- An `executorError`.
abbrev pub unsupported : String → Error
unsupported m = record {
  message = m;
  code = some "unsupported_action";
  validation = none;
  deadline = false;
}

-- `time.Duration(seconds) * time.Second`.
abbrev pub seconds : ℤ → ℤ
seconds (pos n) = pos (n * 1_000_000_000)
seconds (negsuc n) = negsuc (suc n * 1_000_000_000 - 1)

abbrev pub or_zero : Option ℤ → ℤ
or_zero none = pos 0
or_zero (some v) = v

unfoldable pub change_options : ChangeIpParameters → Options
change_options p = record {
  max_attempts = or_zero p.max_attempts;
  timeout = seconds (or_zero p.timeout_seconds);
}

-- The end of `execute`: an error makes the result a failure, else it is a success.
unfoldable pub conclude : {P : Type 0} → Command → Time → Option P → Option Error → ActionResult P
unfolding error_code
conclude c now payload (some e) = record {
  request_id = c.request_id;
  action = c.action;
  state = "failed";
  code = error_code e "helper_failed";
  message = e.message;
  result = payload;
  finished_at = now;
}
conclude c now payload none = record {
  request_id = c.request_id;
  action = c.action;
  state = "succeeded";
  code = "ok";
  message = "action completed";
  result = payload;
  finished_at = now;
}

abbrev pub Operation : Type 0 → Type 0 → Type 0
Operation W P = W → W × (Option P × Option Error)

abbrev pub refuse : {W P : Type 0} → Error → Operation W P
refuse e w = (w, (none, some e))

abbrev pub from_result : {W P : Type 0} → W × Result P → W × (Option P × Option Error)
from_result (w, ok p) = (w, (some p, none))
from_result (w, err e) = (w, (none, some e))

-- A step that fails ends the operation; `k` is the rest.
abbrev pub then_do : {W A P : Type 0} → W × Result A → (A → W → W × Result P) → W × Result P
then_do (w, ok a) k = k a w
then_do (w, err e) k = (w, err e)

abbrev pub then_check : {W P : Type 0} → W × Option Error → (W → W × Result P) → W × Result P
then_check (w, none) k = k w
then_check (w, some e) k = (w, err e)

-- The deferred `os.Remove(path)`.
abbrev pub and_remove : {W P : Type 0} → Installer W P → String → W × Result P → W × Result P
and_remove i path (w, r) = (i.remove path w, r)

module _ {W P : Type 0} (json : Json) (ctx : Deadline) (raw : Bytes) where
  -- `backupXUI` with both dependencies there.
  unfoldable pub backup_with : Installer W P → Transport W P → W → W × Result P
  backup_with i t w =
      then_do (w, decode_backup json raw)
        λ p w1. then_do (i.backup_path p.backup_id w1) λ path w2. and_remove i path (
          then_do (i.backup_xui ctx path w2) λ metadata w3.
            then_do (t.upload ctx p.backup_id path w3)
              λ sent w4. (w4, ok (t.with_upload metadata p.backup_id sent.0 sent.1)))

  -- `restoreXUI` with both dependencies there.
  unfoldable pub restore_with : Installer W P → Transport W P → W → W × Result P
  restore_with i t w =
      then_do (w, decode_backup json raw)
        λ p w1. then_do (i.backup_path p.backup_id w1) λ path w2. and_remove i path (
          then_do (t.download ctx p.backup_id path w2) λ got w3.
            then_check (i.restore_xui ctx path w3)
              λ w4. (w4, ok (t.restored p.backup_id got.0 got.1)))

  unfoldable pub backup_xui : Option (Installer W P) → Option (Transport W P) → Operation W P
  unfolding backup_with
  backup_xui (some i) (some t) w = from_result (backup_with i t w)
  backup_xui _ _ w = refuse (unsupported "x-ui backup transport is not available") w

  unfoldable pub restore_xui : Option (Installer W P) → Option (Transport W P) → Operation W P
  unfolding restore_with
  restore_xui (some i) (some t) w = from_result (restore_with i t w)
  restore_xui _ _ w = refuse (unsupported "x-ui restore transport is not available") w

-- An operation of the installer, which may be missing.
abbrev pub with_installer :
    {W P : Type 0}
    → Option (Installer W P)
    → String
    → (Installer W P → Operation W P)
    → Operation W P
with_installer none m f = refuse (unsupported m)
with_installer (some i) m f = f i

module _ {W P : Type 0} (json : Json) (node : Node W P) (ctx : Deadline) (c : Command) where
  -- An action that is one operation.
  unfoldable pub run_operation : Operation W P → W → W × ActionResult P
  unfolding conclude
  run_operation op w = let (w', answer) = op w in (w', conclude c (node.now w') answer.0 answer.1)

  abbrev changed : Change P → Time → ActionResult P
  changed r now = record {
    request_id = c.request_id;
    action = c.action;
    state = "succeeded";
    code = "ok";
    message = r.message;
    result = some r.payload;
    finished_at = now;
  }

  -- The `change_ip` case. The code and message that it puts into the result of a change that did not
  -- succeed are overwritten behind the `switch`, where the error is nil.
  unfoldable pub run_change : ChangeIpParameters → W → W × ActionResult P
  unfolding conclude change_options
  run_change p w =
      let (w', r) = node.change_ip ctx (change_options p) w in
      (
        w',
        if r.success
            then changed r (node.now w')
            else conclude c (node.now w') (some r.payload) none,
      )

  unfoldable pub run_change_ip : W → W × ActionResult P
  run_change_ip w = elim (decode_change_ip json c.parameters) [
    | err e ↦ (w, conclude c (node.now w) none (some e))
    | ok p ↦ run_change p w
  ]

  unfoldable pub run_action :
      Option (Installer W P) → Option (Transport W P) → W → W × ActionResult P
  run_action installer transport w =
      if str_eq c.action "get_status"
      then run_operation (node.collect ctx) w
      else if str_eq c.action "get_ip"
      then run_operation (node.get_ips ctx) w
      else if str_eq c.action "warp_on"
      then run_operation (node.turn_on ctx) w
      else if str_eq c.action "warp_off"
      then run_operation (node.turn_off ctx) w
      else if str_eq c.action "change_ip"
      then run_change_ip w
      else if str_eq c.action "restart_xui"
      then run_operation (node.restart_xui ctx) w
      else if str_eq c.action "upgrade_agent"
      then run_operation (node.upgrade ctx) w
      else if str_eq c.action "install_warp"
      then run_operation
          (with_installer installer "WARP installer is not available" (λ i. i.install_warp ctx)) w
      else if str_eq c.action "install_xui"
      then run_operation
          (with_installer installer "x-ui installer is not available" (λ i. i.install_xui ctx)) w
      else if str_eq c.action "backup_xui"
      then run_operation (backup_xui json ctx c.parameters installer transport) w
      else if str_eq c.action "restore_xui"
      then run_operation (restore_xui json ctx c.parameters installer transport) w
      else run_operation (refuse (unsupported "action is not supported by this agent")) w
