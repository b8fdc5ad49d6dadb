-- ===== src/Tests/HelperRuns.antt =====
-- A helper that is installed as the installer leaves it, run through sudo, and a dry run.
use vps_tool.Prelude.{
  ◌↔◌, ℕ, ◌+◌, ◌≡◌, refl, ap, true, false, none, some, List, [], ◌∷◌, str_eq, pos, if◌then◌else◌,
}
use vps_tool.Common.{Bytes, Result, plain, ok, malformed}
use vps_tool.Validation.Paths.{absolute_path}
use vps_tool.WarpChange.Machine.{background}
use vps_tool.Helper.Output.{no_output, write, read_from}
use vps_tool.Helper.Returned.{judged_iff, Answered, call_output-Answered}
use vps_tool.Helper.Executable.{
  Stat, found, unknown, not_exist, Programs, validate_info, validate_owner, validate_executable,
  find_escalator, find_privilege_escalator,
}
use vps_tool.Helper.Calls.{Runner, DryRun, Exec, Command, judge, judged, call_output_with_timeout}
use vps_tool.Helper.Trust.{Guarded, call_output-Guarded}
use vps_tool.Helper.Operations.{Answers, State}
use vps_tool.Helper.Simulated.{
  Operation, turns_off, asks_warp, asks_ip, restarts, after_all, IsDry, after_all-IsDry,
}

write_run :
    write (1 ∷ 2 ∷ []) no_output ≡ (record { content = 1 ∷ 2 ∷ []; exceeded = false }, (2, none))
unfolding write
write_run = refl

abbrev of_root : Stat
of_root = found (record { regular = true; mode = 0x1ED; owner = some 0 })

abbrev usual : Programs
usual = record {
  stat = λ p.
      if str_eq p "/usr/bin/sudo"
      then of_root
      else if str_eq p "/opt/helper"
      then of_root
      else unknown (not_exist (plain "file does not exist"));
  quoted = λ p. p;
}

abbrev simulated_node : DryRun
simulated_node = record {
  adapter_state = record { state = "on"; ipv4 = ""; ipv6 = "" };
  xui_state = record { state = "running" };
  ips = "198.51.100.10" ∷ [];
  ip_index = 0;
}

abbrev real_runner : Runner
real_runner = record {
  path = "/opt/helper";
  adapter = "wgcf";
  unit = "x-ui";
  state_path = "";
  timeout = pos 0;
  dry_run = false;
  escalate = true;
  dry = simulated_node;
}

-- A world that counts commands.
abbrev counting : Exec ℕ
counting = record {
  run = λ c command n. (n + 1, record { out = 123 ∷ []; errors = []; over = none; failure = none });
  trim_space = λ b. b;
  text = λ b. "";
}

one_call :
    call_output_with_timeout counting usual [] background real_runner ("ip" ∷ "wgcf" ∷ []) (pos 0) 0
    ≡ (1, ok (123 ∷ []))
unfolding call_output_with_timeout validate_executable validate_info validate_owner
    find_privilege_escalator find_escalator judged judge read_from
one_call = refl

abbrev one_command : Command
one_command = record { path = "/opt/helper"; args = "ip" ∷ "wgcf" ∷ []; timeout = 0 }

judged_iff_example : (judged counting (counting.run background one_command 0).1 ≡ ok (123 ∷ [])) ↔ (
    ((counting.run background one_command 0).1.over ≡ none)
    × ((counting.run background one_command 0).1.failure ≡ none)
    × ((counting.run background one_command 0).1.out ≡ 123 ∷ []))
judged_iff_example = judged_iff counting (123 ∷ []) (counting.run background one_command 0).1

call_output-Guarded_example : Guarded counting usual background real_runner ("ip" ∷ "wgcf" ∷ []) 0 (
    call_output_with_timeout counting usual [] background real_runner
      ("ip" ∷ "wgcf" ∷ [])
      (pos 0)
      0)
call_output-Guarded_example =
    call_output-Guarded counting usual background real_runner ("ip" ∷ "wgcf" ∷ []) [] (pos 0) 0

call_output-Answered_example :
    Answered counting usual background real_runner
      ("ip" ∷ "wgcf" ∷ [])
      (123 ∷ [])
      0
      (call_output_with_timeout counting usual [] background real_runner
        ("ip" ∷ "wgcf" ∷ [])
        (pos 0)
        0).0
call_output-Answered_example =
    call_output-Answered counting usual background real_runner ("ip" ∷ "wgcf" ∷ []) [] (pos 0) 0
      (123 ∷ []) refl (ap (λ (x : ℕ × Result Bytes). x.1) one_call)

abbrev no_answers : Answers
no_answers = record {
  warp = λ b. malformed "";
  xui = λ b. malformed "";
  ips = λ b. malformed "";
  upgrade = λ b. malformed "";
  backup = λ b. malformed "";
  extra = λ b. malformed "";
}

abbrev dry_state : State ℕ
dry_state = record { runner = record real_runner { dry_run = true }; world = 0 }

abbrev some_operations : List Operation
some_operations = turns_off ∷ asks_warp ∷ asks_ip ∷ restarts ∷ []

dry_state-IsDry : IsDry counting usual no_answers [] background 0 dry_state
dry_state-IsDry = record { dry_run = refl; untouched = refl; warp = refl; xui = refl }

after_all-IsDry_example :
    IsDry counting usual no_answers [] background 0
      (after_all counting usual no_answers [] background some_operations dry_state)
after_all-IsDry_example =
    after_all-IsDry counting usual no_answers [] background 0 some_operations dry_state
      dry_state-IsDry

path_runs :
    (absolute_path "/opt/a/../b/helper" "helper_path" ≡ none)
    × (absolute_path "/opt/a\\..\\b" "helper_path"
        ≡ some (plain "helper_path must not contain parent-directory traversal"))
unfolding absolute_path
path_runs = (refl, refl)
