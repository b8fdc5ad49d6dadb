-- ===== src/Helper/Simulated.antt =====
-- Dry runs of agent/internal/helper/helper.go: sequences of operations on the simulated node.
use vps_tool.Prelude.{◌≡◌, refl, Bool, true, false, Option, List, [], ◌∷◌, String, arith}
use vps_tool.Common.{Bytes, Error}
use vps_tool.WarpChange.Machine.{Context}
use vps_tool.WarpChange.Verdict.{on_test}
use vps_tool.Helper.Executable.{Programs}
use vps_tool.Helper.Calls.{Exec}
use vps_tool.Helper.Operations.{
  Answers, State, is_warp_state, is_xui_state, warp_status, warp_on, warp_off, get_ips, get_ip,
  xui_status, restart_xui, upgrade, install_warp, install_xui, backup_xui, restore_xui, arm, disarm,
}

-- The operations, with their arguments.
pub data Operation : Type 0 where
  asks_warp : Operation
  turns_on : Operation
  turns_off : Operation
  asks_ips : Operation
  asks_ip : Operation
  asks_xui : Operation
  restarts : Operation
  upgrades : Operation
  installs_warp : Operation
  installs_xui : Operation
  backs_up : String → Operation
  restores : String → Operation
  arms : String → String → String → Operation
  disarms : String → Operation

wet : (b : Bool) → b ≡ true → b ≡ false → ⊥
wet b h k = cc

module _ {W : Type 0} (exec : Exec W) (programs : Programs) (answers : Answers) (running : Bytes)
    (c : Context) where
  unfoldable pub after : Operation → State W → State W
  after asks_warp s = (warp_status exec programs answers running c s).0
  after turns_on s = (warp_on exec programs answers running c s).0
  after turns_off s = (warp_off exec programs answers running c s).0
  after asks_ips s = (get_ips exec programs answers running c s).0
  after asks_ip s = (get_ip exec programs answers running c s).0
  after asks_xui s = (xui_status exec programs answers running c s).0
  after restarts s = (restart_xui exec programs answers running c s).0
  after upgrades s = (upgrade exec programs answers running c s).0
  after installs_warp s = (install_warp exec programs answers running c s).0
  after installs_xui s = (install_xui exec programs answers running c s).0
  after (backs_up p) s = (backup_xui exec programs answers running c p s).0
  after (restores p) s = (restore_xui exec programs answers running c p s).0
  after (arms t u n) s = (arm exec programs answers running c t u n (s, "")).0.0
  after (disarms t) s = (disarm exec programs answers running c (s, t)).0.0

  unfoldable pub after_all : List Operation → State W → State W
  after_all [] s = s
  after_all (o ∷ os) s = after_all os (after o s)

  -- A dry run on a world, with states that the protocol knows.
  pub record IsDry (world : W) (s : State W) : Type 0 where
    pub dry_run : s.runner.dry_run ≡ true
    pub untouched : s.world ≡ world
    pub warp : is_warp_state s.runner.dry.adapter_state.state ≡ true
    pub xui : is_xui_state s.runner.dry.xui_state.state ≡ true

  after-IsDry : (world : W) (o : Operation) (s : State W) → IsDry world s → IsDry world (after o s)
  unfolding after warp_status warp_on warp_off get_ips get_ip xui_status restart_xui upgrade
      install_warp install_xui backup_xui restore_xui arm disarm
  after-IsDry world turns_on s d =
      on_test (λ (x : State W × Option Error). IsDry world x.0) s.runner.dry_run _ _
        (λ dry. record { dry_run = dry; untouched = d.untouched; warp = refl; xui = d.xui })
        (λ real. absurd (wet s.runner.dry_run d.dry_run real))
  after-IsDry world turns_off s d =
      on_test (λ (x : State W × Option Error). IsDry world x.0) s.runner.dry_run _ _
        (λ dry. record { dry_run = dry; untouched = d.untouched; warp = refl; xui = d.xui })
        (λ real. absurd (wet s.runner.dry_run d.dry_run real))
  after-IsDry world restarts s d =
      on_test (λ (x : State W × Option Error). IsDry world x.0) s.runner.dry_run _ _
        (λ dry. record { dry_run = dry; untouched = d.untouched; warp = d.warp; xui = refl })
        (λ real. absurd (wet s.runner.dry_run d.dry_run real))
  after-IsDry world o s d = ground arith

  -- In a dry run no sequence of operations runs a command: the world stays as it is, the runner
  -- stays a dry one, and the simulated states of WARP and x-ui stay among those that the protocol
  -- knows.
  pub after_all-IsDry :
      (world : W) (os : List Operation) (s : State W) → IsDry world s → IsDry world (after_all os s)
  unfolding after_all
  after_all-IsDry world [] s d = d
  after_all-IsDry world (o ∷ os) s d =
      after_all-IsDry world os (after o s) (after-IsDry world o s d)
