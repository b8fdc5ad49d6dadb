-- ===== src/Tests/ManagerRuns.antt =====
-- The operations of the manager over a toy node, with and without an end of the caller's context.
use vps_tool.Prelude.{suc, ◌+◌, ◌≡◌, refl, true, false, none, some, arith, ltb, if◌then◌else◌}
use vps_tool.Common.{plain}
use vps_tool.WarpChange.Machine.{Env, IpSnapshot, caller}
use vps_tool.WarpChange.Fuel.{Ticks}
use vps_tool.Manager.Waiting.{wait_warp}
use vps_tool.Manager.Operations.{
  State, new_manager, get_ips, store_ips, invalidate_ip, switched, looked, toggle, Toggled,
}
use vps_tool.Manager.Toggling.{Settled, toggle-Settled}
use vps_tool.Manager.Caching.{get_ips_again}
use vps_tool.Manager.Returning.{EndsBy, toggle_returns}
use vps_tool.Tests.WarpRuns.{Toy, toy_env}

abbrev at_first : State Toy
at_first = record {
  manager = new_manager;
  world = record { time = 1000; is_on = true; renewed = false };
}

turned_off : (t : State Toy × Toggled) × (toggle toy_env 2 false at_first ≡ some t)
unfolding toggle looked switched wait_warp invalidate_ip
turned_off = (_, refl)

turned_off_lem : turned_off.0.1.1.0 ≡ "ok"
unfolding turned_off
turned_off_lem = refl

toggle-Settled_example : Settled false new_manager turned_off.0
toggle-Settled_example = toggle-Settled toy_env 2 false at_first turned_off.0 turned_off.1

abbrev old_ips : IpSnapshot
old_ips = record { ipv4 = "192.0.2.1"; ipv6 = "" }

abbrev much_later : Toy
much_later = record { time = 2000; is_on = true; renewed = true }

get_ips_again_example :
    ((get_ips toy_env at_first).1 ≡ (old_ips, none))
    × (get_ips toy_env (record (get_ips toy_env at_first).0 { world = much_later }) ≡ (
        if ltb
          (toy_env.now much_later)
          (toy_env.now (toy_env.get_ips caller at_first.world).0 + new_manager.ip_ttl)
        then (record (get_ips toy_env at_first).0 { world = much_later }, (old_ips, none))
        else store_ips toy_env
            (get_ips toy_env at_first).0.manager
            (toy_env.get_ips caller much_later).0
            (toy_env.get_ips caller much_later).1))
get_ips_again_example =
    get_ips_again toy_env at_first old_ips much_later refl refl refl (omega arith)

-- The context of the caller ends at the instant 2000.
abbrev ending_env : Env Toy
ending_env = record toy_env {
  caller_error = λ w. if ltb w.time 2000 then none else some (plain "context canceled");
}

ending_env-Ticks : Ticks ending_env
ending_env-Ticks = record {
  by_status = λ c w. omega arith;
  by_on = λ c w. omega arith;
  by_off = λ c w. omega arith;
  by_ips = λ c w. omega arith;
  by_arm = λ c t n w. omega arith;
  by_disarm = λ c w. omega arith;
  by_sleep = λ c d w. omega arith;
  by_full_sleep = λ c d w h. omega arith;
}

ending_env-EndsBy : EndsBy ending_env 2000
ending_env-EndsBy w late = ground arith

toggle_returns_example :
    (y : State Toy × Toggled) × (toggle ending_env (suc 1000) false at_first ≡ some y)
toggle_returns_example =
    toggle_returns ending_env ending_env-Ticks 2000 ending_env-EndsBy 1000 false at_first
      (omega arith)
