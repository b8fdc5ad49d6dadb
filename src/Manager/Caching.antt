-- ===== src/Manager/Caching.antt =====
-- The cache of exit addresses of agent/internal/warp/manager.go.
use vps_tool.Prelude.{◌+◌, ◌≤◌, ◌≡◌, refl, ◌∙◌, ap, false, Option, none, ltb, arith, if◌then◌else◌}
use vps_tool.Common.{Error}
use vps_tool.WarpChange.Machine.{IpSnapshot, Env, caller}
use vps_tool.Manager.Operations.{State, is_empty, is_fresh, store_ips, get_ips}

module _ {W : Type 0} (env : Env W) (s : State W) (ips : IpSnapshot) where
  -- The world behind the question to the helper.
  abbrev answered : W
  answered = (env.get_ips caller s.world).0

  abbrev filled : State W
  filled = record {
    manager = record s.manager { cached = ips; cached_at = env.now answered };
    world = answered;
  }

  get_ips-filled :
      is_fresh (env.now s.world) s.manager ≡ false
      → (env.get_ips caller s.world).1 ≡ (ips, none)
      → is_empty ips ≡ false
      → get_ips env s ≡ (filled, (ips, none))
  unfolding get_ips store_ips
  get_ips-filled stale answer full = rw stale (
      ap (λ (a : IpSnapshot × Option Error). store_ips env s.manager answered a) answer
      ∙ rw full refl)

  get_ips-later :
      (w : W)
      → is_empty ips ≡ false
      → env.now answered ≤ env.now w
      → get_ips env (record filled { world = w }) ≡ (
          if ltb (env.now w) (env.now answered + s.manager.ip_ttl)
          then (record filled { world = w }, (ips, none))
          else store_ips env filled.manager (env.get_ips caller w).0 (env.get_ips caller w).1)
  unfolding get_ips
  get_ips-later w full later = ground (arith, full, later)

  -- When GetIPs asked the helper, because the cache was not fresh, and got an address without an
  -- error, it answers with it; and a GetIPs at any later instant gives the same answer from the
  -- cache, with nothing asked and nothing changed, as long as less time than the lifetime of the
  -- cache has gone by since the helper answered, and asks the helper again from then on.
  pub get_ips_again :
      (w : W)
      → is_fresh (env.now s.world) s.manager ≡ false
      → (env.get_ips caller s.world).1 ≡ (ips, none)
      → is_empty ips ≡ false
      → env.now (env.get_ips caller s.world).0 ≤ env.now w
      → ((get_ips env s).1 ≡ (ips, none))
        × (get_ips env (record (get_ips env s).0 { world = w }) ≡ (
            if ltb (env.now w) (env.now (env.get_ips caller s.world).0 + s.manager.ip_ttl)
            then (record (get_ips env s).0 { world = w }, (ips, none))
            else store_ips env
                (get_ips env s).0.manager
                (env.get_ips caller w).0
                (env.get_ips caller w).1))
  get_ips_again w stale answer full later =
      rw (get_ips-filled stale answer full) (refl, get_ips-later w full later)
