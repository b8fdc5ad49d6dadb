-- ===== src/Tests/BackoffRuns.antt =====
-- The delays with the factor 1, which the draw 2 ^ 52 makes.
use vps_tool.Prelude.{ℕ, ◌≡◌, refl, some, arith}
use vps_tool.Backoff.{
  Policy, reset, next, advance, base, jittered, jitter, after, Delay, next-after,
}

abbrev fresh : Policy
fresh = record { index = 4 }

abbrev middle : ℕ
middle = 4_503_599_627_370_496

-- The third delay is 4 seconds, the tenth a minute.
delay_runs :
    ((next middle (after 2 (reset fresh))).1 ≡ some 4_000_000_000)
    × ((next middle (after 9 (reset fresh))).1 ≡ some 60_000_000_000)
unfolding next after advance base reset jitter jittered
delay_runs = (refl, refl)

next-after_example : (d : ℕ) × ((next middle (after 9 (reset fresh))).1 ≡ some d) × Delay 9 d
next-after_example = next-after middle 9 fresh (omega arith)
