-- ===== src/Backoff.antt =====
-- The delays between attempts to connect, agent/internal/backoff/backoff.go. The random
-- generator is not in the repository: its Float64 is k / 2 ^ 53 with k < 2 ^ 53, and the draw k is an
-- argument. The product is exact and cut to an integer; the rounding of float64 is not modelled.
use vps_tool.Prelude.{
  ℕ, zero, suc, ◌+◌, ◌-◌, ◌*◌, ◌/◌, ◌≤◌, ◌<◌, ◌≡◌, refl, ◌∙◌, ap, List, [], ◌∷◌, Option, none, some,
  length, get_elem?, ltb, leb, arith, if◌then◌else◌,
}

abbrev second : ℕ
second = 1_000_000_000

-- In nanoseconds.
abbrev pub schedule : List ℕ
schedule =
    1 * second ∷ 2 * second ∷ 4 * second ∷ 8 * second ∷ 16 * second ∷ 30 * second ∷ 60 * second ∷ []

pub record Policy : Type 0 where
  pub index : ℕ

unfoldable pub reset : Policy → Policy
reset p = record { index = 0 }

-- `schedule[index]`, with the index capped at the last entry.
unfoldable pub base : Policy → Option ℕ
base p = get_elem? schedule (if leb (length schedule) p.index then length schedule - 1 else p.index)

unfoldable pub advance : Policy → Policy
advance p = if ltb p.index (length schedule - 1) then record { index = suc p.index } else p

-- 2 ^ 53, the number of draws.
abbrev pub draws : ℕ
draws = 9_007_199_254_740_992

-- `time.Duration(float64(base) * (0.8 + Float64() * 0.4))` for the draw k.
unfoldable pub jittered : ℕ → ℕ → ℕ
jittered k b = b * (8 * draws + 4 * k) / (10 * draws)

unfoldable pub jitter : ℕ → Option ℕ → Option ℕ
jitter k none = none
jitter k (some b) = some (jittered k b)

-- `Next` with the draw k; `none` would be an index out of range.
unfoldable pub next : ℕ → Policy → Policy × Option ℕ
next k p = (advance p, jitter k (base p))

-- The policy after `n` calls of `Next`.
unfoldable pub after : ℕ → Policy → Policy
after zero p = p
after (suc n) p = advance (after n p)

abbrev pub capped : ℕ → ℕ
capped n = if leb n 6 then n else 6

after-index : (n : ℕ) (p : Policy) → (after n (reset p)).index ≡ capped n
unfolding after reset advance
after-index zero p = refl
after-index (suc n) p = let ih = after-index n p in ground arith

capped-most : (n : ℕ) → capped n ≤ 6
capped-most n = ground arith

-- What a capped index leads to, and the delay that the draw k makes of it.
record Entry (k i : ℕ) : Type 0 where
  delay : ℕ
  found : get_elem? schedule i ≡ some delay
  not_short : 8 * delay ≤ 10 * jittered k delay
  not_long : 10 * jittered k delay ≤ 12 * delay
  long : second ≤ delay
  short : delay ≤ 60 * second

entry_at : (k i : ℕ) → i ≤ 6 → k < draws → Entry k i
unfolding jittered
entry_at k zero h l = record {
  delay = _;
  found = refl;
  not_short = omega arith;
  not_long = omega arith;
  long = omega arith;
  short = omega arith;
}
entry_at k (suc zero) h l = record {
  delay = _;
  found = refl;
  not_short = omega arith;
  not_long = omega arith;
  long = omega arith;
  short = omega arith;
}
entry_at k (suc (suc zero)) h l = record {
  delay = _;
  found = refl;
  not_short = omega arith;
  not_long = omega arith;
  long = omega arith;
  short = omega arith;
}
entry_at k (suc (suc (suc zero))) h l = record {
  delay = _;
  found = refl;
  not_short = omega arith;
  not_long = omega arith;
  long = omega arith;
  short = omega arith;
}
entry_at k (suc (suc (suc (suc zero)))) h l = record {
  delay = _;
  found = refl;
  not_short = omega arith;
  not_long = omega arith;
  long = omega arith;
  short = omega arith;
}
entry_at k (suc (suc (suc (suc (suc zero))))) h l = record {
  delay = _;
  found = refl;
  not_short = omega arith;
  not_long = omega arith;
  long = omega arith;
  short = omega arith;
}
entry_at k (suc (suc (suc (suc (suc (suc zero)))))) h l = record {
  delay = _;
  found = refl;
  not_short = omega arith;
  not_long = omega arith;
  long = omega arith;
  short = omega arith;
}
entry_at k (suc (suc (suc (suc (suc (suc (suc i))))))) h l = absurd (omega arith)

cap-capped : (k : ℕ) → k ≤ 6 → (if leb 7 k then 6 else k) ≡ k
cap-capped k h = ground arith

base-after : (n : ℕ) (p : Policy) → base (after n (reset p)) ≡ get_elem? schedule (capped n)
unfolding base
base-after n p =
    rw (after-index n p) (ap (λ k. get_elem? schedule k) (cap-capped (capped n) (capped-most n)))

-- A delay drawn for the entry of the schedule with the capped index `n`.
pub record Delay (n d : ℕ) : Type 0 where
  pub entry : ℕ
  pub in_schedule : get_elem? schedule (capped n) ≡ some entry
  pub not_short : 8 * entry ≤ 10 * d
  pub not_long : 10 * d ≤ 12 * entry
  pub at_least : 8 * second ≤ 10 * d
  pub at_most : d ≤ 72 * second

-- Behind a Reset and n further calls, Next gives, whatever is drawn, a delay between 0.8 and 1.2
-- times entry n of the schedule, and times the last entry from then on, with the product taken
-- exactly and cut to an integer: never less than 0.8 seconds and never more than 72 seconds.
pub next-after :
    (k n : ℕ) (p : Policy)
    → k < draws
    → (d : ℕ) × ((next k (after n (reset p))).1 ≡ some d) × Delay n d
unfolding next jitter
next-after k n p drawn =
    let e = entry_at k (capped n) (capped-most n) drawn in
    (
      jittered k e.delay,
      rw (base-after n p ∙ e.found) refl,
      record {
        entry = e.delay;
        in_schedule = e.found;
        not_short = e.not_short;
        not_long = e.not_long;
        at_least = omega (arith, e.not_short, e.long);
        at_most = omega (arith, e.not_long, e.short);
      },
    )
