-- ===== src/Upgrade/Replaced.antt =====
-- The end of `upgrade` in agent/cmd/vps-agent-helper/upgrade.go: the commit, the scheduling of the
-- restart, and the rollback when that fails.
use vps_tool.Prelude.{
  ℕ, ◌≡◌, refl, ◌⊎◌, inl, inr, Bool, true, false, ◌||◌, Option, none, some, List, [], ◌∷◌, String,
  All, Bool-cases,
}
use vps_tool.Common.{Error, ok, err}
use vps_tool.WarpChange.Verdict.{on_test}
use vps_tool.Upgrade.Files.{Files, System, Os}
use vps_tool.Upgrade.Assets.{Net}
use vps_tool.Upgrade.Binaries.{Update, Step, commit}
use vps_tool.Upgrade.Paths.{Apart, At, All-map}
use vps_tool.Upgrade.Rollback.{Staged, Either, Old, Held, Quiet, roll_back-AllRestored}
use vps_tool.Upgrade.Commit.{Replaced, FailsOnce, Committed, commit-Committed}
use vps_tool.Upgrade.Run.{
  Host, Answer, Ran, any_changed, schedule_restart, scheduled, committed, replace_binaries,
}

-- The ends of an installation, `n` being the number of calls up to the end of the commit.
abbrev pub Ends : {W : Type 0} → Os → ℕ → Files → List Update → Ran W → Type 0
Ends os n before us x =
    ((a : Answer) × (x.1 ≡ ok a) × All (At (Replaced before) x.0.system) us)
    ⊎ ((e : Error) × (x.1 ≡ err e)
        × All (At (Either before) x.0.system) us
        × (FailsOnce os → Quiet os n → All (At (Old before) x.0.system) us))

held_again :
    (before : Files) (s : System) (u : Update) → At (Replaced before) s u → At (Held before) s u
held_again before s u r = elim (Bool-cases u.changed) [
  | inl c ↦ (inr (c, (r.1 c).0), λ on. (r.1 c).1)
  | inr c ↦ (inl (r.0 c), λ on. absurd (cc))
]

unchanged-Replaced :
    (s : System) (us : List Update) → any_changed us ≡ false → All (At (Replaced s.files) s) us
unchanged-Replaced s [] h = tt
unchanged-Replaced s (u ∷ us) h = (
  (λ off. refl, λ on. absurd (none_changed u.changed (any_changed us) h on)),
  unchanged-Replaced s us (others u.changed (any_changed us) h),
)
  where
    none_changed : (a b : Bool) → (a || b) ≡ false → a ≡ true → ⊥
    none_changed true b h e = cc
    none_changed false b h e = cc

    others : (a b : Bool) → (a || b) ≡ false → b ≡ false
    others true b h = cc
    others false b h = h

module _ {W : Type 0} (h : Host W) (net : Net W) (os : Os) (tag : String) (us : List Update)
    (s : System) (apart : Apart us) (staged : All (Staged s.files) us) where
  scheduled-Ends :
      (s1 : System) (x : W × Option Error)
      → All (At (Replaced s.files) s1) us
      → Ends os s1.calls s.files us (scheduled h net os tag us s1 x)
  scheduled-Ends s1 (w, none) r = inl (_, refl, r)
  scheduled-Ends s1 (w, some e) r =
      let held =
        All-map (At (Replaced s.files) s1) (At (Held s.files) s1) (held_again s.files s1) us r in
      let back = roll_back-AllRestored os s.files us s1 apart staged held in
      inr (_, refl, back.either, λ once quiet. back.old quiet)

  committed-Ends :
      (w : W) (x : Step)
      → Committed os s.files us x
      → Ends os x.0.calls s.files us (committed h net os tag us w x)
  committed-Ends w (s1, some e) (inl (good, r)) = absurd (cc)
  committed-Ends w (s1, some e) (inr (d, same, kept, old)) =
      inr (e, refl, kept, λ once quiet. old once)
  committed-Ends w (s1, none) (inl (good, r)) = scheduled-Ends s1 (schedule_restart h net os w) r
  committed-Ends w (s1, none) (inr (d, same, kept, old)) = absurd (cc)

  -- From staged binaries on, as in the theorem on the commit, an upgrade has one of two ends. If
  -- it gets as far as its answer, every changed target holds its staged binary and its backup the
  -- old one, and every other target is as before. If it ends with an error before, also that of
  -- scheduling the restart, every target holds its old or its staged binary, and its old one if no
  -- call of the file system fails behind one that failed, nor behind the commit.
  pub replace_binaries-Ends :
      (w : W) → Ends os (commit os us s).0.calls s.files us (replace_binaries h net os tag us w s)
  unfolding replace_binaries
  replace_binaries-Ends w =
      on_test (Ends os (commit os us s).0.calls s.files us) (any_changed us) _ _
        (λ some_changed. committed-Ends w (commit os us s) (commit-Committed os us s apart staged))
        (λ same. inl (_, refl, unchanged-Replaced s us same))
