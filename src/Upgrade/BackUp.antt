-- ===== src/Upgrade/BackUp.antt =====
-- The first loop of commitBinaryUpdates in agent/cmd/vps-agent-helper/upgrade.go, which links backups.
use vps_tool.Prelude.{◌≡◌, ◌≢◌, refl, sym, ap, ◌∙◌, true, none, some, List, [], ◌∷◌, String, All}
use vps_tool.Common.{Error}
use vps_tool.WarpChange.Verdict.{on_test}
use vps_tool.Upgrade.Files.{System, missing, present, failed, Os, remove, link}
use vps_tool.Upgrade.Binaries.{
  Update, Step, and_then, or_error, or_missing, colon, back_up, back_up_all,
}
use vps_tool.Upgrade.Moves.{remove-frame, link-frame, link-links, Outcome}
use vps_tool.Upgrade.Paths.{Disjoint, Apart, All-map, All-zip}

-- Both ways through `and_then`.
pub and_then-cases {κ} :
    (P : Step → Type κ) (x : Step) (k : System → Step)
    → ((e : Error) → x.1 ≡ some e → P (x.0, some e))
    → (x.1 ≡ none → P (k x.0))
    → P (and_then x k)
and_then-cases P (s, some e) k stops goes = stops e refl
and_then-cases P (s, none) k stops goes = goes refl

or_missing-files : (os : Os) (x : Outcome) → (or_missing os x).0 ≡ x.0
or_missing-files os (s, none) = refl
or_missing-files os (s, some missing) = refl
or_missing-files os (s, some present) = refl
or_missing-files os (s, some (failed e)) = refl

pub or_error-files : (os : Os) (m : String) (x : Outcome) → (or_error os m x).0 ≡ x.0
or_error-files os m (s, none) = refl
or_error-files os m (s, some f) = refl

pub or_error-none : (os : Os) (m : String) (x : Outcome) → (or_error os m x).1 ≡ none → x.1 ≡ none
or_error-none os m (s, none) h = refl
or_error-none os m (s, some f) h = cc

module _ (os : Os) (u : Update) (s : System) where
  -- Behind the removal of the old backup.
  removal :
      (p : String) → p ≢ u.backup → (or_missing os (remove os u.backup s)).0.files p ≡ s.files p
  removal p n =
      ap (λ (y : System). y.files p) (or_missing-files os (remove os u.backup s))
      ∙ remove-frame os u.backup p s n

  pub back_up-frame : (p : String) → p ≢ u.backup → (back_up os u s).0.files p ≡ s.files p
  unfolding back_up
  back_up-frame p n =
      on_test (λ (x : Step). x.0.files p ≡ s.files p) u.changed _ _
        (λ c.
          and_then-cases (λ x. x.0.files p ≡ s.files p) (or_missing os (remove os u.backup s)) _
            (λ e h. removal p n)
            (λ h.
              ap (λ (y : System). y.files p)
                (or_error-files os (colon os "backup " u.target)
                  (link os u.target u.backup (or_missing os (remove os u.backup s)).0))
              ∙ link-frame os u.target u.backup p (or_missing os (remove os u.backup s)).0 n
              ∙ removal p n))
        (λ c. refl)

  pub back_up-backs_up :
      u.target ≢ u.backup
      → u.changed ≡ true
      → (back_up os u s).1 ≡ none
      → (back_up os u s).0.files u.backup ≡ s.files u.target
  unfolding back_up
  back_up-backs_up n c =
      on_test (λ (x : Step). x.1 ≡ none → x.0.files u.backup ≡ s.files u.target) u.changed _ _
        (λ c.
          and_then-cases (λ x. x.1 ≡ none → x.0.files u.backup ≡ s.files u.target)
            (or_missing os (remove os u.backup s)) _ (λ e h done. cc)
            (λ h done.
              let s1 = (or_missing os (remove os u.backup s)).0 in
              let linked =
                or_error-none os (colon os "backup " u.target) (link os u.target u.backup s1)
                  done in
              ap (λ (y : System). y.files u.backup)
                (or_error-files os (colon os "backup " u.target) (link os u.target u.backup s1))
              ∙ link-links os u.target u.backup s1 linked
              ∙ removal u.target n))
        (λ off done. absurd (cc))

module _ (os : Os) where
  pub back_up_all-frame :
      (us : List Update) (s : System) (p : String)
      → All (λ u. p ≢ u.backup) us
      → (back_up_all os us s).0.files p ≡ s.files p
  unfolding back_up_all
  back_up_all-frame [] s p n = refl
  back_up_all-frame (u ∷ us) s p n =
      let one = back_up-frame os u s p n.0 in
      and_then-cases (λ x. x.0.files p ≡ s.files p) (back_up os u s) _ (λ e h. one)
        (λ h. back_up_all-frame us (back_up os u s).0 p n.1 ∙ one)

  pub back_up_all-backs_up :
      (us : List Update) (s : System)
      → Apart us
      → (back_up_all os us s).1 ≡ none
      → All (λ u. u.changed ≡ true → (back_up_all os us s).0.files u.backup ≡ s.files u.target) us
  unfolding back_up_all
  back_up_all-backs_up [] s a done = tt
  back_up_all-backs_up (u ∷ us) s a finished =
      let s1 = (back_up os u s).0 in
      and_then-cases
        (λ x.
          x.1 ≡ none → All (λ v. v.changed ≡ true → x.0.files v.backup ≡ s.files v.target) (u ∷ us))
        (back_up os u s) _ (λ e h done. cc)
        (λ h done. (
          λ c.
              back_up_all-frame us s1 u.backup
                (All-map (Disjoint u) (λ v. u.backup ≢ v.backup) (λ v d. d.2.2) us a.1)
              ∙ back_up-backs_up os u s a.0.1 c h,
          All-zip (Disjoint u)
              (λ v. v.changed ≡ true → (back_up_all os us s1).0.files v.backup ≡ s1.files v.target)
              (λ v. v.changed ≡ true → (back_up_all os us s1).0.files v.backup ≡ s.files v.target)
              (λ v d r c. r c ∙ back_up-frame os u s v.target (λ e. d.2.0 (sym e))) us a.1
              (back_up_all-backs_up us s1 a.2 done),
        ))
        finished
