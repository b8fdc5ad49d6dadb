-- ===== src/Upgrade/Commit.antt =====
-- commitBinaryUpdates of agent/cmd/vps-agent-helper/upgrade.go: either every binary is replaced, or the
-- commit fails.
use mathlib.Core.Path.{subst}
use vps_tool.Prelude.{
  ℕ, ◌<◌, ◌≡◌, ◌≢◌, refl, sym, ap, ◌∙◌, ◌⊎◌, inl, inr, true, false, Option, none, some, List, [],
  ◌∷◌, String, All, Bool-cases, arith,
}
use vps_tool.Common.{Error}
use vps_tool.WarpChange.Verdict.{on_test}
use vps_tool.Upgrade.Files.{File, Files, System, Failure, Os, rename}
use vps_tool.Upgrade.Binaries.{
  Update, Step, or_error, colon, or_roll_back, activate, activate_all, back_up_all, commit,
}
use vps_tool.Upgrade.Moves.{
  Outcome, Renaming, rename-Renaming, rename-frame, rename-moves, rename-failed, rename-why,
  rename-calls,
}
use vps_tool.Upgrade.Paths.{
  Outside, Disjoint, Disjoint-sym, Inner, Apart, Related, Apart-Related, View, At, Frame, At-same,
  At-Frame, All-map, All-zip,
}
use vps_tool.Upgrade.Rollback.{Staged, Either, Old, Held, roll_back-AllRestored}
use vps_tool.Upgrade.BackUp.{and_then-cases, back_up_all-frame, back_up_all-backs_up}

module _ (before : Files) where
  -- The backup is linked, and the staged binary waits.
  abbrev Waiting : View
  Waiting u t m k =
      (t ≡ before u.target) × (u.changed ≡ true → (k ≡ before u.target) × (m ≡ before u.temp))

  -- The staged binary is at the target, where there is one, and the old one at the backup.
  abbrev pub Replaced : View
  Replaced u t m k =
      (u.changed ≡ false → t ≡ before u.target)
      × (u.changed ≡ true → (t ≡ before u.temp) × (k ≡ before u.target))

-- No call fails behind one that failed.
abbrev pub FailsOnce : Os → Type 0
FailsOnce os = (i j : ℕ) (e : Error) → os.outcome i ≡ some e → i < j → os.outcome j ≡ none

-- Every binary is replaced; or there is an error, each target holds its old or its staged binary, and
-- the old one if no call fails behind one that failed.
abbrev pub Committed : Os → Files → List Update → Step → Type 0
Committed os before us x =
    ((x.1 ≡ none) × All (At (Replaced before) x.0) us)
    ⊎ ((e : Error) × (x.1 ≡ some e)
        × All (At (Either before) x.0) us
        × (FailsOnce os → All (At (Old before) x.0) us))

no_such : (f : File) → ◌≡◌ {A = Option File} (some f) none → ⊥
no_such f h = cc

-- Two files of one identity where the identities are known to differ.
distinct :
    (f g a b : File) (o t : Option File)
    → o ≡ some g
    → t ≡ some f
    → f.node ≢ g.node
    → o ≡ some a
    → t ≡ some b
    → a.node ≡ b.node
    → a ≡ b
distinct f g a b o t p q other h k n =
    let ag : a ≡ g = cc in
    let bf : b ≡ f = cc in
    absurd (other (sym (ap (λ (x : File). x.node) bf) ∙ sym n ∙ ap (λ (x : File). x.node) ag))

module _ (os : Os) (before : Files) (all : List Update) (apart : Apart all)
    (staged : All (Staged before) all) where
  -- What a failed round leaves.
  abbrev Undone : System → Type 0
  Undone s = All (At (Either before) s) all × (FailsOnce os → All (At (Old before) s) all)

  -- A round of the second loop.
  abbrev Round : Update → System → Step → Type 0
  Round u s x =
      ((x.1 ≡ none) × At (Replaced before) x.0 u × Frame u s x.0)
      ⊎ ((e : Error) × (x.1 ≡ some e) × Undone x.0)

  renamed-Round :
      (u : Update) (s : System) (x : Outcome)
      → u.changed ≡ true
      → Inner u
      → Staged before u
      → At (Waiting before) s u
      → All (At (Held before) s) all
      → x ≡ rename os u.temp u.target s
      → (o : Option Failure) → x.1 ≡ o
      → Round u s (or_roll_back os all (or_error os (colon os "activate " u.target) (x.0, o)))
  renamed-Round u s x c i st w held made none done =
      let r =
        subst (Renaming os u.temp u.target s) (sym made) (rename-Renaming os u.temp u.target s) in
      let (f, g, there, new, other) = st c in
      let at = w.1 c in
      inl (
        refl,
        (
          λ off. absurd (cc),
          λ on. (
            rename-moves os u.temp u.target s x i.0
                  (λ a b p q n.
                    distinct f g a b (s.files u.temp) (s.files u.target) (at.1 ∙ new) (w.0 ∙ there)
                      other p q n)
                  r done
                ∙ at.1,
            rename-frame os u.temp u.target u.backup s x (λ e. i.2 (sym e)) (λ e. i.1 (sym e)) r
                ∙ at.0,
          ),
        ),
        λ p out. rename-frame os u.temp u.target p s x out.1 out.0 r,
      )
  renamed-Round u s x c i st w held made (some e) bad =
      let r =
        subst (Renaming os u.temp u.target s) (sym made) (rename-Renaming os u.temp u.target s) in
      let files = rename-failed os u.temp u.target s x e r bad in
      let held' =
        All-map (At (Held before) s) (At (Held before) x.0)
          (λ v h.
            At-same (Held before) s x.0 v (ap (λ (y : Files). y v.target) files)
              (ap (λ (y : Files). y v.temp) files) (ap (λ (y : Files). y v.backup) files) h)
          all held in
      let back = roll_back-AllRestored os before all x.0 apart staged held' in
      let (f, g, there, new, other) = st c in
      let calls = rename-calls os u.temp u.target s x r in
      inr (
        _,
        refl,
        (
          back.either,
          λ once. elim (rename-why os u.temp u.target s x e r bad) [
            | inl (d, why) ↦ back.old (λ j l. once s.calls j d why (omega arith))
            | inr gone ↦ absurd (no_such g (sym ((w.1 c).1 ∙ new) ∙ gone))
          ],
        ),
      )

  activate-Round :
      (u : Update) (s : System)
      → Inner u
      → Staged before u
      → At (Waiting before) s u
      → All (At (Held before) s) all
      → Round u s (activate os all u s)
  unfolding activate
  activate-Round u s i st w held =
      on_test (Round u s) u.changed _ _
        (λ c.
          renamed-Round u s (rename os u.temp u.target s) c i st w held refl
            (rename os u.temp u.target s).1 refl)
        (λ c. inl (refl, (λ off. w.0, λ on. absurd (cc)), λ p out. refl))

  Replaced-Held : (s : System) (u : Update) → At (Replaced before) s u → At (Held before) s u
  Replaced-Held s u r = elim (Bool-cases u.changed) [
    | inl c ↦ (inr (c, (r.1 c).0), λ on. (r.1 c).1)
    | inr c ↦ (inl (r.0 c), λ on. absurd (cc))
  ]

  -- What the rounds from here on give.
  abbrev Rounds : List Update → System → Step → Type 0
  Rounds us s x =
      ((x.1 ≡ none)
        × All (At (Replaced before) x.0) us
        × ((p : String) → All (Outside p) us → x.0.files p ≡ s.files p))
      ⊎ ((e : Error) × (x.1 ≡ some e) × Undone x.0)

  -- A round that went well, with the rounds behind it.
  continued :
      (u : Update) (us : List Update) (s s1 : System) (x : Step)
      → All (Disjoint u) us
      → At (Replaced before) s1 u
      → Frame u s s1
      → Rounds us s1 x
      → Rounds (u ∷ us) s x
  continued u us s s1 x a r frame (inr bad) = inr bad
  continued u us s s1 x a r frame (inl (h, rs, rest)) =
      let targets = All-map (Disjoint u) (Outside u.target) (λ v d. d.0) us a in
      let temps = All-map (Disjoint u) (Outside u.temp) (λ v d. d.1) us a in
      let backups = All-map (Disjoint u) (Outside u.backup) (λ v d. d.2) us a in
      inl (
        h,
        (
          At-same (Replaced before) s1 x.0 u (rest u.target targets) (rest u.temp temps)
              (rest u.backup backups) r,
          rs,
        ),
        λ p out. rest p out.1 ∙ frame p out.0,
      )

  still_held :
      (u v : Update) (s s1 : System)
      → At (Replaced before) s1 u
      → Frame u s s1
      → Related u v
      → At (Held before) s v
      → At (Held before) s1 v
  still_held u v s s1 r frame (inl e) h =
      subst (λ y. At (Held before) s1 y) (sym e) (Replaced-Held s1 u r)
  still_held u v s s1 r frame (inr d) h = At-Frame (Held before) s s1 u v frame d h

  stopped :
      (u : Update) (us : List Update) (s : System) (x : Step) (e : Error)
      → x.1 ≡ some e
      → Round u s x
      → Rounds (u ∷ us) s (x.0, some e)
  stopped u us s x e h (inl (n, r, frame)) = absurd (cc)
  stopped u us s x e h (inr (d, n, undone)) = inr (e, refl, undone)

  went_well :
      (u : Update) (s : System) (x : Step)
      → x.1 ≡ none
      → Round u s x
      → At (Replaced before) x.0 u × Frame u s x.0
  went_well u s x h (inl (n, r, frame)) = (r, frame)
  went_well u s x h (inr (d, n, undone)) = absurd (cc)

  activate_all-Rounds :
      (us : List Update) (s : System)
      → Apart us
      → All (Staged before) us
      → All (λ u. All (Related u) all) us
      → All (At (Waiting before) s) us
      → All (At (Held before) s) all
      → Rounds us s (activate_all os all us s)
  unfolding activate_all
  activate_all-Rounds [] s a st rel w held = inl (refl, tt, λ p out. refl)
  activate_all-Rounds (u ∷ us) s a st rel w held =
      let x = activate os all u s in
      let round = activate-Round u s a.0 st.0 w.0 held in
      and_then-cases (Rounds (u ∷ us) s) x _ (λ e h. stopped u us s x e h round)
        (λ h.
          let (r, frame) = went_well u s x h round in
          continued u us s x.0 (activate_all os all us x.0) a.1 r frame (
            activate_all-Rounds us x.0 a.2 st.1 rel.1
              (All-zip (Disjoint u) (At (Waiting before) s) (At (Waiting before) x.0)
                (λ v d k. At-Frame (Waiting before) s x.0 u v frame (Disjoint-sym u v d) k) us a.1
                w.1)
              (All-zip (Related u) (At (Held before) s) (At (Held before) x.0)
                (λ v q k. still_held u v s x.0 r frame q k) all rel.0 held)))

Apart-Inner : (us : List Update) → Apart us → All Inner us
Apart-Inner [] a = tt
Apart-Inner (u ∷ us) a = (a.0, Apart-Inner us a.2)

target_apart : (u v : Update) → Inner u → Related u v → u.target ≢ v.backup
target_apart u v i (inl e) h = i.1 (h ∙ ap (λ (y : Update). y.backup) e)
target_apart u v i (inr d) h = d.2.0 (sym h)

temp_apart : (u v : Update) → Inner u → Related u v → u.temp ≢ v.backup
temp_apart u v i (inl e) h = i.2 (h ∙ ap (λ (y : Update). y.backup) e)
temp_apart u v i (inr d) h = d.2.1 (sym h)

module _ (os : Os) (us : List Update) (s : System) (apart : Apart us)
    (staged : All (Staged s.files) us) where
  abbrev backed : Step
  backed = back_up_all os us s

  outside_backups :
      (P : Update → String)
      → ((u v : Update) → Inner u → Related u v → P u ≢ v.backup)
      → All (λ u. backed.0.files (P u) ≡ s.files (P u)) us
  outside_backups P f =
      All-zip Inner (λ u. All (Related u) us) (λ u. backed.0.files (P u) ≡ s.files (P u))
        (λ u i rel.
          back_up_all-frame os us s (P u)
            (All-map (Related u) (λ v. P u ≢ v.backup) (λ v r. f u v i r) us rel))
        us (Apart-Inner us apart) (Apart-Related us apart)

  target_kept : All (λ u. backed.0.files u.target ≡ s.files u.target) us
  target_kept = outside_backups (λ u. u.target) target_apart

  temp_kept : All (λ u. backed.0.files u.temp ≡ s.files u.temp) us
  temp_kept = outside_backups (λ u. u.temp) temp_apart

  waiting : backed.1 ≡ none → All (At (Waiting s.files) backed.0) us
  waiting h =
      All-zip (λ u. backed.0.files u.target ≡ s.files u.target)
        (λ u.
          (backed.0.files u.temp ≡ s.files u.temp)
          × (u.changed ≡ true → backed.0.files u.backup ≡ s.files u.target))
        (At (Waiting s.files) backed.0) (λ u t r. (t, λ c. (r.1 c, r.0))) us target_kept
        (All-zip (λ u. backed.0.files u.temp ≡ s.files u.temp)
          (λ u. u.changed ≡ true → backed.0.files u.backup ≡ s.files u.target)
          (λ u.
            (backed.0.files u.temp ≡ s.files u.temp)
            × (u.changed ≡ true → backed.0.files u.backup ≡ s.files u.target))
          (λ u t b. (t, b)) us temp_kept (back_up_all-backs_up os us s apart h))

  decided : (x : Step) → Rounds os s.files us apart staged us backed.0 x → Committed os s.files us x
  decided x (inl (h, r, frame)) = inl (h, r)
  decided x (inr (e, h, undone)) = inr (e, h, undone.0, undone.1)

  -- A commit of staged binaries whose paths all differ, each another file than the installed one,
  -- has one of two ends, whichever calls of the file system fail. Without an error every changed
  -- target holds its staged binary and its backup the old one, and every other target is as
  -- before. With an error every target holds its old or its staged binary, and its old one if no
  -- call fails behind one that failed.
  pub commit-Committed : Committed os s.files us (commit os us s)
  unfolding commit
  commit-Committed =
      and_then-cases (Committed os s.files us) backed _
        (λ e h. inr (
          e,
          refl,
          All-map (At (Old s.files) backed.0) (At (Either s.files) backed.0) (λ u k. inl k) us
              target_kept,
          λ once. target_kept,
        ))
        (λ h. decided (activate_all os us us backed.0) (
          activate_all-Rounds os s.files us apart staged us backed.0 apart staged
            (Apart-Related us apart) (waiting h)
            (All-map (At (Waiting s.files) backed.0) (At (Held s.files) backed.0)
              (λ u w. (inl w.0, λ c. (w.1 c).0)) us (waiting h))))
