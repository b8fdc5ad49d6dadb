-- ===== src/Upgrade/Rollback.antt =====
-- rollbackBinaryUpdates of agent/cmd/vps-agent-helper/upgrade.go.
use mathlib.Core.Path.{subst}
use vps_tool.Prelude.{
  ℕ, ◌+◌, ◌≤◌, ◌≡◌, ◌≢◌, refl, sym, ap, ◌∙◌, ◌⊎◌, inl, inr, true, false, Option, none, some, List,
  [], ◌∷◌, String, All, Option-cases, arith,
}
use vps_tool.Common.{Error}
use vps_tool.WarpChange.Verdict.{on_test}
use vps_tool.Upgrade.Files.{File, Files, System, Failure, Os, called, stat, rename}
use vps_tool.Upgrade.Binaries.{Update, restore, put_back, roll_back}
use vps_tool.Upgrade.Moves.{
  rename-Renaming, rename-frame, rename-moves, rename-failed, rename-why, rename-calls, stat-files,
  stat-found,
}
use vps_tool.Upgrade.Paths.{
  Outside, Disjoint, Disjoint-sym, Inner, Apart, View, At, Frame, At-same, At-Frame, All-map,
  All-zip,
}

-- The staged binary is another file than the installed one.
abbrev pub Staged : Files → Update → Type 0
Staged before u =
    u.changed ≡ true
    → (f : File) × (g : File) × (before u.target ≡ some f)
      × (before u.temp ≡ some g)
      × (f.node ≢ g.node)

module _ (before : Files) where
  -- The target holds its old or its staged binary.
  abbrev pub Either : View
  Either u t m k = (t ≡ before u.target) ⊎ ((u.changed ≡ true) × (t ≡ before u.temp))

  -- The target holds its old binary.
  abbrev pub Old : View
  Old u t m k = t ≡ before u.target

  -- The backup is there, too.
  abbrev pub Held : View
  Held u t m k = Either u t m k × (u.changed ≡ true → k ≡ before u.target)

-- No call from the n-th on fails.
abbrev pub Quiet : Os → ℕ → Type 0
Quiet os n = (i : ℕ) → n ≤ i → os.outcome i ≡ none

more_calls : (a b c : ℕ) → b ≡ a + 1 → c ≡ b + 1 → a ≤ c
more_calls a b c h k = omega arith

no_failure : (os : Os) (n : ℕ) (d : Error) → os.outcome n ≡ none → os.outcome n ≡ some d → ⊥
no_failure os n d fine bad = cc

no_file : (f : File) → ◌≡◌ {A = Option File} (some f) none → ⊥
no_file f h = cc

pub unchanged_old :
    (before : Files) (u : Update) (t : Option File)
    → u.changed ≡ false
    → (t ≡ before u.target) ⊎ ((u.changed ≡ true) × (t ≡ before u.temp))
    → t ≡ before u.target
unchanged_old before u t c (inl old) = old
unchanged_old before u t c (inr (d, new)) = absurd (cc)

-- A backup and a target of one identity are one file.
one_file :
    (before : Files) (u : Update) (f g a b : File) (k t : Option File)
    → before u.target ≡ some f
    → before u.temp ≡ some g
    → f.node ≢ g.node
    → k ≡ before u.target
    → k ≡ some a
    → (t ≡ before u.target) ⊎ ((u.changed ≡ true) × (t ≡ before u.temp))
    → t ≡ some b
    → a.node ≡ b.node
    → a ≡ b
one_file before u f g a b k t there new other kept p (inl old) q n = cc
one_file before u f g a b k t there new other kept p (inr (c, fresh)) q n =
    let af : a ≡ f = cc in
    let bg : b ≡ g = cc in
    absurd (other (ap (λ (x : File). x.node) (sym af) ∙ n ∙ ap (λ (x : File). x.node) bg))

module _ (os : Os) (before : Files) where
  -- What a rollback of an update gives, with or without failures of its calls.
  pub record Restored (u : Update) (s s' : System) : Type 0 where
    pub either : At (Either before) s' u
    pub old : Quiet os s.calls → At (Old before) s' u
    pub frame : Frame u s s'
    pub later : s.calls ≤ s'.calls

  put_back-Restored :
      (u : Update) (s s1 : System) (o : Option Failure)
      → u.changed ≡ true
      → Inner u
      → Staged before u
      → At (Held before) s u
      → s1 ≡ called s
      → (Quiet os s.calls → o ≡ none)
      → Restored u s (put_back os u (s1, o))
  put_back-Restored u s s1 (some e) c i st h same found = record {
    either = subst (λ x. At (Either before) x u) (sym same) h.0;
    old = λ q. cc (found q);
    frame = λ p out. ap (λ (x : System). x.files p) same;
    later = rw same (omega arith);
  }
  put_back-Restored u s s1 none c i st h same found =
      let r = rename-Renaming os u.backup u.target s1 in
      let x = rename os u.backup u.target s1 in
      let (f, g, there, new, other) = st c in
      let files : s1.files ≡ s.files = ap (λ (y : System). y.files) same in
      let kept : s1.files u.backup ≡ before u.target =
        ap (λ (y : Files). y u.backup) files ∙ h.1 c in
      let calls : s1.calls ≡ s.calls + 1 = ap (λ (y : System). y.calls) same in
      let target : At (Either before) s1 u = subst (λ y. At (Either before) y u) (sym same) h.0 in
      let one : (a b : File)
          → s1.files u.backup ≡ some a
          → s1.files u.target ≡ some b
          → a.node ≡ b.node
          → a ≡ b =
        λ a b p q n.
          one_file before u f g a b (s1.files u.backup) (s1.files u.target) there new other kept p
            target q n in
      let back : x.1 ≡ none → x.0.files u.target ≡ before u.target =
        λ done. rename-moves os u.backup u.target s1 x i.1 one r done ∙ kept in
      record {
        either = elim (Option-cases x.1) [
          | inl done ↦ inl (back done)
          | inr (e, bad) ↦
              subst (λ (y : Files). Either before u (y u.target) (y u.temp) (y u.backup))
                (sym (rename-failed os u.backup u.target s1 x e r bad)) target
        ];
        old = λ q. elim (Option-cases x.1) [
          | inl done ↦ back done
          | inr (e, bad) ↦ elim (rename-why os u.backup u.target s1 x e r bad) [
            | inl (d, why) ↦ absurd (no_failure os s1.calls d (q s1.calls (omega arith)) why)
            | inr gone ↦ absurd (no_file f (sym (kept ∙ there) ∙ gone))
          ]
        ];
        frame = λ p out.
            rename-frame os u.backup u.target p s1 x out.2 out.0 r ∙ ap (λ (y : Files). y p) files;
        later =
            more_calls s.calls s1.calls x.0.calls calls (rename-calls os u.backup u.target s1 x r);
      }

  restore-Restored :
      (u : Update) (s : System)
      → Inner u
      → Staged before u
      → At (Held before) s u
      → Restored u s (restore os u s)
  unfolding restore
  restore-Restored u s i st h =
      on_test (Restored u s) u.changed _ _
        (λ c.
          let (f, g, there, new, other) = st c in
          put_back-Restored u s (stat os u.backup s).0 (stat os u.backup s).1 c i st h
            (stat-files os u.backup s)
            (λ q. stat-found os u.backup s f (q s.calls (omega arith)) (h.1 c ∙ there)))
        (λ c. record {
          either = h.0;
          old = λ q. unchanged_old before u (s.files u.target) c h.0;
          frame = λ p out. refl;
          later = omega arith;
        })

  -- What a rollback of several gives.
  pub record AllRestored (us : List Update) (s s' : System) : Type 0 where
    pub either : All (At (Either before) s') us
    pub old : Quiet os s.calls → All (At (Old before) s') us
    pub frame : (p : String) → All (Outside p) us → s'.files p ≡ s.files p

  pub roll_back-AllRestored :
      (us : List Update) (s : System)
      → Apart us
      → All (Staged before) us
      → All (At (Held before) s) us
      → AllRestored us s (roll_back os us s)
  unfolding roll_back
  roll_back-AllRestored [] s a st h = record { either = tt; old = λ q. tt; frame = λ p out. refl }
  roll_back-AllRestored (u ∷ us) s a st h =
      let s1 = restore os u s in
      let one = restore-Restored u s a.0 st.0 h.0 in
      let held =
        All-zip (Disjoint u) (At (Held before) s) (At (Held before) s1)
          (λ v d k. At-Frame (Held before) s s1 u v one.frame (Disjoint-sym u v d) k) us a.1 h.1 in
      let rest = roll_back-AllRestored us s1 a.2 st.1 held in
      let same = λ (p : String) (out : All (Outside p) us). rest.frame p out in
      let s2 = roll_back os us s1 in
      let targets = All-map (Disjoint u) (Outside u.target) (λ v d. d.0) us a.1 in
      let temps = All-map (Disjoint u) (Outside u.temp) (λ v d. d.1) us a.1 in
      let backups = All-map (Disjoint u) (Outside u.backup) (λ v d. d.2) us a.1 in
      record {
        either = (
          At-same (Either before) s1 s2 u (rest.frame u.target targets) (rest.frame u.temp temps)
              (rest.frame u.backup backups) one.either,
          rest.either,
        );
        old = λ q. (
          rest.frame u.target targets ∙ one.old q,
          rest.old (λ i l. q i (let grown = one.later in omega arith)),
        );
        frame = λ p out. rest.frame p out.1 ∙ one.frame p out.0;
      }
