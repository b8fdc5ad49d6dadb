-- ===== src/Upgrade/Paths.antt =====
-- The paths of staged binaries: which updates have no path in common, and what a step on one of them
-- leaves alone of the others.
use mathlib.Core.Path.{subst}
use vps_tool.Prelude.{◌≡◌, ◌≢◌, refl, sym, ◌⊎◌, inl, inr, Option, List, [], ◌∷◌, String, All}
use vps_tool.Upgrade.Files.{File, System}
use vps_tool.Upgrade.Binaries.{Update}

abbrev pub Outside : String → Update → Type 0
Outside p u = (p ≢ u.target) × (p ≢ u.temp) × (p ≢ u.backup)

abbrev pub Disjoint : Update → Update → Type 0
Disjoint u v = Outside u.target v × Outside u.temp v × Outside u.backup v

-- The three paths of an update differ.
abbrev pub Inner : Update → Type 0
Inner u = (u.target ≢ u.temp) × (u.target ≢ u.backup) × (u.temp ≢ u.backup)

-- All paths of all updates differ.
abbrev pub Apart : List Update → Type 0
Apart [] = Unit
Apart (u ∷ us) = Inner u × All (Disjoint u) us × Apart us

pub Disjoint-sym : (u v : Update) → Disjoint u v → Disjoint v u
Disjoint-sym u v d = (
  ((λ e. d.0.0 (sym e)), (λ e. d.1.0 (sym e)), (λ e. d.2.0 (sym e))),
  ((λ e. d.0.1 (sym e)), (λ e. d.1.1 (sym e)), (λ e. d.2.1 (sym e))),
  ((λ e. d.0.2 (sym e)), (λ e. d.1.2 (sym e)), (λ e. d.2.2 (sym e))),
)

pub All-map {ℓ κ μ} :
    {A : Type ℓ} (P : A → Type κ) (Q : A → Type μ)
    → ((a : A) → P a → Q a)
    → (xs : List A) → All P xs
    → All Q xs
All-map P Q f [] h = tt
All-map P Q f (x ∷ xs) h = (f x h.0, All-map P Q f xs h.1)

pub All-zip {ℓ κ μ ν} :
    {A : Type ℓ} (P : A → Type κ) (Q : A → Type μ) (R : A → Type ν)
    → ((a : A) → P a → Q a → R a)
    → (xs : List A) → All P xs
    → All Q xs
    → All R xs
All-zip P Q R f [] h k = tt
All-zip P Q R f (x ∷ xs) h k = (f x h.0 k.0, All-zip P Q R f xs h.1 k.1)

-- The same update, or one with other paths.
abbrev pub Related : Update → Update → Type 0
Related u v = (v ≡ u) ⊎ Disjoint v u

pub Apart-Related : (us : List Update) → Apart us → All (λ u. All (Related u) us) us
Apart-Related [] h = tt
Apart-Related (u ∷ us) h = (
  (inl refl, All-map (Disjoint u) (Related u) (λ v d. inr (Disjoint-sym u v d)) us h.1),
  All-zip (Disjoint u) (λ v. All (Related v) us) (λ v. All (Related v) (u ∷ us))
      (λ v d r. (inr d, r)) us h.1 (Apart-Related us h.2),
)

-- What is said of an update by the files at its target, its temporary path and its backup.
abbrev pub View : Type 1
View = Update → Option File → Option File → Option File → Type 0

abbrev pub At : View → System → Update → Type 0
At P s u = P u (s.files u.target) (s.files u.temp) (s.files u.backup)

-- Only paths of `u` change.
abbrev pub Frame : Update → System → System → Type 0
Frame u s s' = (p : String) → Outside p u → s'.files p ≡ s.files p

module _ (P : View) (s s' : System) where
  pub At-same :
      (u : Update)
      → s'.files u.target ≡ s.files u.target
      → s'.files u.temp ≡ s.files u.temp
      → s'.files u.backup ≡ s.files u.backup
      → At P s u
      → At P s' u
  At-same u a b c h =
      subst (λ x. P u x (s'.files u.temp) (s'.files u.backup)) (sym a)
        (subst (λ x. P u (s.files u.target) x (s'.files u.backup)) (sym b)
          (subst (λ x. P u (s.files u.target) (s.files u.temp) x) (sym c) h))

  pub At-Frame : (u v : Update) → Frame u s s' → Disjoint v u → At P s v → At P s' v
  At-Frame u v f d = At-same v (f v.target d.0) (f v.temp d.1) (f v.backup d.2)
