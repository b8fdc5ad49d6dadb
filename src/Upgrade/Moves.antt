-- ===== src/Upgrade/Moves.antt =====
-- What single calls on the files do, for the commit of agent/cmd/vps-agent-helper/upgrade.go.
use vps_tool.Prelude.{
  ◌+◌, ◌≡◌, ◌≢◌, refl, sym, ap, ◌∙◌, ◌⊎◌, inl, inr, Option, none, some, String, ◌==◌, ==_iff, arith,
  Option-cases, Bool-cases,
}
use vps_tool.Common.{Error}
use vps_tool.Upgrade.Files.{
  File, System, Failure, missing, failed, Os, put_file, put_file_at, put_file_apart, called, stat,
  remove, link, renamed, rename,
}

abbrev pub Outcome : Type 0
Outcome = System × Option Failure

-- The ways in which a rename can go.
pub data Renaming (os : Os) (old new : String) (s : System) : Outcome → Type 0 where
  refused :
      (e : Error) → os.outcome s.calls ≡ some e → Renaming os old new s (called s, some (failed e))
  absent : s.files old ≡ none → Renaming os old new s (called s, some missing)
  idle :
      (f g : File)
      → s.files old ≡ some f
      → s.files new ≡ some g
      → f.node ≡ g.node
      → Renaming os old new s (called s, none)
  moved :
      (f : File)
      → s.files old ≡ some f
      → Renaming os old new s (
        record { files = put_file old none (put_file new (some f) s.files); calls = s.calls + 1 },
        none,
      )

renamed-Renaming :
    (os : Os) (old new : String) (s : System) (o t : Option File)
    → s.files old ≡ o
    → s.files new ≡ t
    → Renaming os old new s (renamed os old new s o)
renamed-Renaming os old new s none t h k = absent h
renamed-Renaming os old new s (some f) none h k = rw k (moved f h)
renamed-Renaming os old new s (some f) (some g) h k = elim (Bool-cases (f.node == g.node)) [
  | inl e ↦ rw (k, e) (idle f g h k ((==_iff _ _).0 e))
  | inr n ↦ rw (k, n) (moved f h)
]

pub rename-Renaming :
    (os : Os) (old new : String) (s : System) → Renaming os old new s (rename os old new s)
unfolding rename
rename-Renaming os old new s = elim (Option-cases (os.outcome s.calls)) [
  | inr (e, bad) ↦ rw (bad, rename) (refused e bad)
  | inl fine ↦
      rw (fine, rename) (renamed-Renaming os old new s (s.files old) (s.files new) refl refl)
]

-- Any other name is as before.
pub rename-frame :
    (os : Os) (old new p : String) (s : System) (x : Outcome)
    → p ≢ old
    → p ≢ new
    → Renaming os old new s x
    → x.0.files p ≡ s.files p
rename-frame os old new p s x n m (refused e h) = refl
rename-frame os old new p s x n m (absent h) = refl
rename-frame os old new p s x n m (idle f g h k e) = refl
rename-frame os old new p s x n m (moved f h) =
    put_file_apart old p none (put_file new (some f) s.files) n
    ∙ put_file_apart new p (some f) s.files m

-- A rename that is no failure brings the file to the new name, where files of one identity are equal.
pub rename-moves :
    (os : Os) (old new : String) (s : System) (x : Outcome)
    → new ≢ old
    → ((f g : File) → s.files old ≡ some f → s.files new ≡ some g → f.node ≡ g.node → f ≡ g)
    → Renaming os old new s x
    → x.1 ≡ none
    → x.0.files new ≡ s.files old
rename-moves os old new s x n same (refused e h) done = cc
rename-moves os old new s x n same (absent h) done = cc
rename-moves os old new s x n same (idle f g h k e) done =
    k ∙ ap (λ (y : File). some y) (sym (same f g h k e)) ∙ sym h
rename-moves os old new s x n same (moved f h) done =
    put_file_apart old new none (put_file new (some f) s.files) n
    ∙ put_file_at new (some f) s.files
    ∙ sym h

-- A rename that fails changes no file.
pub rename-failed :
    (os : Os) (old new : String) (s : System) (x : Outcome) (e : Failure)
    → Renaming os old new s x
    → x.1 ≡ some e
    → x.0.files ≡ s.files
rename-failed os old new s x e (refused d h) bad = refl
rename-failed os old new s x e (absent h) bad = refl
rename-failed os old new s x e (idle f g h k p) bad = cc
rename-failed os old new s x e (moved f h) bad = cc

pub rename-calls :
    (os : Os) (old new : String) (s : System) (x : Outcome)
    → Renaming os old new s x
    → x.0.calls ≡ s.calls + 1
rename-calls os old new s x (refused d h) = refl
rename-calls os old new s x (absent h) = refl
rename-calls os old new s x (idle f g h k p) = refl
rename-calls os old new s x (moved f h) = refl

-- Why a rename failed.
pub rename-why :
    (os : Os) (old new : String) (s : System) (x : Outcome) (e : Failure)
    → Renaming os old new s x
    → x.1 ≡ some e
    → ((d : Error) × (os.outcome s.calls ≡ some d)) ⊎ (s.files old ≡ none)
rename-why os old new s x e (refused d h) bad = inl (d, h)
rename-why os old new s x e (absent h) bad = inr h
rename-why os old new s x e (idle f g h k p) bad = cc
rename-why os old new s x e (moved f h) bad = cc

pub remove-frame :
    (os : Os) (q p : String) (s : System) → p ≢ q → (remove os q s).0.files p ≡ s.files p
unfolding remove
remove-frame os q p s n = ground (arith, put_file_apart q p none s.files)

pub link-frame :
    (os : Os) (old new p : String) (s : System)
    → p ≢ new
    → (link os old new s).0.files p ≡ s.files p
unfolding link
link-frame os old new p s n = elim (Option-cases (s.files old)) [
  | inl gone ↦ ground (arith, gone)
  | inr (f, there) ↦ ground (arith, there, put_file_apart new p (some f) s.files)
]

pub link-links :
    (os : Os) (old new : String) (s : System)
    → (link os old new s).1 ≡ none
    → (link os old new s).0.files new ≡ s.files old
unfolding link
link-links os old new s done = elim (Option-cases (s.files old)) [
  | inl gone ↦ ground (arith, gone, done)
  | inr (f, there) ↦ ground (arith, there, done, put_file_at new (some f) s.files)
]

pub stat-files : (os : Os) (p : String) (s : System) → (stat os p s).0 ≡ called s
unfolding stat
stat-files os p s = ground arith

-- A file that is there is found, unless the call itself fails.
pub stat-found :
    (os : Os) (p : String) (s : System) (f : File)
    → os.outcome s.calls ≡ none
    → s.files p ≡ some f
    → (stat os p s).1 ≡ none
unfolding stat
stat-found os p s f fine there = rw (fine, there, stat) refl
