-- ===== src/Helper/Trust.antt =====
-- Which commands agent/internal/helper/helper.go runs.
use Prim.Native.Nat.{bit_and}
use vps_tool.Prelude.{
  ℕ, ◌≡◌, ◌≢◌, refl, sym, ap, ◌∙◌, ◌⊎◌, inl, inr, Bool, true, false, ◌&&◌, Option, none, some, List,
  [], ◌∷◌, ◌++◌, String, str_eq, arith, ℤ, if◌then◌else◌,
}
use vps_tool.Common.{Bytes, Error, Result, ok, err}
use vps_tool.WarpChange.Machine.{Context}
use vps_tool.WarpChange.Verdict.{on_test}
use vps_tool.Helper.Executable.{
  Info, Stat, found, unknown, not_exist, other, Programs, Escalator, validate_owner, validate_info,
  validate_executable, escalator_args, sudo_paths, doas_paths, is_found, fine, first_some,
  escalator_or_error, find_escalator, find_privilege_escalator,
}
use vps_tool.Helper.Calls.{
  Runner, Command, Exec, positive, judged, escalated, trusted, call_output_with_timeout,
}

-- A regular file of root, which neither group nor others may write, and which can be executed.
pub record IsSafe (programs : Programs) (p : String) : Type 0 where
  pub info : Info
  pub stated : programs.stat p ≡ found info
  pub regular : info.regular ≡ true
  pub unwritable : bit_and info.mode 0x12 ≡ 0
  pub owned : info.owner ≡ some 0
  pub executable : bit_and info.mode 0x49 ≢ 0

abbrev OneOf : List String → String → Type 0
OneOf [] p = ⊥
OneOf (q ∷ qs) p = (p ≡ q) ⊎ OneOf qs p

-- The checks of a file, as they stand in its information.
record Checked (i : Info) : Type 0 where
  regular : i.regular ≡ true
  unwritable : bit_and i.mode 0x12 ≡ 0
  owned : i.owner ≡ some 0
  executable : bit_and i.mode 0x49 ≢ 0

info-Checked : (quoted : String) (i : Info) → validate_info quoted (found i) ≡ none → Checked i
unfolding validate_info validate_owner
info-Checked quoted i h = ground arith

-- One of the four paths of `findPrivilegeEscalator`, with the program that it names.
abbrev pub IsListed : Escalator → Type 0
IsListed e =
    ((e.doas ≡ false) × OneOf sudo_paths e.path) ⊎ ((e.doas ≡ true) × OneOf doas_paths e.path)

is_fine : (o : Option Error) → fine o ≡ true → o ≡ none
is_fine none h = refl
is_fine (some e) h = cc

right_of : (a b : Bool) → (a && b) ≡ true → b ≡ true
right_of true b h = h
right_of false b h = cc

chosen :
    (b : Bool) (d s : Option Escalator) (e : Escalator)
    → escalator_or_error (first_some (if b then d else none) (first_some s d)) ≡ ok e
    → (d ≡ some e) ⊎ (s ≡ some e)
chosen true (some x) s e h = inl (cc)
chosen true none (some y) e h = inr (cc)
chosen true none none e h = cc
chosen false d (some y) e h = inr (cc)
chosen false (some x) none e h = inl (cc)
chosen false none none e h = cc

module _ (programs : Programs) where
  stat-IsSafe :
      (p : String) (s : Stat)
      → programs.stat p ≡ s
      → validate_info (programs.quoted p) s ≡ none
      → IsSafe programs p
  unfolding validate_info
  stat-IsSafe p (unknown (not_exist e)) h k = cc
  stat-IsSafe p (unknown (other e)) h k = cc
  stat-IsSafe p (found i) h k =
      let c = info-Checked (programs.quoted p) i k in
      record {
        info = i;
        stated = h;
        regular = c.regular;
        unwritable = c.unwritable;
        owned = c.owned;
        executable = c.executable;
      }

  executable-IsSafe : (p : String) → validate_executable programs p ≡ none → IsSafe programs p
  unfolding validate_executable
  executable-IsSafe p h = stat-IsSafe p (programs.stat p) refl h

  -- The escalator that a search finds.
  abbrev Found : List String → Bool → Escalator → Type 0
  Found ps doas e = (e.doas ≡ doas) × OneOf ps e.path × (validate_executable programs e.path ≡ none)

  find_escalator-Found :
      (ps : List String) (doas : Bool) (e : Escalator)
      → find_escalator programs ps doas ≡ some e
      → Found ps doas e
  unfolding find_escalator
  find_escalator-Found [] doas e h = cc
  find_escalator-Found (p ∷ ps) doas e step =
      on_test (λ (o : Option Escalator). o ≡ some e → Found (p ∷ ps) doas e)
        (is_found (programs.stat p) && fine (validate_executable programs p)) _ _
        (λ good h.
          let same_path : p ≡ e.path = cc in
          let same_kind : doas ≡ e.doas = cc in
          let passed = is_fine (validate_executable programs p) (right_of _ _ good) in
          (
            sym same_kind,
            inl (sym same_path),
            ap (validate_executable programs) (sym same_path) ∙ passed,
          ))
        (λ bad h.
          let (kind, one, passed) = find_escalator-Found ps doas e h in (kind, inr one, passed))
        step

  privilege-Found :
      (e : Escalator)
      → find_privilege_escalator programs ≡ ok e
      → IsListed e × (validate_executable programs e.path ≡ none)
  unfolding find_privilege_escalator
  privilege-Found e h =
      elim (chosen (is_found (programs.stat "/etc/doas.d/vps-agent.conf"))
        (find_escalator programs doas_paths true) (find_escalator programs sudo_paths false) e h) [
          | inl d ↦
              let (kind, one, passed) = find_escalator-Found doas_paths true e d in
              (inr (kind, one), passed)
          | inr s ↦
              let (kind, one, passed) = find_escalator-Found sudo_paths false e s in
              (inl (kind, one), passed)
        ]

-- A command that may be run: the helper itself, or an escalator with the helper as its argument.
pub record Allowed (programs : Programs) (r : Runner) (args : List String) (command : Command)
    : Type 0 where
  pub helper : IsSafe programs r.path
  pub started :
      ((r.escalate ≡ false) × (command.path ≡ r.path) × (command.args ≡ args))
      ⊎ ((e : Escalator) × (r.escalate ≡ true)
          × IsListed e
          × IsSafe programs e.path
          × (command.path ≡ e.path)
          × (command.args ≡ escalator_args e r.path ++ args))

module _ {W : Type 0} (exec : Exec W) (programs : Programs) (c : Context) (r : Runner)
    (args : List String) where
  -- What a call is that runs nothing: a dry run, or an error.
  abbrev pub Idle : W × Result Bytes → Type 0
  Idle x = (r.dry_run ≡ true) ⊎ ((e : Error) × (x.1 ≡ err e))

  -- A call runs nothing, or one allowed command.
  abbrev pub Guarded : W → W × Result Bytes → Type 0
  Guarded w x =
      ((x.0 ≡ w) × Idle x)
      ⊎ ((command : Command) × Allowed programs r args command
          × (r.dry_run ≡ false)
          × (x ≡ ((exec.run c command w).0, judged exec (exec.run c command w).1)))

  module _ (timeout : ℕ) (w : W) (real : r.dry_run ≡ false) where
    escalated-Guarded :
        (e : Result Escalator)
        → find_privilege_escalator programs ≡ e
        → r.escalate ≡ true
        → IsSafe programs r.path
        → Guarded w (escalated exec programs c r args timeout w e)
    escalated-Guarded (err x) h q safe = inl (refl, inr (_, refl))
    escalated-Guarded (ok e) h q safe =
        let (listed, passed) = privilege-Found programs e h in
        inr (
          _,
          record {
            helper = safe;
            started = inr (e, q, listed, executable-IsSafe programs e.path passed, refl, refl);
          },
          real,
          refl,
        )

    trusted-Guarded :
        (o : Option Error)
        → validate_executable programs r.path ≡ o
        → Guarded w (trusted exec programs c r args timeout w o)
    trusted-Guarded (some e) h = inl (refl, inr (_, refl))
    trusted-Guarded none h =
        let safe = executable-IsSafe programs r.path h in
        on_test (Guarded w) r.escalate _ _
          (λ q. escalated-Guarded (find_privilege_escalator programs) refl q safe)
          (λ q. inr (_, record { helper = safe; started = inl (q, refl, refl) }, real, refl))

  -- A call of the helper runs nothing, and then it is a dry run or answers with an error, or it
  -- runs exactly one command, and this only outside a dry run and if the helper is a regular file
  -- of root that can be executed and that neither group nor others may write. Without escalation
  -- the command is the helper with the arguments of the call; with it, the command is sudo or doas
  -- at one of their two paths, itself such a file, with its options, the helper and the arguments.
  -- The result is judged by how that command ended.
  pub call_output-Guarded :
      (running : Bytes) (timeout : ℤ) (w : W)
      → Guarded w (call_output_with_timeout exec programs running c r args timeout w)
  unfolding call_output_with_timeout
  call_output-Guarded running timeout w =
      on_test (Guarded w) r.dry_run _ _ (λ dry. inl (refl, inl dry))
        (λ real.
          on_test (Guarded w) (str_eq r.path "") _ _ (λ empty. inl (refl, inr (_, refl)))
            (λ named.
              trusted-Guarded (positive timeout) w real (validate_executable programs r.path) refl))
