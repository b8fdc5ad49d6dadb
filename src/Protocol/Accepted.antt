-- ===== src/Protocol/Accepted.antt =====
-- Which commands `ValidateCommand` of agent/internal/protocol/protocol.go accepts, and the codes of
-- its refusals.
use vps_tool.Prelude.{
  ℕ, ◌≤◌, ◌<◌, ◌≡◌, ◌≢◌, ◌↔◌, ◌⊎◌, inl, inr, refl, Bool-cases, true, false, ◌||◌, Option, none,
  some, String, str_eq, eq_iff, arith, ℤ, pos, negsuc, lookup,
}
use mathlib.Core.Path.{subst}
use vps_tool.Common.{bind-Chained, Bytes, Time, Result, ok, err, map_error}
use vps_tool.Validation.Rules.{request_id}
use vps_tool.Protocol.Messages.{Json, Command, ChangeIpParameters, BackupParameters}
use vps_tool.Protocol.Commands.{
  undecodable, decode_object, outside, check_change_ip, decode_change_ip, decode_backup, failure,
  validate_parameters, is_known, validate_command,
}

-- An optional number that is absent or lies in a range.
abbrev pub Within : ℕ → ℕ → Option ℤ → Type 0
Within lo hi none = Unit
Within lo hi (some (pos n)) = (lo ≤ n) × (n ≤ hi)
Within lo hi (some (negsuc n)) = ⊥

outside-Within : (lo hi : ℕ) (v : Option ℤ) → outside lo hi v ≡ false → Within lo hi v
outside-Within lo hi none h = tt
outside-Within lo hi (some (pos n)) h = ground arith
outside-Within lo hi (some (negsuc n)) h = ground arith

check_change_ip-Within :
    (p q : ChangeIpParameters)
    → check_change_ip p ≡ ok q
    → Within 1 3 q.max_attempts × Within 30 180 q.timeout_seconds
unfolding check_change_ip
check_change_ip-Within p q h = elim (Bool-cases (outside 1 3 p.max_attempts)) [
  | inl bad ↦ cc (rw bad at h)
  | inr a ↦ elim (Bool-cases (outside 30 180 p.timeout_seconds)) [
    | inl bad ↦ cc (rw (a, bad) at h)
    | inr b ↦
        let e : p ≡ q = cc (rw (a, b) at h) in
        subst (λ x. Within 1 3 x.max_attempts × Within 30 180 x.timeout_seconds) e
          (outside-Within 1 3 p.max_attempts a, outside-Within 30 180 p.timeout_seconds b)
  ]
]

-- Parameters of change_ip that decode have between 1 and 3 attempts and between 30 and 180
-- seconds, where they are given.
pub decode_change_ip-Within :
    (json : Json) (raw : Bytes) (p : ChangeIpParameters)
    → decode_change_ip json raw ≡ ok p
    → Within 1 3 p.max_attempts × Within 30 180 p.timeout_seconds
unfolding decode_change_ip
decode_change_ip-Within json raw p h =
    let c = bind-Chained (map_error undecodable (decode_object json json.decode_change_ip raw)) h in
    check_change_ip-Within c.answer p c.after

-- The parameters of an action are usable: those of `change_ip` and of the backup actions decode,
-- those of any other are an empty object.
pub data Usable (json : Json) (action : String) (raw : Bytes) : Type 0 where
  for_change_ip :
      action ≡ "change_ip"
      → (p : ChangeIpParameters) → decode_change_ip json raw ≡ ok p
      → Usable json action raw
  for_backup :
      (action ≡ "backup_xui") ⊎ (action ≡ "restore_xui")
      → (p : BackupParameters) → decode_backup json raw ≡ ok p
      → Usable json action raw
  for_other :
      action ≢ "change_ip"
      → action ≢ "backup_xui"
      → action ≢ "restore_xui"
      → decode_object json json.decode_empty raw ≡ ok tt
      → Usable json action raw

pub record Acceptable (json : Json) (c : Command) (expected : String) (now : Time) : Type 0 where
  pub id_ok : request_id c.request_id ≡ true
  pub for_us : c.node_id ≡ expected
  pub known : is_known c.action ≡ true
  pub issued : 0 < c.issued_at
  pub ordered : c.issued_at < c.deadline_at
  pub in_time : (now ≡ 0) ⊎ (now ≤ c.deadline_at)
  pub usable : Usable json c.action c.parameters

failure-ok {ℓ} : {A : Type ℓ} (r : Result A) → failure r ≡ none → (a : A) × (r ≡ ok a)
failure-ok (ok a) h = (a, refl)
failure-ok (err e) h = cc

validate_parameters-Usable :
    (json : Json) (action : String) (raw : Bytes)
    → validate_parameters json action raw ≡ none
    → Usable json action raw
unfolding validate_parameters
validate_parameters-Usable json action raw h = elim (Bool-cases (str_eq action "change_ip")) [
  | inl c ↦
      let (p, decoded) = failure-ok (decode_change_ip json raw) (rw c at h) in
      for_change_ip ((eq_iff action "change_ip").0 c) p decoded
  | inr c ↦ elim (Bool-cases (str_eq action "backup_xui" || str_eq action "restore_xui")) [
    | inl b ↦
        let (p, decoded) = failure-ok (decode_backup json raw) (rw (c, b) at h) in
        for_backup (ground (arith, b, eq_iff action "backup_xui", eq_iff action "restore_xui")) p
          decoded
    | inr b ↦
        let (_, decoded) =
          failure-ok (map_error undecodable (decode_object json json.decode_empty raw))
            (rw (c, b) at h) in
        for_other (λ e. ground (arith, c, eq_iff action "change_ip"))
          (λ e. ground (arith, b, eq_iff action "backup_xui"))
          (λ e. ground (arith, b, eq_iff action "restore_xui")) (ground (arith, decoded))
  ]
]

Usable-validate_parameters :
    (json : Json) (action : String) (raw : Bytes)
    → Usable json action raw
    → validate_parameters json action raw ≡ none
unfolding validate_parameters
Usable-validate_parameters json action raw (for_change_ip e p decoded) =
    ground (arith, decoded, eq_iff action "change_ip")
Usable-validate_parameters json action raw (for_backup (inl e) p decoded) =
    rw e (ground (arith, decoded))
Usable-validate_parameters json action raw (for_backup (inr e) p decoded) =
    rw e (ground (arith, decoded))
Usable-validate_parameters json action raw (for_other c b r decoded) = ground (
  arith,
  decoded,
  eq_iff action "change_ip",
  eq_iff action "backup_xui",
  eq_iff action "restore_xui",
)

known_nonempty : (action : String) → is_known action ≡ true → str_eq action "" ≡ false
unfolding lookup
known_nonempty action h = elim (Bool-cases (str_eq action "")) [
  | inl e ↦ cc (subst (λ a. is_known a ≡ true) ((eq_iff action "").0 e) h)
  | inr n ↦ n
]

-- ValidateCommand accepts a command exactly if its id is valid, it is for this node, its action is
-- in the allowlist, it is issued at a time that is set and before its deadline, the deadline has
-- not passed (where a current time is given), and its parameters are usable for its action.
pub validate_command_iff :
    (json : Json) (c : Command) (expected : String) (now : Time)
    → (validate_command json c expected now ≡ none) ↔ Acceptable json c expected now
unfolding validate_command
validate_command_iff json c expected now = (
  λ h. record {
    id_ok = ground arith;
    for_us = ground (arith, eq_iff c.node_id expected);
    known = ground arith;
    issued = ground arith;
    ordered = ground arith;
    in_time = ground arith;
    usable = validate_parameters-Usable json c.action c.parameters (ground arith);
  },
  λ a. ground (
    arith,
    a,
    Usable-validate_parameters json c.action c.parameters a.usable,
    eq_iff c.node_id expected,
    known_nonempty c.action a.known,
  ),
)
