-- ===== src/Protocol/Allowlist.antt =====
-- The allowlist of agent/internal/protocol/protocol.go against the announced capabilities, and the
-- codes with which `ValidateCommand` refuses.
use mathlib.Core.List.{Memᴰ}
use vps_tool.Prelude.{
  ◌<◌, ◌≡◌, ◌≢◌, ◌↔◌, ◌⊎◌, inl, inr, refl, sym, Bool-cases, Bool, true, false, ◌||◌, some, List, [],
  ◌∷◌, String, str_eq, str_eq_refl, eq_iff, arith, Dict, lookup, All,
}
use vps_tool.Common.{Bytes, Time, Error}
use vps_tool.Protocol.Actions.{action_set, is_some, is_state_changing, actions}
use vps_tool.Protocol.Messages.{Json, Command}
use vps_tool.Protocol.Commands.{
  check_change_ip, decode_change_ip, check_backup, decode_backup, failure, validate_parameters,
  is_known, validate_command, validation_code,
}

abbrev keys {ℓ} : {V : Type ℓ} → Dict V → List String
keys [] = []
keys ((k, _) ∷ m) = k ∷ keys m

key_of_lookup {ℓ} :
    {V : Type ℓ} (k : String) (m : Dict V) → is_some (lookup k m) ≡ true → Memᴰ k (keys m)
unfolding lookup
key_of_lookup k [] h = cc
key_of_lookup k ((j, v) ∷ m) h = elim (Bool-cases (str_eq j k)) [
  | inl e ↦ Memᴰ.head (sym ((eq_iff j k).0 e))
  | inr n ↦ Memᴰ.tail (key_of_lookup k m (rw n at h))
]

lookup_of_key {ℓ} :
    {V : Type ℓ} (k : String) (m : Dict V) → Memᴰ k (keys m) → is_some (lookup k m) ≡ true
unfolding lookup
lookup_of_key k [] m = elim m [ ]
lookup_of_key k ((j, v) ∷ m) (Memᴰ.head e) = rw (e, str_eq_refl)
lookup_of_key k ((j, v) ∷ m) (Memᴰ.tail t) = elim (Bool-cases (str_eq j k)) [
  | inl e ↦ rw e
  | inr n ↦ rw n (lookup_of_key k m t)
]

All-Memᴰ {ℓ κ} : {A : Type ℓ} (P : A → Type κ) (a : A) (xs : List A) → All P xs → Memᴰ a xs → P a
All-Memᴰ P a [] h m = elim m [ ]
All-Memᴰ P a (x ∷ xs) h (Memᴰ.head e) = rw e h.0
All-Memᴰ P a (x ∷ xs) h (Memᴰ.tail t) = All-Memᴰ P a xs h.1 t

-- The two actions that only read.
abbrev reads_only : String → Bool
reads_only a = str_eq a "get_status" || str_eq a "get_ip"

split_actions : All (λ a. (reads_only a || is_state_changing a) ≡ true) actions
unfolding is_state_changing lookup
split_actions =
    (refl, (refl, (refl, (refl, (refl, (refl, (refl, (refl, (refl, (refl, (refl, tt)))))))))))

reads_only-not : (a : String) → reads_only a ≡ true → is_state_changing a ≡ false
unfolding is_state_changing lookup
reads_only-not a h = elim (Bool-cases (str_eq a "get_status")) [
  | inl e ↦ rw ((eq_iff a "get_status").0 e)
  | inr n ↦ rw ((eq_iff a "get_ip").0 (rw n at h))
]

known_of_changing : (a : String) → is_state_changing a ≡ true → is_known a ≡ true
unfolding is_state_changing
known_of_changing a h = ground arith

-- The agent announces exactly the actions of its allowlist, and all of them change the state of
-- the node but get_status and get_ip.
pub announced_iff :
    (action : String)
    → ((is_known action ≡ true) ↔ Memᴰ action actions)
      × ((is_state_changing action ≡ true)
          ↔ ((is_known action ≡ true) × (action ≢ "get_status") × (action ≢ "get_ip")))
announced_iff action = (
  (λ h. key_of_lookup action action_set h, λ m. lookup_of_key action action_set m),
  (
    λ h. (
      known_of_changing action h,
      λ e. ground (arith, h, reads_only-not action, eq_iff action "get_status"),
      λ e. ground (arith, h, reads_only-not action, eq_iff action "get_ip"),
    ),
    λ h. ground (
      arith,
      All-Memᴰ (λ a. (reads_only a || is_state_changing a) ≡ true) action actions split_actions
          (key_of_lookup action action_set h.0),
      h.1,
      h.2,
      eq_iff action "get_status",
      eq_iff action "get_ip",
    ),
  ),
)

change_ip-invalid :
    (json : Json) (raw : Bytes) (e : Error)
    → failure (decode_change_ip json raw) ≡ some e
    → e.validation ≡ some "invalid_parameters"
unfolding decode_change_ip check_change_ip
change_ip-invalid json raw e h = ground arith

backup-invalid :
    (json : Json) (raw : Bytes) (e : Error)
    → failure (decode_backup json raw) ≡ some e
    → e.validation ≡ some "invalid_parameters"
unfolding decode_backup check_backup
backup-invalid json raw e h = ground arith

parameters-invalid :
    (json : Json) (action : String) (raw : Bytes) (e : Error)
    → validate_parameters json action raw ≡ some e
    → e.validation ≡ some "invalid_parameters"
unfolding validate_parameters
parameters-invalid json action raw e h =
    ground (arith, change_ip-invalid json raw e, backup-invalid json raw e)

-- A command that is refused is refused with one of three codes: unsupported_action only if the
-- action is not in the allowlist, request_expired only if its deadline has passed, and
-- invalid_parameters otherwise.
pub validate_command_codes :
    (json : Json) (c : Command) (expected : String) (now : Time) (e : Error)
    → validate_command json c expected now ≡ some e
    → (validation_code e ≡ "invalid_parameters")
      ⊎ (((validation_code e ≡ "unsupported_action") × (is_known c.action ≡ false))
          ⊎ ((validation_code e ≡ "request_expired") × (0 < now) × (c.deadline_at < now)))
unfolding validate_command validation_code
validate_command_codes json c expected now e h =
    ground (arith, parameters-invalid json c.action c.parameters e)
