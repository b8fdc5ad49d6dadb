-- ===== src/Protocol/Actions.antt =====
-- The allowlist of agent/internal/protocol/protocol.go: `actionSet`, `IsStateChanging`, `Actions`.
use vps_tool.Prelude.{Bool, true, false, Option, none, some, List, [], ◌∷◌, String, Dict, lookup}

-- The actions, and whether each changes the state of the node.
abbrev pub action_set : Dict Bool
action_set =
    ("get_status", false)
    ∷ ("get_ip", false)
    ∷ ("warp_on", true)
    ∷ ("warp_off", true)
    ∷ ("change_ip", true)
    ∷ ("restart_xui", true)
    ∷ ("upgrade_agent", true)
    ∷ ("install_warp", true)
    ∷ ("install_xui", true)
    ∷ ("backup_xui", true)
    ∷ ("restore_xui", true)
    ∷ []

-- A map of Booleans answers false for a key that it lacks.
abbrev pub or_false : Option Bool → Bool
or_false none = false
or_false (some b) = b

-- `_, ok := actionSet[action]`.
abbrev pub is_some {ℓ} : {A : Type ℓ} → Option A → Bool
is_some none = false
is_some (some _) = true

unfoldable pub is_state_changing : String → Bool
is_state_changing action = or_false (lookup action action_set)

-- The capabilities that the agent announces.
abbrev pub actions : List String
actions =
    "get_status" ∷ "get_ip" ∷ "warp_on" ∷ "warp_off" ∷ "change_ip" ∷ "restart_xui" ∷ "upgrade_agent"
    ∷ "install_warp" ∷ "install_xui" ∷ "backup_xui" ∷ "restore_xui" ∷ []
