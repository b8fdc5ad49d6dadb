-- ===== src/Executor/Touches.antt =====
-- When `Execute` of agent/internal/action/executor.go touches the node.
use vps_tool.Prelude.{◌≡◌, refl, ◌⊎◌, inl, inr, Bool-cases, Option-cases, false, none, arith}
use vps_tool.Journal.Entries.{absent, find_entry}
use vps_tool.Journal.Disk.{Outcomes}
use vps_tool.Protocol.Messages.{Command}
use vps_tool.Protocol.Commands.{validate_command}
use vps_tool.Executor.Dispatch.{run_action}
use vps_tool.Journal.Cases.{Found-cases}
use vps_tool.Executor.Requests.{
  Parts, State, is_active, claim, release, deadline_of, reject, admit_new, admit, run_and_record,
  perform_claimed, perform, execute,
}

module _ {W P : Type 0} (parts : Parts W P) (o : Outcomes) (c : Command) (s : State W) where
  -- A new, valid request that is not in progress was carried out, once.
  pub record CarriedOut (t : State W) : Type 0 where
    pub new_id : find_entry s.store.journal c.request_id ≡ absent
    pub valid : validate_command parts.json c parts.node_id (parts.node.now s.world) ≡ none
    pub idle : is_active c.request_id s.active ≡ false
    pub once :
        t.world
        ≡ (run_action parts.json parts.node
            (deadline_of c)
            c
            parts.installer
            parts.transport
            s.world).0

  carried_out :
      find_entry s.store.journal c.request_id ≡ absent
      → validate_command parts.json c parts.node_id (parts.node.now s.world) ≡ none
      → is_active c.request_id s.active ≡ false
      → CarriedOut (execute parts o c s).0
  unfolding execute admit admit_new perform perform_claimed run_and_record claim release
  carried_out h v a = record { new_id = h; valid = v; idle = a; once = ground (arith, h, v, a) }

  -- An Execute leaves the node as it is, or it carries out one run of the action, and this only
  -- for a request id that is new to the journal, a command that validates, and a request that is
  -- not in progress.
  pub execute-Touches :
      ((execute parts o c s).0.world ≡ s.world) ⊎ CarriedOut (execute parts o c s).0
  unfolding execute admit admit_new reject
  execute-Touches = elim (Found-cases (find_entry s.store.journal c.request_id)) [
    | inr (inl bad) ↦ inl (rw (bad, admit) refl)
    | inr (inr (e, seen)) ↦ inl (rw (seen, admit) refl)
    | inl new ↦
        elim (Option-cases (validate_command parts.json c parts.node_id (parts.node.now s.world))) [
          | inr (e, bad) ↦ inl (rw (new, bad, admit, admit_new) refl)
          | inl good ↦ elim (Bool-cases (is_active c.request_id s.active)) [
            | inl busy ↦ inl (ground (arith, new, good, busy))
            | inr idle ↦ inr (carried_out new good idle)
          ]
        ]
  ]
