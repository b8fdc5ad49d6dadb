-- ===== src/Executor/Effects.antt =====
-- What `Execute` of agent/internal/action/executor.go leaves behind on every path: the journal's
-- invariant, and the set of requests in progress.
use vps_tool.Prelude.{
  ◌≡◌, refl, inl, inr, Bool-cases, Option-cases, false, none, String, str_eq, eq_iff, arith, lookup,
  lookup-insert, lookup-delete, if◌then◌else◌,
}
use vps_tool.Common.{Error}
use vps_tool.Journal.Entries.{find_entry}
use vps_tool.Journal.Cases.{Found-cases}
use vps_tool.Journal.Disk.{Outcomes}
use vps_tool.Journal.Record.{IsWellFormed, record_entry-IsWellFormed}
use vps_tool.Protocol.Actions.{is_state_changing}
use vps_tool.Protocol.Messages.{Command}
use vps_tool.Protocol.Commands.{validate_command}
use vps_tool.Executor.Results.{persist_result}
use vps_tool.Executor.Requests.{
  Parts, State, Reply, replied, panicked, Admitted, finished, claimed, is_active, bare, claim,
  release, known_reply, reject, admit_new, admit, run_and_record, perform_claimed, perform, execute,
}

abbrev Keeps : {W : Type 0} → State W → State W → Type 0
Keeps s t = IsWellFormed s.store.journal → IsWellFormed t.store.journal

-- The two ways in which `admit` ends.
data AdmitCase {W P : Type 0} (c : Command) (s : State W) (x : State W × Admitted P) : Type 0 where
  ended :
      (r : Reply P) (t : State W)
      → x ≡ (t, finished r)
      → t.active ≡ s.active
      → Keeps s t
      → AdmitCase c s x
  taken :
      is_active c.request_id s.active ≡ false
      → x ≡ (claim c.request_id s, claimed)
      → AdmitCase c s x

-- What `execute` leaves of the state that it was called in.
pub record Settled {W : Type 0} (s t : State W) : Type 0 where
  pub keeps : IsWellFormed s.store.journal → IsWellFormed t.store.journal
  pub released : (k : String) → is_active k t.active ≡ is_active k s.active

module _ {W P : Type 0} (parts : Parts W P) (o : Outcomes) (c : Command) (s : State W) where
  reject-Keeps : (e : Error) → Keeps s (reject parts o c e s).0
  unfolding reject persist_result
  reject-Keeps e w = record_entry-IsWellFormed parts.codec o _ s.store w

  active-reject : (e : Error) → (reject parts o c e s).0.active ≡ s.active
  unfolding reject
  active-reject e = refl

  run-Keeps : Keeps s (run_and_record parts o c s).0
  unfolding run_and_record persist_result
  run-Keeps w = record_entry-IsWellFormed parts.codec o _ s.store w

  active-run : (run_and_record parts o c s).0.active ≡ s.active
  unfolding run_and_record
  active-run = refl

  admit_new-cases : AdmitCase c s (admit_new parts o c s)
  unfolding admit_new
  admit_new-cases =
      elim (Option-cases (validate_command parts.json c parts.node_id (parts.node.now s.world))) [
        | inr (e, bad) ↦
            ended (replied (reject parts o c e s).1) (reject parts o c e s).0 (rw (bad, admit_new))
              (active-reject e) (reject-Keeps e)
        | inl good ↦ elim (Bool-cases (is_active c.request_id s.active)) [
          | inl busy ↦
              ended
                (replied (
                  bare c (parts.node.now s.world) "running" "request_in_progress"
                    "request is already executing"))
                s (rw (good, admit_new) (rw busy)) refl (λ w. w)
          | inr idle ↦ taken idle (rw (good, admit_new) (rw idle))
        ]
      ]

  admit-cases : AdmitCase c s (admit parts o c s)
  unfolding admit
  admit-cases = elim (Found-cases (find_entry s.store.journal c.request_id)) [
    | inl new ↦ rw (new, admit) admit_new-cases
    | inr (inl bad) ↦ ended panicked s (rw (bad, admit)) refl (λ w. w)
    | inr (inr (e, seen)) ↦
        ended (replied (known_reply parts c e (parts.node.now s.world))) s (rw (seen, admit)) refl
          (λ w. w)
  ]

  claimed-Keeps : Keeps s (perform_claimed parts o c s).0
  unfolding perform_claimed
  claimed-Keeps w = elim (Bool-cases (is_state_changing c.action)) [
    | inr reads ↦ rw reads (run-Keeps w)
    | inl changes ↦ elim (Found-cases (find_entry s.store.journal c.request_id)) [
      | inl new ↦ rw (changes, new, perform_claimed) (run-Keeps w)
      | inr (inl bad) ↦ rw (changes, bad, perform_claimed) w
      | inr (inr (e, seen)) ↦ rw (changes, seen, perform_claimed) w
    ]
  ]

  active-claimed : (perform_claimed parts o c s).0.active ≡ s.active
  unfolding perform_claimed
  active-claimed = ground (arith, active-run)

module _ {W P : Type 0} (parts : Parts W P) (o : Outcomes) (c : Command) where
  perform-Keeps : (s : State W) → Keeps s (perform parts o c s).0
  unfolding perform release
  perform-Keeps s w = claimed-Keeps parts o c s w

  perform-released :
      (s : State W) (k : String)
      → lookup k (perform parts o c s).0.active
        ≡ (if str_eq c.request_id k then none else lookup k s.active)
  unfolding perform release
  perform-released s k = rw (active-claimed parts o c s) (lookup-delete c.request_id k s.active)

  taken-Settled :
      (s : State W)
      → is_active c.request_id s.active ≡ false
      → Settled s (perform parts o c (claim c.request_id s)).0
  unfolding claim
  taken-Settled s idle = record {
    keeps = perform-Keeps (claim c.request_id s);
    released = λ k. ground (
      arith,
      idle,
      perform-released (claim c.request_id s) k,
      lookup-insert c.request_id k tt s.active,
      eq_iff c.request_id k,
    );
  }

  -- Execute keeps the invariant of the journal, whichever way it ends, and in the end the requests
  -- in progress are those of the beginning: a claim that it took is released again.
  pub execute-Settled : (s : State W) → Settled s (execute parts o c s).0
  unfolding execute
  execute-Settled s = elim (admit-cases parts o c s) [
    | ended r t p a k ↦ rw p (record { keeps = k; released = λ j. rw a })
    | taken idle p ↦ rw p (taken-Settled s idle)
  ]
