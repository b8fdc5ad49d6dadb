-- ===== src/Executor/Outcome.antt =====
-- The results of actions in agent/internal/action/executor.go: their id, action, state and code.
use vps_tool.Prelude.{
  ℕ, ◌≡◌, refl, ◌⊎◌, ◌↔◌, ◌∙◌, sym, ap, inl, inr, Bool, true, false, Option, none, some, String,
  str_eq, arith, if◌then◌else◌,
}
use vps_tool.Common.{Error, err, Result-cases}
use vps_tool.Protocol.Messages.{Json, Command, ChangeIpParameters}
use vps_tool.Protocol.Commands.{decode_change_ip}
use vps_tool.Executor.Results.{ActionResult}
use vps_tool.Executor.Dispatch.{
  Deadline, Node, Installer, Transport, conclude, Operation, run_operation, run_change,
  run_change_ip, run_action,
}

-- A result of `execute`: it answers the command, and is a success with the code `ok` or a failure.
pub record Answers {W P : Type 0} (c : Command) (r : W × ActionResult P) : Type 0 where
  pub same_id : r.1.request_id ≡ c.request_id
  pub same_action : r.1.action ≡ c.action
  pub verdict : ((r.1.state ≡ "succeeded") × (r.1.code ≡ "ok")) ⊎ (r.1.state ≡ "failed")

conclude-Answers :
    {W P : Type 0} (w : W) (c : Command) (now : ℕ) (payload : Option P) (e : Option Error)
    → Answers c (w, conclude c now payload e)
unfolding conclude
conclude-Answers w c now payload none = record {
  same_id = refl;
  same_action = refl;
  verdict = inl (refl, refl);
}
conclude-Answers w c now payload (some e) = record {
  same_id = refl;
  same_action = refl;
  verdict = inr refl;
}

if-Answers :
    {W P : Type 0} (c : Command) (b : Bool) (x y : W × ActionResult P)
    → Answers c x
    → Answers c y
    → Answers c (if b then x else y)
if-Answers c true x y h k = h
if-Answers c false x y h k = k

differ : (x : String) → x ≡ "succeeded" → ¬ (x ≡ "failed")
differ x h k =
    let contrary : false ≡ true = ap (λ (s : String). str_eq s "failed") (sym h ∙ k) in ground arith

module _ {W P : Type 0} (json : Json) (node : Node W P) (ctx : Deadline) (c : Command) where
  operation-Answers : (op : Operation W P) (w : W) → Answers c (run_operation json node ctx c op w)
  unfolding run_operation
  operation-Answers op w = conclude-Answers (op w).0 c (node.now (op w).0) (op w).1.0 (op w).1.1

  change-Answers : (p : ChangeIpParameters) (w : W) → Answers c (run_change json node ctx c p w)
  unfolding run_change
  change-Answers p w = ground arith

  change_ip-Answers : (w : W) → Answers c (run_change_ip json node ctx c w)
  unfolding run_change_ip
  change_ip-Answers w = elim (Result-cases (decode_change_ip json c.parameters)) [
    | inl (p, d) ↦ rw (d, run_change_ip) (change-Answers p w)
    | inr (e, d) ↦ rw (d, run_change_ip) (conclude-Answers w c (node.now w) none (some e))
  ]

  -- Whatever the action does, its result carries the id and the action of the command, and is
  -- either a success with the code ok or a failure.
  pub run_action-Answers :
      (installer : Option (Installer W P)) (transport : Option (Transport W P)) (w : W)
      → Answers c (run_action json node ctx c installer transport w)
  unfolding run_action
  run_action-Answers installer transport w =
      if-Answers c (str_eq c.action "get_status") _ _ (operation-Answers _ w) (
        if-Answers c (str_eq c.action "get_ip") _ _ (operation-Answers _ w) (
          if-Answers c (str_eq c.action "warp_on") _ _ (operation-Answers _ w) (
            if-Answers c (str_eq c.action "warp_off") _ _ (operation-Answers _ w) (
              if-Answers c (str_eq c.action "change_ip") _ _ (change_ip-Answers w) (
                if-Answers c (str_eq c.action "restart_xui") _ _ (operation-Answers _ w) (
                  if-Answers c (str_eq c.action "upgrade_agent") _ _ (operation-Answers _ w) (
                    if-Answers c (str_eq c.action "install_warp") _ _ (operation-Answers _ w) (
                      if-Answers c (str_eq c.action "install_xui") _ _ (operation-Answers _ w) (
                        if-Answers c (str_eq c.action "backup_xui") _ _ (operation-Answers _ w) (
                          if-Answers c (str_eq c.action "restore_xui") _ _ (operation-Answers _ w)
                            (operation-Answers _ w)))))))))))

  run_action-change_ip :
      (installer : Option (Installer W P)) (transport : Option (Transport W P)) (w : W)
      → c.action ≡ "change_ip"
      → run_action json node ctx c installer transport w ≡ run_change_ip json node ctx c w
  unfolding run_action
  run_action-change_ip installer transport w a = rw (a, run_action)

  change-succeeds :
      (p : ChangeIpParameters) (w : W) → (run_change json node ctx c p w).1.state ≡ "succeeded"
  unfolding run_change
  change-succeeds p w = ground arith

  not_failed :
      (p : ChangeIpParameters) (w : W) → ¬ ((run_change json node ctx c p w).1.state ≡ "failed")
  not_failed p w f = differ _ (change-succeeds p w) f

  -- The result of a change_ip is failed exactly if its parameters do not decode: whatever the
  -- machine answers, that the change failed included, it is not failed otherwise.
  pub change_ip_fails_iff :
      (installer : Option (Installer W P)) (transport : Option (Transport W P)) (w : W)
      → c.action ≡ "change_ip"
      → ((run_action json node ctx c installer transport w).1.state ≡ "failed")
        ↔ ((e : Error) × (decode_change_ip json c.parameters ≡ err e))
  unfolding run_change_ip conclude
  change_ip_fails_iff installer transport w a =
      rw (run_action-change_ip installer transport w a)
        (elim (Result-cases (decode_change_ip json c.parameters)) [
          | inl (p, d) ↦
              rw (d, run_change_ip) ((λ f. absurd (not_failed p w f)), (λ (e, q). absurd cc))
          | inr (e, d) ↦ rw (d, run_change_ip) ((λ _. (e, refl)), (λ _. refl))
        ])
