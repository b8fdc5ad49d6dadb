-- ===== src/Helper/Returned.antt =====
-- What a call of agent/internal/helper/helper.go returns of the output of a command.
use vps_tool.Prelude.{
  ◌≡◌, ◌↔◌, ◌∙◌, sym, ap, inl, inr, false, Option, none, some, List, String, ℤ, arith,
}
use vps_tool.Common.{Bytes, Error, Result, ok}
use vps_tool.Helper.Calls.{
  Exec, Ended, RunError, not_exist, failed, judged, Runner, Command, call_output_with_timeout,
}
use vps_tool.Helper.Executable.{Programs}
use vps_tool.Helper.Trust.{Allowed, Guarded, call_output-Guarded}
use vps_tool.WarpChange.Machine.{Context}

abbrev Accepted : {W : Type 0} → Exec W → Bytes → Ended → Type 0
Accepted exec bytes e = (e.over ≡ none) × (e.failure ≡ none) × (e.out ≡ bytes)

module _ {W : Type 0} (exec : Exec W) (out errors bytes : Bytes) where
  abbrev ending : Option Error → Option RunError → Ended
  ending over failure = record { out = out; errors = errors; over = over; failure = failure }

  ending_iff :
      (over : Option Error) (failure : Option RunError)
      → (judged exec (ending over failure) ≡ ok bytes) ↔ Accepted exec bytes (ending over failure)
  unfolding judged
  ending_iff (some e) failure = ground arith
  ending_iff none (some (not_exist e)) = ground arith
  ending_iff none (some (failed e)) = ground arith
  ending_iff none none = ground arith

-- A command that was run is answered with bytes, and no error, exactly if its context was not
-- over, it ended without a failure, and the bytes are all of its output: nothing is cut off, and
-- no length of the output is refused.
pub judged_iff :
    {W : Type 0} (exec : Exec W) (bytes : Bytes) (e : Ended)
    → (judged exec e ≡ ok bytes) ↔ ((e.over ≡ none) × (e.failure ≡ none) × (e.out ≡ bytes))
judged_iff exec bytes e = ending_iff exec e.out e.errors bytes e.over e.failure

module _ {W : Type 0} (exec : Exec W) (programs : Programs) (c : Context) (r : Runner)
    (args : List String) where
  -- One allowed command was started at the world `w`, ended without a failure before its context
  -- was over, and wrote just these bytes.
  pub record Answered (bytes : Bytes) (w : W) (x : W) : Type 0 where
    pub command : Command
    pub allowed : Allowed programs r args command
    pub world : x ≡ (exec.run c command w).0
    pub in_time : (exec.run c command w).1.over ≡ none
    pub succeeded : (exec.run c command w).1.failure ≡ none
    pub output : (exec.run c command w).1.out ≡ bytes

  Guarded-Answered :
      (w : W) (x : W × Result Bytes) (bytes : Bytes)
      → Guarded exec programs c r args w x
      → r.dry_run ≡ false
      → x.1 ≡ ok bytes
      → Answered bytes w x.0
  Guarded-Answered w x bytes (inl (same, inl dry)) real h = cc
  Guarded-Answered w x bytes (inl (same, inr (e, bad))) real h = cc
  Guarded-Answered w x bytes (inr (command, allowed, q, ended)) real h =
      let judgement = sym (ap (λ (y : W × Result Bytes). y.1) ended) ∙ h in
      let (in_time, succeeded, output) =
        (judged_iff exec bytes (exec.run c command w).1).0 judgement in
      record {
        command = command;
        allowed = allowed;
        world = ap (λ (y : W × Result Bytes). y.0) ended;
        in_time = in_time;
        succeeded = succeeded;
        output = output;
      }

  -- Outside a dry run, a call that answers with bytes started one command, an allowed one as in
  -- the theorem on which commands are run, on the world as it was; that command ended without a
  -- failure before its context was over, and the bytes are all of its output.
  pub call_output-Answered :
      (running : Bytes) (timeout : ℤ) (w : W) (bytes : Bytes)
      → r.dry_run ≡ false
      → (call_output_with_timeout exec programs running c r args timeout w).1 ≡ ok bytes
      → Answered bytes w (call_output_with_timeout exec programs running c r args timeout w).0
  call_output-Answered running timeout w bytes real h =
      Guarded-Answered w (call_output_with_timeout exec programs running c r args timeout w) bytes
        (call_output-Guarded exec programs c r args running timeout w) real h
