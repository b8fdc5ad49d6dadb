-- ===== src/Executor/Bounds.antt =====
-- The options that agent/internal/action/executor.go makes of the parameters of a command, against the
-- range that agent/internal/warpchange/state.go accepts.
use vps_tool.Prelude.{◌≡◌, refl, false, Option, none, some, arith, ℤ, pos, negsuc}
use vps_tool.Common.{Bytes, ok}
use vps_tool.Protocol.Messages.{Json, ChangeIpParameters}
use vps_tool.Protocol.Commands.{decode_change_ip}
use vps_tool.Protocol.Accepted.{Within, decode_change_ip-Within}
use vps_tool.WarpChange.Run.{default_options, out_of_range}
use vps_tool.Executor.Dispatch.{or_zero, seconds, change_options}

options_in_range :
    (a t : Option ℤ)
    → Within 1 3 a
    → Within 30 180 t
    → out_of_range
        (default_options (record { max_attempts = or_zero a; timeout = seconds (or_zero t) }))
      ≡ false
unfolding out_of_range default_options
options_in_range none none a t = refl
options_in_range none (some (pos n)) a t = ground arith
options_in_range (some (pos k)) none a t = ground arith
options_in_range (some (pos k)) (some (pos n)) a t = ground arith
options_in_range _ (some (negsuc n)) a t = absurd t
options_in_range (some (negsuc k)) _ a t = absurd a

-- Parameters of change_ip that decode give options that the machine does not refuse: behind its
-- defaults they are in its range.
pub change_options-in_range :
    (json : Json) (raw : Bytes) (p : ChangeIpParameters)
    → decode_change_ip json raw ≡ ok p
    → out_of_range (default_options (change_options p)) ≡ false
unfolding change_options
change_options-in_range json raw p h =
    let (a, t) = decode_change_ip-Within json raw p h in
    options_in_range p.max_attempts p.timeout_seconds a t
