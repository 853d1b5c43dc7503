-- ===== src/Network/AppendOnly.antt =====
-- Every method extends the log.
use rac_kun.Network.Frame.Methods.{method_rules}
use rac_kun.Prelude.{refl, Bool-cases, length, ◌==◌, ◌&&◌, inl, inr}
use rac_kun.Exec.Follows.{Follows}
use rac_kun.Network.History.{
  Extends-IsPreorder, Extends, same_logs, same_stamps, stamps-modify_log, log_message-Extends,
}
use rac_kun.Network.Disconnect.{reset_if_alone}
use rac_kun.Network.Frame.{IsFrame}
use rac_kun.Network.Trail.{IsTrail}
use rac_kun.Network.{Env}

instance pub Extends-IsFrame : IsFrame Extends
Extends-IsFrame = record { of_same = λ e _ _. same_logs e; of_log = log_message-Extends }

pub ruleset steps = (method_rules, same_logs)

reset_if_alone-Extends : (env : Env) → Follows Extends (reset_if_alone env)
unfolding reset_if_alone
reset_if_alone-Extends env = record {
  at = λ n. elim (Bool-cases (length n.peers == 0 && length n.new_peers == 0)) [
    | inl e ↦ rw e (same_logs refl)
    | inr e ↦ rw e (same_logs refl)
  ];
}

instance pub Extends-IsTrail : IsTrail Extends
Extends-IsTrail = record {
  of_kept = λ e _. same_logs e;
  of_count = λ stamp id n. same_stamps (stamps-modify_log stamp id n.logs);
  of_reset = reset_if_alone-Extends;
}
