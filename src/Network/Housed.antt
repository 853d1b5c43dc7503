-- ===== src/Network/Housed.antt =====
-- A node that has groups has a local group.
use rac_kun.Network.Trail.{IsTrail}
use rac_kun.Network.Frame.{IsFrame}
use rac_kun.Network.Logs.{
  log_message, insert_log, new_control, marker_entry, group_entry, acknowledge,
}
use rac_kun.Network.Disconnect.{reset_if_alone}
use rac_kun.Network.{Network, Env, PeerRef}
use rac_kun.Message.{Message}
use rac_kun.Exec.Follows.{IsPreorder, Follows, follows_rules}
use rac_kun.Exec.{modify}
use rac_kun.Prelude.{◌≡◌, refl, none, [], ◌∙◌, sym, Bool-cases, inl, length, inr, ◌==◌, ◌&&◌}

abbrev pub IsHoused : Network → Type 0
IsHoused n = n.local_group ≡ none → n.groups ≡ []

pub record Houses (n n' : Network) : Type 0 where
  pub housed : IsHoused n → IsHoused n'

houses_same : {n n' : Network} → n'.local_group ≡ n.local_group → n'.groups ≡ n.groups → Houses n n'
houses_same e g = record { housed = λ h z. g ∙ h (sym e ∙ z) }

instance pub Houses-IsPreorder : IsPreorder Houses
Houses-IsPreorder = record {
  refl_at = λ n. houses_same refl refl;
  trans = λ n m k h j. record { housed = λ v. j.housed (h.housed v) };
}

acknowledge-Houses : (m : Message) (p : PeerRef) → Follows Houses (acknowledge m p)
unfolding acknowledge modify
acknowledge-Houses m p = record {
  at = λ n. elim (Bool-cases (n.store p).local) [
    | inl e ↦ rw e (houses_same refl refl)
    | inr e ↦ rw e (houses_same refl refl)
  ];
}

log_message-Houses : (m : Message) (p : PeerRef) → Follows Houses (log_message m p)
unfolding log_message insert_log new_control marker_entry group_entry
log_message-Houses m p = search (follows_rules, acknowledge-Houses, houses_same) depth 24

reset_if_alone-Houses : (env : Env) → Follows Houses (reset_if_alone env)
unfolding reset_if_alone
reset_if_alone-Houses env = record {
  at = λ n. elim (Bool-cases (length n.peers == 0 && length n.new_peers == 0)) [
    | inl e ↦ rw e (record { housed = λ h z. refl })
    | inr e ↦ rw e (houses_same refl refl)
  ];
}

instance pub Houses-IsFrame : IsFrame Houses
Houses-IsFrame = record {
  of_same = λ _ _ k. record { housed = λ h z. k.groups_before z ∙ h (k.none_before z) };
  of_log = log_message-Houses;
}

instance pub Houses-IsTrail : IsTrail Houses
Houses-IsTrail = record {
  of_kept = λ _ k. record { housed = λ h z. k.groups_before z ∙ h (k.none_before z) };
  of_count = λ stamp id n. houses_same refl refl;
  of_reset = reset_if_alone-Houses;
}
