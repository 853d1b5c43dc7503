-- ===== src/Network/Wide/Disconnect.antt =====
-- The end of a connection keeps the widths.
use rac_kun.Text.{bytes_less}
use rac_kun.Exec.Follows.{Follows-bind, Follows-if}
use rac_kun.Prelude.{◌==◌, ◌∷◌, ◌&&◌, zero}
use rac_kun.Network.Disconnect.{reset_if_alone, handle_disconnect, search_group, leave_groups}
use rac_kun.Peer.{new}
use rac_kun.Network.Wide.Methods.{
  Digests, widens_rules, remove_from-Widens, Follows-each_Widens, update_group-Widens,
}
use rac_kun.Network.{Env, PeerRef, Bytes, ℕ, GroupRef, OrdMap, [], suc}
use rac_kun.Network.Wide.{
  Widens-IsPreorder, Follows, Widens, Bool-cases, follows_rules, length, inl, widens_own, inr,
}

module _ (env : Env) (digests : Digests env) where
  search_group-Widens :
      (fuel : ℕ) (p : PeerRef) (m : OrdMap Bytes GroupRef)
      → Follows Widens (search_group env fuel p m)
  unfolding search_group
  search_group-Widens zero p m = search follows_rules
  search_group-Widens (suc fuel) p [] = search follows_rules
  search_group-Widens (suc fuel) p ((id, g) ∷ m) =
      Follows-bind _ _ (remove_from-Widens env p g) λ found.
        Follows-if found _ _ (update_group-Widens env g) (search_group-Widens fuel p ((id, g) ∷ m))

  reset_if_alone-Widens : Follows Widens (reset_if_alone env)
  unfolding reset_if_alone
  reset_if_alone-Widens = record {
    at = λ n. elim (Bool-cases (length n.peers == 0 && length n.new_peers == 0)) [
      | inl e ↦ rw e (λ w.
          let w' = widens_own new n w in
          record {
            fresh = w'.fresh;
            own = w'.own;
            named = w'.named;
            housed = λ h. cc;
            readable = w'.readable;
          })
      | inr e ↦ rw e (λ w. w)
    ];
  }

  pub handle_disconnect-Widens :
      (fuel : ℕ) (p : PeerRef) → Follows Widens (handle_disconnect env fuel p)
  unfolding handle_disconnect leave_groups
  handle_disconnect-Widens fuel p =
      search
        (
          widens_rules, reset_if_alone-Widens, remove_from-Widens, Follows-each_Widens,
          search_group-Widens, update_group-Widens,
        )
        depth 16
