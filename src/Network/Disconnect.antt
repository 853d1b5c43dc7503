-- ===== src/Network/Disconnect.antt =====
-- `handle_disconnect` of src/Network.cpp, which runs when a peer's connection is closed.
pub mod Ends
pub mod Renamed
use rac_kun.Text.{bytes_less}
use rac_kun.Network.Join.{update_group}
use rac_kun.Peer.{set_state, new, get_address}
use rac_kun.OrdMap.{position, erase}
use rac_kun.Prelude.{not, length, ◌==◌, ◌∷◌, ◌&&◌, [], zero}
use rac_kun.Exec.{◌>>=◌, ◌>>◌, pure, gets, modify, lift, pointee}
use rac_kun.Group
use rac_kun.Network.{
  Network, Env, Method, ℕ, if◌then◌else◌, PeerRef, GroupRef, OrdMap, Bool, id_of, Bytes, ok, hang,
  write_group, write_peer, suc, none,
}

-- A loop over the entries of `groups`.
unfoldable pub each_group : (GroupRef → Method Unit) → OrdMap Bytes GroupRef → Method Unit
each_group body [] = pure tt
each_group body ((id, g) ∷ m) = body g >> each_group body m

module _ (env : Env) where
  -- `group->remove_peer(p)`
  unfoldable pub remove_from : PeerRef → GroupRef → Method Bool
  remove_from p g = do
    r ← gets (λ n. Group.remove_peer env.sha1 (id_of n) p (n.group_store g))
    modify (write_group g r.0)
    pure r.1

  -- The `while` loop that looks for the peer's group. Its iterator stays where it is in a round that
  -- does not find the peer. The fuel bounds the rounds.
  unfoldable pub search_group : ℕ → PeerRef → OrdMap Bytes GroupRef → Method Unit
  search_group zero p it = lift hang
  search_group (suc fuel) p [] = pure tt
  search_group (suc fuel) p ((id, g) ∷ it) =
      let again = search_group fuel p ((id, g) ∷ it) in
      remove_from p g >>= λ found. if found then update_group env g else again

  -- What follows the erasure from `peers`.
  unfoldable pub leave_groups : ℕ → PeerRef → Method Unit
  leave_groups fuel p = do
    local ← pointee (λ (n : Network). n.local_group)
    was_ours ← remove_from p local
    groups ← gets (λ n. n.groups)
    if was_ours
        then each_group (λ g. remove_from p g >> update_group env g) groups
        else search_group fuel p groups

  -- The node is alone: it is NEW again. The channel markers stay.
  unfoldable pub reset_if_alone : Method Unit
  reset_if_alone n =
      if length n.peers == 0 && length n.new_peers == 0
      then (
        ok tt,
        write_peer n.local_peer (set_state new) (record n { groups = []; local_group = none }),
      )
      else (ok tt, n)

  unfoldable pub handle_disconnect : ℕ → PeerRef → Method Unit
  handle_disconnect fuel p = do
    known ← gets (λ n. not (position (id_of n p) n.peers == length n.peers))
    if known
        then (do modify (λ n. record n { peers = erase (id_of n p) n.peers }); leave_groups fuel p)
        else modify (λ n. record n { new_peers = erase (get_address (n.store p)) n.new_peers })
    reset_if_alone
