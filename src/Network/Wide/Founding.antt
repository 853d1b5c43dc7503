-- ===== src/Network/Wide/Founding.antt =====
-- A new group, as the founder's, as the first one that is learned, or as another one, keeps the widths.
use rac_kun.Network.Send.{local_group_id}
use rac_kun.Exec.Follows.{modify_at}
use rac_kun.Exec.{modify, gets, option_case, pure, ◌>>◌}
use rac_kun.Group.{make_group, add_to_rings, add_group_to_rings}
use rac_kun.Peer.{set_state, connected}
use rac_kun.Text.{bytes_less}
use rac_kun.Network.Wide.{
  Widens-IsPreorder, Bool-cases, inl, inr, widens_group, widens_same, widens_own,
}
use rac_kun.Exec.{◌>>=◌}
use rac_kun.Prelude.{refl, arith, ◌==◌, ◌++◌, none}
use rac_kun.Network.Handlers.{found_group, learn_group}
use rac_kun.Network.Wide.Methods.{Digests, widens_rules, local_group_id-Widens}
use rac_kun.Network.{
  Env, create_group, GroupRef, ◌>>=◌, Bytes, now, Method, write_peer, Option, write_group, insert,
  suc, id_of, make_channel_marker,
}
use rac_kun.Message.{group_id_length}
use rac_kun.Network.Wide.{Network, ◌≡◌, length, Follows, Widens, some, subst}
use rac_kun.Utils.{make_hash, itos}

module _ (env : Env) (digests : Digests env) where
  -- A new group that becomes the local one, or not.
  create_group-Widens :
      (id : Bytes) → length id ≡ group_id_length → Follows Widens (create_group id)
  unfolding create_group make_group
  create_group-Widens id full = record {
    at = λ n w. record {
      fresh = w.fresh;
      own = w.own;
      named = w.named;
      housed = λ {g = r} e. elim (Bool-cases (n.next_group == r)) [
        | inl b ↦ rw b full
        | inr b ↦ rw b (w.housed e)
      ];
      readable = w.readable;
    };
  }

  widens_adopt :
      (g : GroupRef) (n : Network)
      → length (n.group_store g).id ≡ group_id_length
      → Widens n (record n { local_group = some g })
  widens_adopt g n full w = record {
    fresh = w.fresh;
    own = w.own;
    named = w.named;
    housed = λ {g = r} e.
        let same : g ≡ r = cc e in
        subst (λ x. length (n.group_store x).id ≡ group_id_length) same full;
    readable = w.readable;
  }

  created :
      (id : Bytes) (n : Network)
      → length id ≡ group_id_length
      → length ((create_group id n).1.group_store n.next_group).id ≡ group_id_length
  unfolding create_group make_group
  created id n full = ground (arith, full)

  -- The group of a founder, with the local peer on its rings.
  abbrev establish : Bytes → Method Unit
  establish id = do
    g ← create_group id
    modify (λ n. record n {
      local_group = some g;
      channel_markers = insert (make_channel_marker env id id) id n.channel_markers;
    })
    modify (λ n. write_group g (add_to_rings env.sha1 (id_of n) n.local_peer (n.group_store g)) n)

  establish-Widens : (id : Bytes) → length id ≡ group_id_length → Follows Widens (establish id)
  unfolding ◌>>=◌ modify create_group add_to_rings
  establish-Widens id full = record {
    at = λ n w.
        let g = n.next_group in
        let n1 = (create_group id n).1 in
        let n2 = record n1 {
          local_group = some g;
          channel_markers = insert (make_channel_marker env id id) id n.channel_markers;
        } in
        widens_group g (add_to_rings env.sha1 (id_of n2) n2.local_peer (n2.group_store g)) n2 refl (
          widens_same refl refl refl refl refl refl
            (widens_adopt g n1 (created id n full) ((create_group-Widens id full).at n w)));
  }

  pub found_group-Widens : Follows Widens (found_group env)
  unfolding found_group ◌>>=◌ gets modify now make_hash
  found_group-Widens = record {
    at = λ n w.
        let n1 = record (write_peer n.local_peer (set_state connected) n) { clock = suc n.clock } in
        let id = make_hash env.sha1 (id_of n1 n1.local_peer ++ itos (env.time n.clock)) in
        (establish-Widens id (digests _)).at n1
          (widens_same refl refl refl refl refl refl (widens_own connected n w));
  }

  -- What follows the choice between the local group and another one.
  abbrev mark : GroupRef → Bytes → Method GroupRef
  mark g id = do
    local_id ← local_group_id env
    modify (λ (n : Network). record n {
      channel_markers = insert (make_channel_marker env local_id id) id n.channel_markers;
    })
    pure g

  mark-Widens : (g : GroupRef) (id : Bytes) → Follows Widens (mark g id)
  mark-Widens g id = search (widens_rules, local_group_id-Widens) depth 8

  adopt_at :
      (g : GroupRef) (x : Option GroupRef) (k : Method GroupRef) (n : Network)
      → length (n.group_store g).id ≡ group_id_length
      → Follows Widens k
      → Widens n
          ((option_case x (modify (λ (s : Network). record s { local_group = some g })) (λ l.
                modify (λ s.
                  write_group g
                    (add_group_to_rings env.sha1 (id_of s) (s.group_store l) (s.group_store g))
                    s))
              >>= λ _. k)
            n).1
  unfolding option_case add_group_to_rings
  adopt_at g none k n full f = modify_at Widens _ (λ _. k) n (widens_adopt g n full) (f.at _)
  adopt_at g (some l) k n full f =
      modify_at Widens
        (λ s.
          write_group g (add_group_to_rings env.sha1 (id_of s) (s.group_store l) (s.group_store g))
            s)
        (λ _. k) n (widens_group g _ n refl) (f.at _)

  pub learn_group-Widens :
      (id : Bytes) → length id ≡ group_id_length → Follows Widens (learn_group env id)
  unfolding learn_group ◌>>=◌ gets create_group
  learn_group-Widens id full = record {
    at = λ n w.
        adopt_at n.next_group n.local_group (mark n.next_group id) (create_group id n).1
          (created id n full) (mark-Widens n.next_group id) ((create_group-Widens id full).at n w);
  }
