-- ===== src/Examples/Hosts.antt =====
-- Hosts with a name of 13 letters and of four.
use rac_kun.Node.Local.Short.{short_host_cannot_join}
use rac_kun.Outcome.{throw, out_of_range}
use rac_kun.Examples.Nodes.{digest}
use rac_kun.Message.{parse_message, serialize, Body}
use rac_kun.Prelude.{ℕ, length, ◌++◌, ◌≡◌, arith, ◌∷◌, refl}
use rac_kun.Text.{codes}
use rac_kun.Node.Local.{create_local_peer, create_local_peer_wide}

abbrev pub numbers : ℕ → ℕ
numbers i = i

create_local_peer_wide_example : length (create_local_peer (codes "workstation-1") numbers).id ≡ 20
create_local_peer_wide_example =
    create_local_peer_wide (codes "workstation-1") numbers refl (ground arith)

short_host_cannot_join_example :
    let p = create_local_peer (codes "host" ++ 0 ∷ codes "........") numbers in
    parse_message (serialize (record { stamp = digest; body = Body.join p.id p.pub_id_key 5000 }))
    ≡ throw out_of_range
short_host_cannot_join_example =
    short_host_cannot_join (codes "host") (codes "........") numbers digest 5000 refl (ground arith)
      refl (omega arith)
