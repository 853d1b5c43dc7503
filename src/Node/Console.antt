-- ===== src/Node/Console.antt =====
-- The console commands that print, in every run.
use rac_kun.Message.{make_stamp}
use rac_kun.Network.Send.Wire.{stamp_now}
use rac_kun.Utils.Split.{Lacks}
use rac_kun.Network.Join
use rac_kun.Network.Join.{or_none}
use rac_kun.Network.Join.Request.{join-logs, request, approached}
use rac_kun.Node.Local.{create_local_peer, non_random, create_local_peer_is_local}
use rac_kun.Node.Local.Short.{short_host_cannot_join}
use rac_kun.Message.{msg_stamp_length}
use rac_kun.Utils.{port_max}
use rac_kun.Utils.{parse_input, find_char}
use rac_kun.Exec.{◌>>=◌, results, pure}
use rac_kun.Node.{
  Stimulus, run, run_line, ok, true, [], parse_input, find_char, ◌>>=◌, results, pure, print_rings,
  print_logs, Bytes, ℕ, some,
}
use rac_kun.Node.Trail.{run_steps}
use rac_kun.Network.Housed.{IsHoused, Houses, Houses-IsPreorder, Houses-IsFrame, Houses-IsTrail}
use rac_kun.Network.Print.Laws.{
  print_rings_returns, IsReadable, print_logs_returns_iff, continue_returns,
}
use rac_kun.Network.{Network, Env, make_network, Endpoint}
use rac_kun.Peer.{Peer}
use rac_kun.Text.{codes, lt_bytes}
use rac_kun.Prelude.{◌≡◌, List, refl, ◌↔◌, All, length, ◌++◌, ◌∷◌, ◌≤◌, ◌≢◌, arith, subst}

module _ (env : Env) where
  run-IsHoused :
      (local : Peer) (inputs : List Stimulus) → IsHoused (run env inputs (make_network local))
  unfolding make_network
  run-IsHoused local inputs = (run_steps Houses env inputs (make_network local)).housed (λ z. refl)

  run_line-rings :
      (n : Network) → (print_rings n []).0 ≡ ok tt → run_line env (codes "rings") n ≡ (ok true, n)
  unfolding run_line parse_input find_char lt_bytes ◌>>=◌ results pure
  run_line-rings n h = rw h refl

  -- In every run of a node from its start, whatever comes from outside and in whatever order, the command
  -- `rings` returns, and leaves the node as it was.
  pub rings_returns :
      (local : Peer) (inputs : List Stimulus)
      → let n = run env inputs (make_network local) in run_line env (codes "rings") n ≡ (ok true, n)
  rings_returns local inputs =
      let n = run env inputs (make_network local) in
      run_line-rings n (print_rings_returns n [] (run-IsHoused local inputs))

  -- The command `logs` returns exactly if every message in the log can be parsed: it parses outside any
  -- `try`.
  pub logs_returns_iff :
      (n : Network) → ((run_line env (codes "logs") n).0 ≡ ok true) ↔ All IsReadable n.logs
  unfolding run_line parse_input find_char lt_bytes ◌>>=◌ results pure
  logs_returns_iff n =
      let printed = print_logs_returns_iff n.logs [] in
      (
        λ h.
            let (_, returns) = continue_returns (print_logs n.logs []).0 _ n h in printed.0 returns,
        λ h. rw (printed.1 h) refl,
      )

  -- A node whose host's name is shorter than the 13 bytes that it is given, so that a null byte follows it
  -- there, starts and joins by an entry point that it reaches, with hashes of 20 bytes and a port up to
  -- 65535. Then the command `logs` does not return: its own request is in the log and cannot be parsed.
  pub short_host_logs_ends :
      (name junk : Bytes) (rand : ℕ → ℕ) (ip port : Bytes) (e : Endpoint)
      → length (name ++ 0 ∷ junk) ≡ non_random
      → Lacks 0 name
      → ((s : Bytes) → length (env.sha1 s) ≡ msg_stamp_length)
      → env.listen_port ≤ port_max
      → or_none (env.connects 0) (env.resolve 0 ip port) ≡ some e
      → let n = make_network (create_local_peer (name ++ 0 ∷ junk) rand) in
        (run_line env (codes "logs") (Join.join env ip port n).1).0 ≢ ok true
  unfolding make_network make_stamp
  short_host_logs_ends name junk rand ip port e wide full hashes fits reached returns =
      let n = make_network (create_local_peer (name ++ 0 ∷ junk) rand) in
      let logged =
        join-logs env ip port e n reached (λ h. omega (arith, h))
          (create_local_peer_is_local (name ++ 0 ∷ junk) rand) refl in
      let readable = (logs_returns_iff (Join.join env ip port n).1).0 returns in
      let (m, parsed) = (subst (All IsReadable) logged readable).0 in
      let unread =
        short_host_cannot_join name junk rand (stamp_now env (request env n) (approached e n)).stamp
          env.listen_port wide full (hashes _) fits in
      cc
