-- ===== src/Examples/Consoles.antt =====
-- Commands that print: on a founder's console, with a message in the log, and on a host whose name is
-- short.
use rac_kun.Node.Console.{rings_returns, short_host_logs_ends}
use rac_kun.Node.{run_line}
use rac_kun.Node.Local.{create_local_peer}
use rac_kun.Network.Join
use rac_kun.Network.Join.{or_none, try_endpoints}
use rac_kun.Network.{make_network}
use rac_kun.Examples.Founders.{founder, founded, inputs}
use rac_kun.Examples.Nodes.{env}
use rac_kun.Examples.Wires.{reaching}
use rac_kun.Examples.Hosts.{numbers}
use rac_kun.Outcome.{ok}
use rac_kun.Text.{codes}
use rac_kun.Prelude.{◌≡◌, ◌≢◌, true, refl, arith, some, ◌++◌, ◌∷◌}

rings_returns_example : run_line env (codes "rings") founded ≡ (ok true, founded)
rings_returns_example = rings_returns env founder inputs

reached :
    or_none (reaching.connects 0) (reaching.resolve 0 (codes "home") (codes "1764"))
    ≡ some (record { address = codes "10.0.0.1"; port = 1764 })
unfolding try_endpoints
reached = refl

short_host_logs_ends_example :
    let n = make_network (create_local_peer (codes "host" ++ 0 ∷ codes "........") numbers) in
    (run_line reaching (codes "logs") (Join.join reaching (codes "home") (codes "1764") n).1).0
    ≢ ok true
short_host_logs_ends_example =
    short_host_logs_ends reaching (codes "host") (codes "........") numbers (codes "home")
      (codes "1764") (record { address = codes "10.0.0.1"; port = 1764 }) refl (ground arith)
      (λ s. refl) (omega arith) reached
