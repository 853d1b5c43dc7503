-- ===== src/Examples.antt =====
-- The theorems at concrete inputs, with hashes that are their own inputs: a small ring, a group, a
-- message of each kind, and nodes in the states that the theorems ask for.
mod Rings
mod Founders
mod Histories
mod Wires
mod Starts
mod Strangers
mod Answers
mod Joins
mod Groups
mod Messages
mod Nodes
mod Hosts
mod Clusters
mod Consoles
use rac_kun.Text.{Bytes}
use rac_kun.Peer.{PeerRef}
use rac_kun.Prelude.{◌∷◌, []}

abbrev pub sha : Bytes → Bytes
sha s = s

-- The id of a peer is its reference, as one byte.
abbrev pub ids : PeerRef → Bytes
ids p = p ∷ []
