-- ===== src/Samples/Nodes.antt =====
-- The theorems on discovery and membership, at work.
use agenda_distribuida.Prelude.{◌≡◌, refl, some, none, [], ◌∷◌, lookup, find, List}
use agenda_distribuida.ClusterNodes.{NodeRow, last_seen_of}
use agenda_distribuida.Discovery.{
  DiscoveryManager, take_seed, update_peers_from_storage, consensus_max_age,
}
use agenda_distribuida.Discovery.Partition.{unseen, hearsay_makes_no_peer}
use agenda_distribuida.Samples.{peers_of}

abbrev manager : DiscoveryManager
manager = record { local_id = "a"; advertise_addr = "a:80"; max_peer_age = 120000000000 }

-- A node that was last seen 99 seconds ago.
abbrev known : List NodeRow
known = record { node_id = "c"; address = "c:80"; source = "seed"; last_seen = 1000000000 } ∷ []

hearsay_makes_no_peer_example :
    lookup "c"
      (update_peers_from_storage manager 100000000000
        (take_seed 100000000000 "b:80"
          (some (
            some (
              record {
                node_id = "c";
                address = "c:80";
                source = "seed";
                last_seen = some 100000000000;
              }
              ∷ [])))
          known)
        (peers_of "a")).peers
    ≡ none
unfolding last_seen_of find unseen consensus_max_age
hearsay_makes_no_peer_example =
    hearsay_makes_no_peer manager 100000000000 "b:80"
      (some (
        some (
          record { node_id = "c"; address = "c:80"; source = "seed"; last_seen = some 100000000000 }
          ∷ [])))
      known (peers_of "a") "c" 1000000000 refl refl refl
