-- ===== src/Samples/Elections.antt =====
-- The theorems on elections and broadcasts, at work on nodes a and b.
use agenda_distribuida.Prelude.{true, false, ◌≡◌, refl, [], ◌∷◌, List}
use agenda_distribuida.Node.{leader, healthy}
use agenda_distribuida.Election.{VoteReply, replied, start_election}
use agenda_distribuida.Election.Outcome.{election_always_won}
use agenda_distribuida.Replication.{broadcast_result}
use agenda_distribuida.Replication.Collect.{broadcast_majority}
use agenda_distribuida.Samples.{node_b}

-- Both peers refuse.
abbrev refusals : List VoteReply
refusals =
    replied (record { term = 1; vote_granted = false })
    ∷ replied (record { term = 1; vote_granted = false })
    ∷ []

election_always_won_example : (start_election healthy refusals refusals [] node_b).1.role ≡ leader
election_always_won_example = (election_always_won healthy refusals refusals [] node_b).1

broadcast_majority_example : broadcast_result 2 (true ∷ false ∷ []) ≡ true
broadcast_majority_example = broadcast_majority 2 (true ∷ false ∷ []) refl
