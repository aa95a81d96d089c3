-- ===== src/Replication/Collect.antt =====
-- How a broadcast counts the answers.
use agenda_distribuida.Prelude.{
  ℕ, zero, suc, ◌+◌, ◌≤◌, ◌≡◌, Bool, true, false, List, [], ◌∷◌, length, leb, arith,
}
use agenda_distribuida.Commit.{majority_of}
use agenda_distribuida.Replication.{collect, broadcast_result}

-- How many peers reported success.
abbrev pub successes_in : List Bool → ℕ
successes_in [] = 0
successes_in (true ∷ oks) = suc (successes_in oks)
successes_in (false ∷ oks) = successes_in oks

collect_sound :
    (majority pending successes : ℕ) (oks : List Bool)
    → collect majority pending successes oks ≡ true
    → majority ≤ successes + successes_in oks
unfolding collect
collect_sound majority zero successes oks h = ground arith
collect_sound majority (suc pending) successes [] h = cc
collect_sound majority (suc pending) successes (true ∷ oks) h =
    ground (arith, collect_sound majority pending (successes + 1) oks)
collect_sound majority (suc pending) successes (false ∷ oks) h =
    ground (arith, collect_sound majority pending successes oks)

collect_complete :
    (majority successes : ℕ) (oks : List Bool)
    → majority ≤ successes + successes_in oks
    → collect majority (length oks) successes oks ≡ true
unfolding collect
collect_complete majority successes [] h = ground arith
collect_complete majority successes (true ∷ oks) h =
    ground (arith, collect_complete majority (successes + 1) oks)
collect_complete majority successes (false ∷ oks) h =
    ground (arith, collect_complete majority successes oks)

-- When every peer's result comes in, a broadcast reports success exactly if a majority of the nodes
-- succeeded, the leader counted.
pub broadcast_majority :
    (count : ℕ) (oks : List Bool)
    → length oks ≡ count
    → broadcast_result count oks ≡ leb (majority_of (count + 1)) (1 + successes_in oks)
unfolding broadcast_result
broadcast_majority count oks all = rw (← all) (
    ground (
      arith,
      collect_sound (majority_of (length oks + 1)) (length oks) 1 oks,
      collect_complete (majority_of (length oks + 1)) 1 oks,
    ))
