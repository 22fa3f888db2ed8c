-- ===== src/Dispatch/Candidates.antt =====
-- choice_dispatch.go: the arms that are candidates, and their indices.
use syntaxa.Prelude.{ℕ, suc, ◌≤◌, List, [], ◌∷◌}

-- Strictly ascending numbers, the first of them at least `n`.
pub IsAscendingFrom : ℕ → List ℕ → Type 0
IsAscendingFrom n [] = Unit
IsAscendingFrom n (i ∷ is) = (n ≤ i) × IsAscendingFrom (suc i) is
