-- ===== src/Recovery/Tests.antt =====
-- Runs of the recovery core.
use syntaxa.Prelude.{ℕ, ◌≡◌, true, false, List, [], ◌∷◌, contains}
use syntaxa.Recovery.{
  RecoveryCore, recovery_core_create, push_recovery, is_active_recovery_token,
  is_active_consume_recovery_token, recovery_token_ownership, collect_all_recovery_tokens,
}
use syntaxa.Recovery.Scopes.{
  RecoveryMove, pushes, pops, recovery_run, scope_run, scopes_of, IsTiled, run_scopes,
}
use syntaxa.Recovery.Queries.{Distinct, collect_all_lem, queries_agree}

-- Two rules inside one another: the inner one protects a token that the outer one consumes.
abbrev moves : List RecoveryMove
moves =
    pushes true (7 ∷ 8 ∷ []) (9 ∷ [])
    ∷ pushes false [] (7 ∷ [])
    ∷ pops
    ∷ pushes false (5 ∷ []) []
    ∷ []

abbrev two_rules : RecoveryCore
two_rules =
    push_recovery false [] (7 ∷ [])
      (push_recovery true (7 ∷ 8 ∷ []) (9 ∷ []) (recovery_core_create 0))

run_scopes_example :
    IsTiled (recovery_run (recovery_core_create 0) moves)
    × (scopes_of (recovery_run (recovery_core_create 0) moves)
        ≡ scope_run (scopes_of (recovery_core_create 0)) moves)
run_scopes_example = run_scopes (recovery_core_create 0) moves tt

collect_all_lem_example :
    Distinct (collect_all_recovery_tokens two_rules)
    × ((t : ℕ)
        → contains (collect_all_recovery_tokens two_rules) t ≡ is_active_recovery_token two_rules t)
collect_all_lem_example = collect_all_lem two_rules

queries_agree_example :
    ((recovery_token_ownership two_rules 7).0 ≡ is_active_recovery_token two_rules 7)
    × (is_active_consume_recovery_token two_rules 7 ≡ true
        → is_active_recovery_token two_rules 7 ≡ true)
    × (recovery_token_ownership two_rules 7 ≡ (true, false)
        → is_active_consume_recovery_token two_rules 7 ≡ true)
queries_agree_example = queries_agree two_rules 7
