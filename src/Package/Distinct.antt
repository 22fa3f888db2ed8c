-- ===== src/Package/Distinct.antt =====
-- grammar_package.go, `recoveryAppendUniqueStable`: a merge names no token twice.
use syntaxa.Prelude.{
  ℕ, zero, suc, ◌≡◌, refl, Bool, true, false, some, List, [], ◌∷◌, ◌++◌, String, contains, arith,
  if◌then◌else◌,
}
use mathlib.Core.Path.{subst}
use syntaxa.Tokens.{TokenKind}
use syntaxa.Engine.{RecoverySpec}
use syntaxa.Package.{Rules, merge_loop, absorb, next_label, recovery_append_unique_stable, Grammar}
use syntaxa.Recovery.Queries.{Distinct, Distinct-snoc}
use syntaxa.Package.Rounds.{Step, round-Step}

recovery_append_unique_stable-Distinct :
    (dst src : List TokenKind) → Distinct dst → Distinct (recovery_append_unique_stable dst src)
unfolding recovery_append_unique_stable
recovery_append_unique_stable-Distinct dst [] d = d
recovery_append_unique_stable-Distinct dst (x ∷ src) d =
    recovery_append_unique_stable-Distinct (if contains dst x then dst else dst ++ x ∷ []) src
      (added (contains dst x) refl)
  where
    added : (b : Bool) → contains dst x ≡ b → Distinct (if b then dst else dst ++ x ∷ [])
    added true h = d
    added false h = Distinct-snoc dst x d h

unfoldable pub AreDistinct : RecoverySpec → Type 0
AreDistinct spec = Distinct spec.tokens × Distinct spec.no_consume

absorb-AreDistinct :
    (merged : RecoverySpec) (g : Grammar) → AreDistinct merged → AreDistinct (absorb merged g)
unfolding AreDistinct absorb
absorb-AreDistinct merged g (d, e) = (
  recovery_append_unique_stable-Distinct merged.tokens g.recovery_tokens d,
  recovery_append_unique_stable-Distinct merged.no_consume g.no_consume_on_recovery_tokens e,
)

pub merge_loop-AreDistinct :
    (rules : Rules) (fuel : ℕ) (visited : List String) (label : String)
    (merged result : RecoverySpec)
    → merge_loop rules fuel visited label merged ≡ some result
    → AreDistinct merged
    → AreDistinct result
unfolding merge_loop
merge_loop-AreDistinct rules zero visited label merged result ran d = cc
merge_loop-AreDistinct rules (suc fuel) visited label merged result ran d =
    elim (round-Step rules visited label merged) [
      | Step.halted e s ↦ let same : merged ≡ result = ground arith in subst AreDistinct same d
      | Step.ended g e f s ↦
          let same : absorb merged g ≡ result = ground arith in
          subst AreDistinct same (absorb-AreDistinct merged g d)
      | Step.went g e f k ↦
          merge_loop-AreDistinct rules fuel (label ∷ visited) (next_label g) (absorb merged g)
            result (ground arith) (absorb-AreDistinct merged g d)
    ]
