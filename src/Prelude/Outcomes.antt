-- ===== src/Prelude/Outcomes.antt =====
-- Results of code that may panic.
use mathlib.Core.Path.{◌≡◌, refl}
use mathlib.Core.Logic.{◌⊎◌, inl, inr}

-- The panics of the modelled code, one constructor for each call of `panic`.
pub data Panic : Type 0 where
  pop_without_push : Panic
  pop_boundary_without_push : Panic
  end_scope_without_begin : Panic
  editor_reused : Panic
  lst_frozen : Panic
  truncate_out_of_range : Panic
  already_has_parent : Panic
  cycle_detected : Panic
  rule_without_consuming : Panic
  rule_without_node : Panic
  root_not_set : Panic
  replace_root : Panic
  replacement_has_parent : Panic
  not_owned_by_parent : Panic
  line_span_without_byte_span : Panic
  unresolved_target : Panic
  empty_expected_label : Panic
  max_below_min : Panic
  no_predicate : Panic
  index_out_of_range : Panic
  -- not a panic: a loop of the source that does not end
  diverged : Panic

pub data Outcome {ℓ} (A : Type ℓ) : Type ℓ where
  ok : A → Outcome A
  panic : Panic → Outcome A

module _ {ℓ κ} {A : Type ℓ} {B : Type κ} where
  -- The step `next` runs on what `first` returns.
  infixl 5 ◌>>=◌
  abbrev pub ◌>>=◌ : (first : Outcome A) (next : A → Outcome B) → Outcome B
  panic p >>= next = panic p
  ok value >>= next = next value

  -- Both steps of a chain that returns have returned.
  pub >>=-eq-ok :
      (first : Outcome A) (next : A → Outcome B) {end : B}
      → first >>= next ≡ ok end
      → (value : A) × (first ≡ ok value) × (next value ≡ ok end)
  >>=-eq-ok (panic p) next ran = cc ran
  >>=-eq-ok (ok value) next ran = (value, refl, ran)

pub Outcome-cases {ℓ} :
    {A : Type ℓ} (m : Outcome A) → ((a : A) × (m ≡ ok a)) ⊎ ((p : Panic) × (m ≡ panic p))
Outcome-cases (ok a) = inl (a, refl)
Outcome-cases (panic p) = inr (p, refl)
