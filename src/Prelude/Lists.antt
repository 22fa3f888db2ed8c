-- ===== src/Prelude/Lists.antt =====
-- Lists measured, cut and searched by native numbers, under the library's names.
use Prim.Native.Nat.{ℕ, zero, suc, ◌+◌, ◌≤◌, ◌<◌}
use mathlib.Core.Path.{◌≡◌, refl, ap, ◌∙◌}
use mathlib.Core.Bool.{Bool, false, ◌||◌}
use mathlib.Core.List.{List, [], ◌∷◌, ◌++◌}
use native.Mathlib.Omega.{arith}
use syntaxa.Prelude.Tests.{◌==◌}

module _ {ℓ} {A : Type ℓ} where
  abbrev pub length : List A → ℕ
  length [] = 0
  length (x ∷ xs) = suc (length xs)

  abbrev pub get_or : List A → ℕ → A → A
  get_or [] i d = d
  get_or (x ∷ xs) zero d = x
  get_or (x ∷ xs) (suc i) d = get_or xs i d

  abbrev pub take : ℕ → List A → List A
  take zero xs = []
  take (suc n) [] = []
  take (suc n) (x ∷ xs) = x ∷ take n xs

  abbrev pub drop : ℕ → List A → List A
  drop zero xs = xs
  drop (suc n) [] = []
  drop (suc n) (x ∷ xs) = drop n xs

  -- Whether some element passes a test.
  abbrev pub any : (A → Bool) → List A → Bool
  any p [] = false
  any p (x ∷ xs) = p x || any p xs

  abbrev pub All {κ} : (A → Type κ) → List A → Type κ
  All P [] = Unit
  All P (x ∷ xs) = P x × All P xs

  pub length-append : (xs ys : List A) → length (xs ++ ys) ≡ length xs + length ys
  length-append [] ys = omega arith
  length-append (x ∷ xs) ys = omega (arith, length-append xs ys)

  pub take-append : (xs ys : List A) → take (length xs) (xs ++ ys) ≡ xs
  take-append [] ys = refl
  take-append (x ∷ xs) ys = ap (◌∷◌ x) (take-append xs ys)

  pub drop-append : (xs ys : List A) → drop (length xs) (xs ++ ys) ≡ ys
  drop-append [] ys = refl
  drop-append (x ∷ xs) ys = drop-append xs ys

  pub take-length : (xs : List A) → take (length xs) xs ≡ xs
  take-length [] = refl
  take-length (x ∷ xs) = ap (◌∷◌ x) (take-length xs)

pub get_or-drop {ℓ} :
    {A : Type ℓ} (xs : List A) (c n : ℕ) (d : A) → get_or xs (c + n) d ≡ get_or (drop c xs) n d
get_or-drop xs zero n d = ap (λ i. get_or xs i d) (omega arith)
get_or-drop [] (suc c) n d = refl
get_or-drop (x ∷ xs) (suc c) n d = ap (λ i. get_or (x ∷ xs) i d) step ∙ get_or-drop xs c n d
  where
    step : suc c + n ≡ suc (c + n)
    step = omega arith

pub drop_cons {ℓ} :
    {A : Type ℓ} (xs : List A) (c : ℕ) (y : A) (ys : List A) (d : A)
    → drop c xs ≡ y ∷ ys
    → (c < length xs) × (drop (suc c) xs ≡ ys) × (get_or xs c d ≡ y)
drop_cons [] zero y ys d h = cc
drop_cons [] (suc c) y ys d h = cc
drop_cons (x ∷ xs) zero y ys d h = (omega arith, ground arith, ground arith)
drop_cons (x ∷ xs) (suc c) y ys d h = let (p, q, r) = drop_cons xs c y ys d h in (omega arith, q, r)

pub drop-drop {ℓ} : {A : Type ℓ} (xs : List A) (c n : ℕ) → drop (c + n) xs ≡ drop n (drop c xs)
drop-drop xs zero n = ap (λ i. drop i xs) {x = zero + n} {y = n} (omega arith)
drop-drop [] (suc c) zero = ap (λ i. drop i []) {x = suc c + 0} {y = suc c} (omega arith)
drop-drop [] (suc c) (suc n) =
    ap (λ i. drop i []) {x = suc c + suc n} {y = suc (c + suc n)} (omega arith)
drop-drop (x ∷ xs) (suc c) n =
    ap (λ i. drop i (x ∷ xs)) {x = suc c + n} {y = suc (c + n)} (omega arith) ∙ drop-drop xs c n

pub drop_nil {ℓ} : {A : Type ℓ} (xs : List A) (c : ℕ) → drop c xs ≡ [] → length xs ≤ c
drop_nil [] c h = omega arith
drop_nil (x ∷ xs) zero h = cc
drop_nil (x ∷ xs) (suc c) h = omega (arith, drop_nil xs c h)

pub length-take_le {ℓ} : {A : Type ℓ} (n : ℕ) (xs : List A) → n ≤ length xs → length (take n xs) ≡ n
length-take_le zero xs h = refl
length-take_le (suc n) [] h = absurd (omega arith)
length-take_le (suc n) (x ∷ xs) h = omega (arith, length-take_le n xs)

pub take-drop-append {ℓ} :
    {A : Type ℓ} (xs ys : List A) (a n : ℕ)
    → a + n ≤ length xs
    → take n (drop a (xs ++ ys)) ≡ take n (drop a xs)
take-drop-append [] ys a zero h = refl
take-drop-append [] ys a (suc n) h = absurd (omega arith)
take-drop-append (x ∷ xs) ys zero zero h = refl
take-drop-append (x ∷ xs) ys zero (suc n) h =
    ap (◌∷◌ x) (take-drop-append xs ys zero n (omega arith))
take-drop-append (x ∷ xs) ys (suc a) n h = take-drop-append xs ys a n (omega arith)

pub take-drop-take {ℓ} :
    {A : Type ℓ} (xs : List A) (a n k : ℕ)
    → a + n ≤ k
    → take n (drop a (take k xs)) ≡ take n (drop a xs)
take-drop-take xs a zero k h = refl
take-drop-take [] a (suc n) zero h = refl
take-drop-take [] a (suc n) (suc k) h = refl
take-drop-take (x ∷ xs) zero (suc n) zero h = absurd (omega arith)
take-drop-take (x ∷ xs) zero (suc n) (suc k) h =
    ap (◌∷◌ x) (take-drop-take xs zero n k (omega arith))
take-drop-take (x ∷ xs) (suc a) (suc n) zero h = absurd (omega arith)
take-drop-take (x ∷ xs) (suc a) (suc n) (suc k) h = take-drop-take xs a (suc n) k (omega arith)

-- Membership in a slice of numbers, by a linear scan.
abbrev pub contains : List ℕ → ℕ → Bool
contains xs a = any (λ x. x == a) xs
