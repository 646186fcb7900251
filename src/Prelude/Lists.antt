-- ===== src/Prelude/Lists.antt =====
-- Lists measured by native numbers, and membership by the Boolean equality of keys.
use Prim.Native.Nat.{ℕ, zero, suc, ◌+◌, ◌≤◌}
use mathlib.Core.Path.{◌≡◌, refl, ap}
use mathlib.Core.Logic.{◌⊎◌, inl, inr}
use mathlib.Core.Bool.{Bool, true, false, not, ◌||◌, ◌&&◌}
use mathlib.Core.List.{List, [], ◌∷◌, ◌++◌}
use native.Mathlib.Omega.{arith}
use heimdall_gateway.Prelude.Tests.{if◌then◌else◌, if_elim, Bool-cases}
use heimdall_gateway.Prelude.Keys.{Key, ◌==◌}

pub List-cases {ℓ} :
    {A : Type ℓ} (xs : List A) → (xs ≡ []) ⊎ ((x : A) × (ys : List A) × (xs ≡ x ∷ ys))
List-cases [] = inl refl
List-cases (x ∷ xs) = inr (x, xs, refl)

module _ {ℓ} {A : Type ℓ} where
  abbrev pub length : List A → ℕ
  length [] = 0
  length (x ∷ xs) = suc (length xs)

  abbrev pub is_empty : List A → Bool
  is_empty [] = true
  is_empty (x ∷ xs) = false

  abbrev pub any : (A → Bool) → List A → Bool
  any p [] = false
  any p (x ∷ xs) = p x || any p xs

  abbrev pub all : (A → Bool) → List A → Bool
  all p [] = true
  all p (x ∷ xs) = p x && all p xs

  abbrev pub filter : (A → Bool) → List A → List A
  filter p [] = []
  filter p (x ∷ xs) = let rest = filter p xs in if p x then x ∷ rest else rest

  -- the list without its first item
  abbrev pub drop_first : List A → List A
  drop_first [] = []
  drop_first (x ∷ xs) = xs

  unfoldable pub take : ℕ → List A → List A
  take zero xs = []
  take (suc n) [] = []
  take (suc n) (x ∷ xs) = x ∷ take n xs

  unfoldable pub drop : ℕ → List A → List A
  drop zero xs = xs
  drop (suc n) [] = []
  drop (suc n) (x ∷ xs) = drop n xs

  pub length-append : (xs ys : List A) → length (xs ++ ys) ≡ length xs + length ys
  length-append [] ys = omega arith
  length-append (x ∷ xs) ys = omega (arith, length-append xs ys)

  pub take_of_nothing : (n : ℕ) → take n [] ≡ []
  unfolding take
  take_of_nothing zero = refl
  take_of_nothing (suc n) = refl

  pub drop_of_nothing : (n : ℕ) → drop n [] ≡ []
  unfolding drop
  drop_of_nothing zero = refl
  drop_of_nothing (suc n) = refl

  pub length-take-le : (n : ℕ) (xs : List A) → length (take n xs) ≤ n
  unfolding take
  length-take-le zero xs = omega arith
  length-take-le (suc n) [] = omega arith
  length-take-le (suc n) (x ∷ xs) = omega (arith, length-take-le n xs)

-- a predicate that holds of every item
abbrev pub All {ℓ} : {A : Type ℓ} → (A → Type 0) → List A → Type 0
All P [] = Unit
All P (x ∷ xs) = P x × All P xs

pub take-All {ℓ} :
    {A : Type ℓ} (P : A → Type 0) (n : ℕ) (xs : List A) → All P xs → All P (take n xs)
unfolding take
take-All P zero xs holds = tt
take-All P (suc n) [] holds = tt
take-All P (suc n) (x ∷ xs) (first, holds) = (first, take-All P n xs holds)

pub drop-All {ℓ} :
    {A : Type ℓ} (P : A → Type 0) (n : ℕ) (xs : List A) → All P xs → All P (drop n xs)
unfolding drop
drop-All P zero xs holds = holds
drop-All P (suc n) [] holds = tt
drop-All P (suc n) (x ∷ xs) (first, holds) = drop-All P n xs holds

pub every {ℓ} : {A : Type ℓ} {P : A → Type 0} → ((x : A) → P x) → (xs : List A) → All P xs
every p [] = tt
every p (x ∷ xs) = (p x, every p xs)

pub weaken {ℓ} :
    {A : Type ℓ} {P Q : A → Type 0} → ((x : A) → P x → Q x) → (xs : List A) → All P xs → All Q xs
weaken f [] holds = tt
weaken f (x ∷ xs) (holds, rest) = (f x holds, weaken f xs rest)

pub filter-All {ℓ} :
    {A : Type ℓ} (P : A → Type 0) (p : A → Bool) (xs : List A) → All P xs → All P (filter p xs)
filter-All P p [] holds = tt
filter-All P p (x ∷ xs) (holds, rest) =
    if_elim (All P) (p x) (x ∷ filter p xs) (filter p xs) (holds, filter-All P p xs rest)
      (filter-All P p xs rest)

pub append-All {ℓ} :
    {A : Type ℓ} (P : A → Type 0) (xs ys : List A) → All P xs → All P ys → All P (xs ++ ys)
append-All P [] ys holds others = others
append-All P (x ∷ xs) ys (holds, rest) others = (holds, append-All P xs ys rest others)

pub append-All_left {ℓ} :
    {A : Type ℓ} (P : A → Type 0) (xs ys : List A) → All P (xs ++ ys) → All P xs
append-All_left P [] ys holds = tt
append-All_left P (x ∷ xs) ys (holds, rest) = (holds, append-All_left P xs ys rest)

abbrev pub contains : {K : Type 0} ⦃key : Key K⦄ → List K → K → Bool
contains [] a = false
contains (x ∷ xs) a = x == a || contains xs a

-- what a filter rejects, and what is left when it keeps nothing
pub filter-not-All {ℓ} :
    {A : Type ℓ} (p : A → Bool) (xs : List A) → All (λ x. p x ≡ false) (filter (λ x. not (p x)) xs)
filter-not-All p [] = tt
filter-not-All p (x ∷ xs) = elim (Bool-cases (p x)) [
  | inl e ↦ rw e (filter-not-All p xs)
  | inr e ↦ rw (e, e) (refl, filter-not-All p xs)
]

pub All-filter_none {ℓ} :
    {A : Type ℓ} (p : A → Bool) (xs : List A)
    → is_empty (filter p xs) ≡ true
    → All (λ x. p x ≡ false) xs
All-filter_none p [] e = tt
All-filter_none p (x ∷ xs) e = ground (arith, All-filter_none p xs)

pub filter-none {ℓ} :
    {A : Type ℓ} (p : A → Bool) (xs : List A) → All (λ x. p x ≡ false) xs → filter p xs ≡ []
filter-none p [] holds = refl
filter-none p (x ∷ xs) (holds, rest) = rw (holds, filter-none p xs rest) refl

-- filtering again with a test that agrees
pub filter-filter {ℓ} :
    {A : Type ℓ} (p : A → Bool) (xs : List A) → filter p (filter p xs) ≡ filter p xs
filter-filter p [] = refl
filter-filter p (x ∷ xs) = elim (Bool-cases (p x)) [
  | inl e ↦ rw (e, e) (ap (λ rest. x ∷ rest) (filter-filter p xs))
  | inr e ↦ rw e (filter-filter p xs)
]

-- what a filter keeps passes its test
pub kept_All {ℓ} : {A : Type ℓ} (p : A → Bool) (xs : List A) → All (λ x. p x ≡ true) (filter p xs)
kept_All p [] = tt
kept_All p (x ∷ xs) = elim (Bool-cases (p x)) [
  | inl e ↦ rw e (e, kept_All p xs)
  | inr e ↦ rw e (kept_All p xs)
]
