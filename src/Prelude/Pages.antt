-- ===== src/Prelude/Pages.antt =====
-- Lists cut at a length or at an element, as pages are.
use Prim.Native.Nat.{ℕ, zero, suc, ◌+◌, ◌≤◌, ◌<◌}
use mathlib.Core.Path.{◌≡◌, refl, ◌∙◌, ap}
use mathlib.Core.Bool.{Bool}
use mathlib.Core.Option.{Option, none, some}
use mathlib.Core.Logic.{inl, inr}
use mathlib.Core.List.{List, [], ◌∷◌, ◌++◌}
use native.Mathlib.Omega.{arith}
use stackai_authz_service.Prelude.Tests.{Bool-cases, Option-cases}
use stackai_authz_service.Prelude.Lists.{length, take, keep}

module _ {ℓ} {A : Type ℓ} where
  abbrev pub drop : ℕ → List A → List A
  drop zero xs = xs
  drop (suc n) [] = []
  drop (suc n) (x ∷ xs) = drop n xs

  abbrev pub last : List A → Option A
  last [] = none
  last (x ∷ xs) = elim (last xs) [ none ↦ some x | some y ↦ some y ]

  pub take-drop : (n : ℕ) (xs : List A) → take n xs ++ drop n xs ≡ xs
  take-drop zero xs = refl
  take-drop (suc n) [] = refl
  take-drop (suc n) (x ∷ xs) = ap (λ l. x ∷ l) (take-drop n xs)

  pub keep-append : (p : A → Bool) (xs ys : List A) → keep p (xs ++ ys) ≡ keep p xs ++ keep p ys
  keep-append p [] ys = refl
  keep-append p (x ∷ xs) ys = ground (arith, keep-append p xs ys)

  pub length-append : (xs ys : List A) → length (xs ++ ys) ≡ length xs + length ys
  length-append [] ys = omega arith
  length-append (x ∷ xs) ys = omega (arith, length-append xs ys)

  pub length-take : (n : ℕ) (xs : List A) → length (take n xs) ≤ n
  length-take zero xs = omega arith
  length-take (suc n) [] = omega arith
  length-take (suc n) (x ∷ xs) = omega (arith, length-take n xs)

  -- A list that is not longer than the cut is whole.
  pub take-all : (n : ℕ) (xs : List A) → length xs ≤ n → take n xs ≡ xs
  take-all zero [] h = refl
  take-all zero (x ∷ xs) h = absurd (omega arith)
  take-all (suc n) [] h = refl
  take-all (suc n) (x ∷ xs) h = ap (λ l. x ∷ l) (take-all n xs (omega arith))

  -- A cut that comes out short has nothing behind it.
  pub drop-short : (n : ℕ) (xs : List A) → length (take n xs) < n → drop n xs ≡ []
  drop-short zero xs h = absurd (omega arith)
  drop-short (suc n) [] h = refl
  drop-short (suc n) (x ∷ xs) h = drop-short n xs (omega arith)

  pub last-split : (xs : List A) (x : A) → last xs ≡ some x → (ys : List A) × (xs ≡ ys ++ (x ∷ []))
  last-split [] x h = absurd (cc)
  last-split (y ∷ []) x h = ([], ground arith)
  last-split (y ∷ z ∷ xs) x h =
      let (ys, e) = last-split (z ∷ xs) x (ground arith) in (y ∷ ys, ap (λ l. y ∷ l) e)

  pub last-none : (xs : List A) → last xs ≡ none → xs ≡ []
  last-none [] h = refl
  last-none (x ∷ xs) h = absurd (ground arith)

  drop-none : (n : ℕ) (xs : List A) → last (take n xs) ≡ none → drop n xs ≡ xs
  drop-none zero xs h = refl
  drop-none (suc n) [] h = refl
  drop-none (suc n) (x ∷ xs) h = absurd (ground arith)

  -- The last element of a cut of the kept elements divides the list where the cut falls.
  pub keep-last :
      (p : A → Bool) (n : ℕ) (xs : List A) (x : A)
      → last (take n (keep p xs)) ≡ some x
      → (front : List A) × (back : List A) × (xs ≡ front ++ (x ∷ back))
        × (keep p back ≡ drop n (keep p xs))
  keep-last p zero xs x h = absurd (cc)
  keep-last p (suc n) [] x h = absurd (cc)
  keep-last p (suc n) (y ∷ xs) x h = elim (Bool-cases (p y)) [
    | inl kept ↦ elim (Option-cases (last (take n (keep p xs)))) [
      | inl e ↦ ([], xs, ground arith, ground (arith, drop-none n (keep p xs)))
      | inr (z, e) ↦
          (let (front, back, split, rest) = keep-last p n xs x (ground arith) in
            (y ∷ front, back, ap (λ l. y ∷ l) split, rest ∙ ground arith))
    ]
    | inr out ↦
        (let (front, back, split, rest) = keep-last p (suc n) xs x (ground arith) in
          (y ∷ front, back, ap (λ l. y ∷ l) split, rest ∙ ground arith))
  ]
