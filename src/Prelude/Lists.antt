-- ===== src/Prelude/Lists.antt =====
-- Lists: Boolean search, filtering by a Boolean test, and a predicate that holds of every element.
use Prim.Native.Nat.{ℕ, zero, suc}
use mathlib.Core.Path.{◌≡◌, refl, subst}
use mathlib.Core.Bool.{Bool, true, false, ◌||◌, ◌&&◌, not}
use mathlib.Core.Option.{Option, none, some}
use mathlib.Core.Logic.{inl, inr}
use mathlib.Core.List.{List, [], ◌∷◌, ◌++◌, map}
use native.Mathlib.Omega.{arith}
use Prim.Native.String.{String}
use text.Mathlib.Text.{◌==◌}
use stackai_authz_service.Prelude.Tests.{eqb, if◌then◌else◌, Bool-cases}

module _ {ℓ} {A : Type ℓ} where
  abbrev pub length : List A → ℕ
  length [] = 0
  length (x ∷ xs) = suc (length xs)

  abbrev pub take : ℕ → List A → List A
  take zero xs = []
  take (suc n) [] = []
  take (suc n) (x ∷ xs) = x ∷ take n xs

  abbrev pub is_empty : List A → Bool
  is_empty [] = true
  is_empty (x ∷ xs) = false

  abbrev pub any : (A → Bool) → List A → Bool
  any p [] = false
  any p (x ∷ xs) = p x || any p xs

  abbrev pub keep : (A → Bool) → List A → List A
  keep p [] = []
  keep p (x ∷ xs) = let rest = keep p xs in if p x then x ∷ rest else rest

  abbrev pub find : (A → Bool) → List A → Option A
  find p [] = none
  find p (x ∷ xs) = let rest = find p xs in if p x then some x else rest

  abbrev pub All {κ} : (A → Type κ) → List A → Type κ
  All P [] = Unit
  All P (x ∷ xs) = P x × All P xs

  pub any-append : (p : A → Bool) (xs ys : List A) → any p (xs ++ ys) ≡ (any p xs || any p ys)
  any-append p [] ys = refl
  any-append p (x ∷ xs) ys = ground (arith, any-append p xs ys)

  pub any-ext : (p q : A → Bool) (xs : List A) → All (λ x. p x ≡ q x) xs → any p xs ≡ any q xs
  any-ext p q [] h = refl
  any-ext p q (x ∷ xs) (h, hs) = ground (arith, any-ext p q xs hs)

  pub find-append_none :
      (p : A → Bool) (xs ys : List A) → find p xs ≡ none → find p (xs ++ ys) ≡ find p ys
  find-append_none p [] ys h = refl
  find-append_none p (x ∷ xs) ys h = ground (arith, find-append_none p xs ys)

  pub find-append_some :
      (p : A → Bool) (xs ys : List A) (a : A) → find p xs ≡ some a → find p (xs ++ ys) ≡ some a
  find-append_some p [] ys a h = cc
  find-append_some p (x ∷ xs) ys a h = ground (arith, find-append_some p xs ys a)

  pub find_holds : (p : A → Bool) (xs : List A) (a : A) → find p xs ≡ some a → p a ≡ true
  find_holds p [] a h = cc
  find_holds p (x ∷ xs) a h = ground (arith, find_holds p xs a)

  pub All-find {κ} :
      (P : A → Type κ) (p : A → Bool) (xs : List A) (a : A) → All P xs → find p xs ≡ some a → P a
  All-find P p [] a h e = absurd (cc)
  All-find P p (x ∷ xs) a (h, hs) e = elim (Bool-cases (p x)) [
    | inl here ↦ (let same : x ≡ a = ground arith in subst P same h)
    | inr there ↦ All-find P p xs a hs (ground arith)
  ]

  pub any-find : (p : A → Bool) (xs : List A) (a : A) → find p xs ≡ some a → any p xs ≡ true
  any-find p [] a h = cc
  any-find p (x ∷ xs) a h = ground (arith, any-find p xs a)

  pub any-find-none : (p : A → Bool) (xs : List A) → find p xs ≡ none → any p xs ≡ false
  any-find-none p [] h = refl
  any-find-none p (x ∷ xs) h = ground (arith, any-find-none p xs)

  pub All-append {κ} : (P : A → Type κ) (xs ys : List A) → All P xs → All P ys → All P (xs ++ ys)
  All-append P [] ys h k = k
  All-append P (x ∷ xs) ys (p, h) k = (p, All-append P xs ys h k)

  pub All-imp {κ μ} :
      (P : A → Type κ) (Q : A → Type μ) (xs : List A) → ((x : A) → P x → Q x) → All P xs → All Q xs
  All-imp P Q [] h k = tt
  All-imp P Q (x ∷ xs) h (here, there) = (h x here, All-imp P Q xs h there)

  pub All-keep {κ μ} :
      (P : A → Type κ) (Q : A → Type μ) (q : A → Bool) (xs : List A)
      → ((x : A) → q x ≡ true → P x → Q x)
      → All P xs
      → All Q (keep q xs)
  All-keep P Q q [] h k = tt
  All-keep P Q q (x ∷ xs) h (here, there) = elim (Bool-cases (q x)) [
    | inl e ↦ rw e (h x e here, All-keep P Q q xs h there)
    | inr e ↦ rw e (All-keep P Q q xs h there)
  ]

  pub All-map {κ μ} :
      (P : A → Type κ) (Q : A → Type μ) (f : A → A) (xs : List A)
      → ((x : A) → P x → Q (f x))
      → All P xs
      → All Q (map f xs)
  All-map P Q f [] h k = tt
  All-map P Q f (x ∷ xs) h (here, there) = (h x here, All-map P Q f xs h there)

  pub All-not_any : (p : A → Bool) (xs : List A) → any p xs ≡ false → All (λ x. p x ≡ false) xs
  All-not_any p [] h = tt
  All-not_any p (x ∷ xs) h = (ground arith, All-not_any p xs (ground arith))

  pub All-always {κ} : (P : A → Type κ) (xs : List A) → ((x : A) → P x) → All P xs
  All-always P [] h = tt
  All-always P (x ∷ xs) h = (h x, All-always P xs h)

  pub any-imp :
      (p r : A → Bool) (xs : List A)
      → ((x : A) → p x ≡ true → r x ≡ true)
      → any p xs ≡ true
      → any r xs ≡ true
  any-imp p r [] h e = e
  any-imp p r (x ∷ xs) h e = elim (Bool-cases (p x)) [
    | inl here ↦ (let image = h x here in ground arith)
    | inr there ↦ (let rest = any-imp p r xs h (ground arith) in ground arith)
  ]

  -- What one element of a list gives holds of one that a filter keeps, or of its image.
  pub any-keep :
      (p q r : A → Bool) (xs : List A)
      → ((x : A) → p x ≡ true → (q x && r x) ≡ true)
      → any p xs ≡ true
      → any r (keep q xs) ≡ true
  any-keep p q r [] h e = e
  any-keep p q r (x ∷ xs) h e = elim (Bool-cases (p x)) [
    | inl here ↦ (let both = h x here in ground arith)
    | inr there ↦ (let rest = any-keep p q r xs h (ground arith) in ground arith)
  ]

  pub length-keep : (p : A → Bool) (xs : List A) → eqb (length (keep p xs)) 0 ≡ not (any p xs)
  length-keep p [] = refl
  length-keep p (x ∷ xs) = ground (arith, length-keep p xs)

pub any-map {ℓ κ} :
    {A : Type ℓ} {B : Type κ} (f : A → B) (p : A → Bool) (r : B → Bool) (xs : List A)
    → ((x : A) → p x ≡ true → r (f x) ≡ true)
    → any p xs ≡ true
    → any r (map f xs) ≡ true
any-map f p r [] h e = e
any-map f p r (x ∷ xs) h e = elim (Bool-cases (p x)) [
  | inl here ↦ (let image = h x here in ground arith)
  | inr there ↦ (let rest = any-map f p r xs h (ground arith) in ground arith)
]

-- Membership of a text in a set or list of texts.
abbrev pub mem_text : String → List String → Bool
mem_text s xs = any (λ x. x == s) xs

-- Whether a text stands twice in the list.
abbrev pub has_repeats : List String → Bool
has_repeats [] = false
has_repeats (x ∷ xs) = mem_text x xs || has_repeats xs

-- A dict from texts, as an association list.
module _ {ℓ} {V : Type ℓ} where
  abbrev pub lookup : String → List (String × V) → Option V
  lookup k [] = none
  lookup k ((j, v) ∷ m) = let rest = lookup k m in if j == k then some v else rest

  abbrev pub insert : String → V → List (String × V) → List (String × V)
  insert k v [] = (k, v) ∷ []
  insert k v ((j, w) ∷ m) = let rest = insert k v m in if j == k then (k, v) ∷ m else (j, w) ∷ rest
