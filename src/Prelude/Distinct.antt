-- ===== src/Prelude/Distinct.antt =====
-- Rows with distinct keys.
use mathlib.Core.Path.{◌≡◌, refl, ap, ◌∙◌, subst}
use mathlib.Core.Logic.{inl, inr}
use mathlib.Core.Bool.{Bool, true, false, ◌&&◌}
use mathlib.Core.Option.{some}
use mathlib.Core.List.{List, [], ◌∷◌, ◌++◌}
use native.Mathlib.Omega.{arith}
use Prim.Native.String.{String}
use text.Mathlib.Text.{◌==◌}
use text.Mathlib.TextEquality.{eq_iff}
use stackai_authz_service.Prelude.Tests.{Bool-cases}
use stackai_authz_service.Prelude.Lists.{any, keep, find, any-append}

pub some_inj : {A : Type 0} (a b : A) → some a ≡ some b → a ≡ b
some_inj a b h = ground arith

module _ {A : Type 0} where
  pub any_none :
      (p q : A → Bool) (xs : List A)
      → ((x : A) → p x ≡ true → q x ≡ true)
      → any q xs ≡ false
      → any p xs ≡ false
  any_none p q [] h e = refl
  any_none p q (x ∷ xs) h e = elim (Bool-cases (p x)) [
    | inl here ↦ (let image = h x here in absurd (ground arith))
    | inr there ↦ (let rest = any_none p q xs h (ground arith) in ground arith)
  ]

  any_none-keep : (p q : A → Bool) (xs : List A) → any p xs ≡ false → any p (keep q xs) ≡ false
  any_none-keep p q [] e = refl
  any_none-keep p q (x ∷ xs) e = let rest = any_none-keep p q xs (ground arith) in ground arith

  pub any-find_other :
      (p q : A → Bool) (xs : List A) (a : A) → find p xs ≡ some a → q a ≡ true → any q xs ≡ true
  any-find_other p q [] a e h = absurd (ground arith)
  any-find_other p q (x ∷ xs) a e h = elim (Bool-cases (p x)) [
    | inl here ↦ rw (ap q (some_inj x a (rw here at e)) ∙ h) refl
    | inr there ↦ (let rest = any-find_other p q xs a (rw there at e) h in ground arith)
  ]

  pub find-keep : (p q : A → Bool) (xs : List A) → find p (keep q xs) ≡ find (λ x. q x && p x) xs
  find-keep p q [] = refl
  find-keep p q (x ∷ xs) = ground (arith, find-keep p q xs)

module _ {A : Type 0} (key : A → String) where
  abbrev pub AreDistinct : List A → Type 0
  AreDistinct [] = Unit
  AreDistinct (x ∷ xs) = (any (λ y. key y == key x) xs ≡ false) × AreDistinct xs

  pub keep-AreDistinct : (q : A → Bool) (xs : List A) → AreDistinct xs → AreDistinct (keep q xs)
  keep-AreDistinct q [] h = tt
  keep-AreDistinct q (x ∷ xs) (new, h) = elim (Bool-cases (q x)) [
    | inl here ↦ rw here (any_none-keep (λ y. key y == key x) q xs new, keep-AreDistinct q xs h)
    | inr there ↦ rw there (keep-AreDistinct q xs h)
  ]

  pub append-AreDistinct :
      (xs : List A) (a : A)
      → AreDistinct xs
      → any (λ y. key y == key a) xs ≡ false
      → AreDistinct (xs ++ (a ∷ []))
  append-AreDistinct [] a h new = (refl, tt)
  append-AreDistinct (x ∷ xs) a (old, h) new = (
    any-append (λ y. key y == key x) xs (a ∷ [])
        ∙ ground (arith, eq_iff (key a) (key x), eq_iff (key x) (key a)),
    append-AreDistinct xs a h (ground arith),
  )

  -- A row that comes later has another key than the first.
  pub apart :
      (p : A → Bool) (x a : A) (xs : List A)
      → any (λ y. key y == key x) xs ≡ false
      → find p xs ≡ some a
      → (key x == key a) ≡ false
  apart p x a xs new e = elim (Bool-cases (key x == key a)) [
    | inr other ↦ other
    | inl same ↦
        (let there =
            any-find_other p (λ y. key y == key a) xs a e
              (ground (arith, eq_iff (key a) (key a))) in
          let gone =
            subst (λ k. any (λ y. key y == k) xs ≡ false) ((eq_iff (key x) (key a)).0 same) new in
          absurd (ground arith))
  ]

  pub find-AreDistinct :
      (p : A → Bool) (xs : List A) (a : A)
      → AreDistinct xs
      → find p xs ≡ some a
      → find (λ y. key y == key a) xs ≡ some a
  find-AreDistinct p [] a h e = absurd (ground arith)
  find-AreDistinct p (x ∷ xs) a (new, h) e = elim (Bool-cases (p x)) [
    | inl here ↦
        (let same : x ≡ a = some_inj x a (rw here at e) in
          subst (λ y. find (λ z. key z == key y) (x ∷ xs) ≡ some y) same
            (ground (arith, eq_iff (key x) (key x))))
    | inr there ↦
        (let found : find p xs ≡ some a = rw there at e in
          let rest = find-AreDistinct p xs a h found in
          let other = apart p x a xs new found in rw other rest)
  ]
