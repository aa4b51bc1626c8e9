-- ===== src/Prelude/Sorting.antt =====
-- Python's order on texts, by code points, and `sorted` on a list of texts.
use Prim.Native.Char.{code}
use Prim.Native.String.{String, [], ◌∷◌}
use mathlib.Core.Path.{◌≡◌, refl}
use mathlib.Core.Bool.{Bool, true, false, ◌||◌}
use mathlib.Core.List.{List}
use native.Mathlib.Omega.{arith}
use stackai_authz_service.Prelude.Tests.{ltb, if◌then◌else◌}
use stackai_authz_service.Prelude.Lists.{any}

-- `s <= t`
pub text_leb : String → String → Bool
text_leb [] t = true
text_leb (c ∷ s) [] = false
text_leb (c ∷ s) (d ∷ t) =
    let rest = text_leb s t in
    if ltb (code c) (code d) then true else if ltb (code d) (code c) then false else rest

pub insert_sorted : String → List String → List String
insert_sorted s List.[] = List.◌∷◌ s List.[]
insert_sorted s (List.◌∷◌ x xs) =
    let rest = insert_sorted s xs in
    if text_leb s x then List.◌∷◌ s (List.◌∷◌ x xs) else List.◌∷◌ x rest

-- `sorted(xs)`
unfoldable pub sorted : List String → List String
unfolding insert_sorted text_leb
sorted List.[] = List.[]
sorted (List.◌∷◌ x xs) = insert_sorted x (sorted xs)

any-insert_sorted :
    (p : String → Bool) (s : String) (xs : List String)
    → any p (insert_sorted s xs) ≡ (p s || any p xs)
unfolding insert_sorted
any-insert_sorted p s List.[] = refl
any-insert_sorted p s (List.◌∷◌ x xs) = ground (arith, any-insert_sorted p s xs)

-- Sorting keeps the members.
pub any-sorted : (p : String → Bool) (xs : List String) → any p (sorted xs) ≡ any p xs
unfolding sorted
any-sorted p List.[] = refl
any-sorted p (List.◌∷◌ x xs) = ground (arith, any-insert_sorted p x (sorted xs), any-sorted p xs)
