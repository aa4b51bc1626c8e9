-- ===== src/Prelude/Lower.antt =====
-- `str.lower` on texts of ASCII characters, as the names of HTTP methods are; others are left alone.
use Prim.Native.Char.{Char, char, code}
use Prim.Native.Nat.{ℕ}
use Prim.Native.String.{String}
use mathlib.Core.List.{List, [], ◌∷◌}
use stackai_authz_service.Prelude.Tests.{eqb, if◌then◌else◌}

-- The capital letters with their small ones.
abbrev letters : List (ℕ × Char)
letters =
    (65, char 97 tt)
    ∷ (66, char 98 tt)
    ∷ (67, char 99 tt)
    ∷ (68, char 100 tt)
    ∷ (69, char 101 tt)
    ∷ (70, char 102 tt)
    ∷ (71, char 103 tt)
    ∷ (72, char 104 tt)
    ∷ (73, char 105 tt)
    ∷ (74, char 106 tt)
    ∷ (75, char 107 tt)
    ∷ (76, char 108 tt)
    ∷ (77, char 109 tt)
    ∷ (78, char 110 tt)
    ∷ (79, char 111 tt)
    ∷ (80, char 112 tt)
    ∷ (81, char 113 tt)
    ∷ (82, char 114 tt)
    ∷ (83, char 115 tt)
    ∷ (84, char 116 tt)
    ∷ (85, char 117 tt)
    ∷ (86, char 118 tt)
    ∷ (87, char 119 tt)
    ∷ (88, char 120 tt)
    ∷ (89, char 121 tt)
    ∷ (90, char 122 tt)
    ∷ []

abbrev lower_in : List (ℕ × Char) → Char → Char
lower_in [] c = c
lower_in (l ∷ ls) c = let rest = lower_in ls c in if eqb (code c) l.0 then l.1 else rest

unfoldable pub lower : String → String
lower String.[] = String.[]
lower (String.◌∷◌ c s) = String.◌∷◌ (lower_in letters c) (lower s)
