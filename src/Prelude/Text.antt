-- ===== src/Prelude/Text.antt =====
-- Texts cut at their first colon, and texts without their last character.
use Prim.Native.Char.{Char, code}
use Prim.Native.String.{String, [], ◌∷◌, ◌++◌}
use Prim.Native.Nat.{ℕ}
use mathlib.Core.Path.{◌≡◌}
use mathlib.Core.Bool.{Bool, true, ◌&&◌, not}
use native.Mathlib.Omega.{arith}
use text.Mathlib.TextLemmas.{nil-append, cons-append}
use stackai_authz_service.Prelude.Tests.{eqb, if◌then◌else◌}

-- No character of the text has the code `n`.
unfoldable pub lacks : ℕ → String → Bool
lacks n [] = true
lacks n (c ∷ s) = not (eqb (code c) n) && lacks n s

-- What stands before and after the first character with the code `n`; the whole text and the empty
-- one where there is none.
unfoldable pub cut : ℕ → String → String × String
cut n [] = ("", "")
cut n (c ∷ s) = let rest = cut n s in if eqb (code c) n then ("", s) else (c ∷ rest.0, rest.1)

pub cut-append :
    (n : ℕ) (c : Char) (s t : String)
    → lacks n s ≡ true
    → eqb (code c) n ≡ true
    → cut n (s ++ (c ∷ t)) ≡ (s, t)
unfolding cut lacks
cut-append n c [] t h e = rw nil-append (rw e)
cut-append n c (d ∷ s) t h e = rw cons-append (ground (arith, cut-append n c s t))
