-- ===== src/Assembly/Operations.antt =====
-- The operations that the API document shows as public, against the tree of the routes.
use stackai_authz_service.Prelude.{
  String, Bool, false, ◌&&◌, ◌||◌, not, Option, none, some, List, any, lookup, mem_text,
  if◌then◌else◌, ◌==◌,
}
use stackai_authz_service.Assembly.{
  ApiRoute, Routes, done, api, nested, has_routes, is_guarded, skipped, Operation, Paths,
}

-- Whether some API route below takes a method that `q` accepts on the path without any guard; where
-- there are routes of an original router, those of the wrapper do not count.
unfoldable pub serves_openly : (String → Bool) → String → Routes → Bool
serves_openly q path done = false
serves_openly q path (api r rest) =
    (not (is_guarded r) && r.path == path && any (λ m. not (mem_text m skipped) && q m) r.methods)
    || serves_openly q path rest
serves_openly q path (nested original own rest) =
    let inner = serves_openly q path original in
    let outer = serves_openly q path own in
    (if has_routes original then inner else outer) || serves_openly q path rest

module _ (q : String → Bool) (path : String) where
  abbrev pub is_operation : String × String → Bool
  is_operation o = q o.0 && o.1 == path

  serves : ApiRoute → Bool
  serves r =
      not (is_guarded r) && r.path == path && any (λ m. not (mem_text m skipped) && q m) r.methods

-- The operation of a path and a method in small letters.
abbrev pub operation_in : String → Option (List (String × Operation)) → Option Operation
operation_in method none = none
operation_in method (some operations) = lookup method operations

abbrev pub operation_at : String → String → Paths → Option Operation
operation_at path method paths = operation_in method (lookup path paths)

abbrev pub changed {ℓ} : {A : Type ℓ} → (A → A) → Bool → Option A → Option A
changed f b none = none
changed f b (some a) = some (if b then f a else a)
