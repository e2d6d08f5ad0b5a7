-- ===== src/Common/Maps.antt =====
-- A Go map with text keys, as an association list. Iteration order is not modelled: what the
-- program computes by iterating does not depend on it.
use Prim.Native.String.{String}
use text.Mathlib.Text.{◌==◌ as str_eq}
use text.Mathlib.TextEquality.{eq_iff}
use text.Mathlib.TextPositions.{eq_refl}
use Prim.Native.Nat.{ℕ, ◌+◌}
use mathlib.Core.Path.{◌≡◌, refl}
use mathlib.Core.Bool.{Bool, true}
use mathlib.Core.Option.{Option, none, some}
use mathlib.Core.List.{List, [], ◌∷◌}
use native.Mathlib.Omega.{arith}
use isp.Common.Tests.{if◌then◌else◌}

module _ {ℓ} {V : Type ℓ} where
  abbrev pub lookup : String → List (String × V) → Option V
  lookup k [] = none
  lookup k ((j, v) ∷ m) = if str_eq j k then some v else lookup k m

  -- `m[k] = v`
  abbrev pub insert : String → V → List (String × V) → List (String × V)
  insert k v [] = (k, v) ∷ []
  insert k v ((j, w) ∷ m) = if str_eq j k then (k, v) ∷ m else (j, w) ∷ insert k v m

  -- `delete(m, k)`
  abbrev pub erase : String → List (String × V) → List (String × V)
  erase k [] = []
  erase k ((j, w) ∷ m) = let rest = erase k m in if str_eq j k then rest else (j, w) ∷ rest

  -- Delete every entry that fails the test.
  abbrev pub retain : (V → Bool) → List (String × V) → List (String × V)
  retain keep [] = []
  retain keep ((j, w) ∷ m) = let rest = retain keep m in if keep w then (j, w) ∷ rest else rest

  abbrev pub count_if : (V → Bool) → List (String × V) → ℕ
  count_if test [] = 0
  count_if test ((j, w) ∷ m) = (if test w then 1 else 0) + count_if test m

  -- No key is listed twice, as in every Go map.
  abbrev pub IsMap : List (String × V) → Type ℓ
  IsMap [] = Unit
  IsMap ((j, w) ∷ m) = (lookup j m ≡ none) × IsMap m

  pub lookup-insert :
      (k j : String) (v : V) (m : List (String × V))
      → lookup j (insert k v m) ≡ (if str_eq k j then some v else lookup j m)
  lookup-insert k j v [] = refl
  lookup-insert k j v ((i, w) ∷ m) =
      ground (arith, eq_iff k j, eq_iff i k, eq_iff i j, lookup-insert k j v m)

  pub lookup-insert_self :
      (k : String) (v : V) (m : List (String × V)) → lookup k (insert k v m) ≡ some v
  lookup-insert_self k v m = rw (lookup-insert k k v m, eq_refl)

  pub lookup-erase :
      (k j : String) (m : List (String × V))
      → lookup j (erase k m) ≡ (if str_eq k j then none else lookup j m)
  lookup-erase k j [] = ground arith
  lookup-erase k j ((i, w) ∷ m) =
      ground (arith, eq_iff k j, eq_iff i k, eq_iff i j, lookup-erase k j m)

  pub insert-IsMap : (k : String) (v : V) (m : List (String × V)) → IsMap m → IsMap (insert k v m)
  insert-IsMap k v [] h = (refl, tt)
  insert-IsMap k v ((i, w) ∷ m) h =
      ground (arith, eq_iff i k, eq_iff k i, lookup-insert k i v m, insert-IsMap k v m h.1)

  pub erase-IsMap : (k : String) (m : List (String × V)) → IsMap m → IsMap (erase k m)
  erase-IsMap k [] h = tt
  erase-IsMap k ((i, w) ∷ m) h = ground (arith, lookup-erase k i m, erase-IsMap k m h.1)

  -- After a sweep a key is found exactly when it was and its entry passes the test.
  pub lookup-retain :
      (keep : V → Bool) (k : String) (m : List (String × V))
      → IsMap m
      → lookup k (retain keep m)
        ≡ elim (lookup k m) [ none ↦ none | some v ↦ if keep v then some v else none ]
  lookup-retain keep k [] h = refl
  lookup-retain keep k ((i, w) ∷ m) h = ground (arith, eq_iff i k, lookup-retain keep k m h.1)

  pub retain-IsMap : (keep : V → Bool) (m : List (String × V)) → IsMap m → IsMap (retain keep m)
  retain-IsMap keep [] h = tt
  retain-IsMap keep ((i, w) ∷ m) h =
      ground (arith, lookup-retain keep i m h.1, retain-IsMap keep m h.1)

  pub count_if-retain :
      (test keep : V → Bool) (m : List (String × V))
      → ((v : V) → test v ≡ true → keep v ≡ true)
      → count_if test (retain keep m) ≡ count_if test m
  count_if-retain test keep [] h = refl
  count_if-retain test keep ((i, w) ∷ m) h = ground (arith, h w, count_if-retain test keep m h)
