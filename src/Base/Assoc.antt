-- ===== src/Base/Assoc.antt =====
-- A Go map with string keys, as an association list with at most one entry that is read for a key.
use robotsyes.Base.Tests.{if◌then◌else◌}
use robotsyes.Base.Strings.{Bytes, equal, equal_iff}
use mathlib.Core.Path.{◌≡◌}
use mathlib.Core.Option.{Option, none, some}
use mathlib.Core.List.{List, [], ◌∷◌}
use native.Mathlib.Omega.{arith}

abbrev pub Assoc {ℓ} : Type ℓ → Type ℓ
Assoc V = List (Bytes × V)

module _ {ℓ} {V : Type ℓ} where
  -- `v, ok := m[k]`
  unfoldable pub get : Bytes → Assoc V → Option V
  get k [] = none
  get k ((j, v) ∷ m) = if equal j k then some v else get k m

  -- `delete(m, k)`
  unfoldable pub delete : Bytes → Assoc V → Assoc V
  delete k [] = []
  delete k ((j, v) ∷ m) = let rest = delete k m in if equal j k then rest else (j, v) ∷ rest

  -- `m[k] = v`
  unfoldable pub put : Bytes → V → Assoc V → Assoc V
  unfolding delete
  put k v m = (k, v) ∷ delete k m

  pub get-delete :
      (k j : Bytes) (m : Assoc V) → get j (delete k m) ≡ (if equal k j then none else get j m)
  unfolding get delete
  get-delete k j [] = ground arith
  get-delete k j ((i, v) ∷ m) =
      ground (arith, get-delete k j m, equal_iff i k, equal_iff i j, equal_iff k j)

  pub get-put :
      (k j : Bytes) (v : V) (m : Assoc V)
      → get j (put k v m) ≡ (if equal k j then some v else get j m)
  unfolding get put
  get-put k j v m = ground (arith, get-delete k j m)
