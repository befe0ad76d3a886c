-- ===== src/Common/Sort.antt =====
-- sorted(items, key=..., reverse=True) at a number as the key: a stable sort, latest first.
use Prim.Native.Nat.{ℕ}
use mathlib.Core.List.{List, [], ◌∷◌}
use zgent.Common.Tests.{ltb, if◌then◌else◌}

module _ {A : Type 0} (key : A → ℕ) where
  -- Items of equal keys keep their order: the new item goes before its equals.
  unfoldable pub insert_latest : A → List A → List A
  insert_latest x [] = x ∷ []
  insert_latest x (y ∷ l) = if ltb (key x) (key y) then y ∷ insert_latest x l else x ∷ y ∷ l

  unfoldable pub latest_first : List A → List A
  unfolding insert_latest
  latest_first [] = []
  latest_first (x ∷ l) = insert_latest x (latest_first l)
