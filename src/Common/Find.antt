-- ===== src/Common/Find.antt =====
-- text.find(part) over the code points, or bytes.find: the first position, and its laws.
use zgent.Common.Lists.{length, drop}
use zgent.Common.Tests.{if◌then◌else◌, Bool-cases}
use zgent.Common.Text.{has_prefix}
use Prim.Native.Nat.{ℕ, zero, suc, ◌+◌, ◌-◌, ◌≤◌}
use mathlib.Core.Path.{◌≡◌, refl}
use mathlib.Core.Logic.{inl, inr}
use mathlib.Core.Bool.{true}
use mathlib.Core.Option
use mathlib.Core.Option.{Option, none, some}
use mathlib.Core.List.{List, [], ◌∷◌, ◌++◌}
use native.Mathlib.Omega.{arith}

unfoldable pub find : List ℕ → List ℕ → Option ℕ
find part [] = if has_prefix part [] then some 0 else none
find part (c ∷ s) =
    let rest = find part s in if has_prefix part (c ∷ s) then some 0 else Option.map suc rest

-- A text that is long enough begins with the part, or does not, whatever follows it.
pub has_prefix-append :
    (part s t : List ℕ) → length part ≤ length s → has_prefix part (s ++ t) ≡ has_prefix part s
unfolding has_prefix
has_prefix-append [] s t h = refl
has_prefix-append (c ∷ part) [] t h = absurd (omega arith)
has_prefix-append (c ∷ part) (d ∷ s) t h = rw (has_prefix-append part s t (omega arith))

has_prefix_nil : has_prefix [] [] ≡ true
unfolding has_prefix
has_prefix_nil = refl

pub has_prefix-le : (part s : List ℕ) → has_prefix part s ≡ true → length part ≤ length s
unfolding has_prefix
has_prefix-le [] s h = omega arith
has_prefix-le (c ∷ part) [] h = absurd (cc)
has_prefix-le (c ∷ part) (d ∷ s) h = ground (arith, has_prefix-le part s)

pub map-suc :
    (o : Option ℕ) (i : ℕ) → Option.map suc o ≡ some i → (j : ℕ) × (i ≡ suc j) × (o ≡ some j)
map-suc none i h = absurd (cc)
map-suc (some j) i h = (j, ground arith, refl)

-- A part that is found ends within the text.
pub find-le : (part s : List ℕ) (i : ℕ) → find part s ≡ some i → i + length part ≤ length s
unfolding find
find-le part [] i h = elim (Bool-cases (has_prefix part [])) [
  | inl e ↦ ground (arith, has_prefix-le part [] e)
  | inr e ↦ ground arith
]
find-le part (c ∷ s) i h = elim (Bool-cases (has_prefix part (c ∷ s))) [
  | inl e ↦ ground (arith, has_prefix-le part (c ∷ s) e)
  | inr e ↦
      let (j, is, found) = map-suc (find part s) i (rw e at h) in
      omega (arith, find-le part s j found)
]

find-append_nil : (part t : List ℕ) (i : ℕ) → find part [] ≡ some i → find part t ≡ some i
unfolding find has_prefix
find-append_nil [] [] i h = h
find-append_nil [] (d ∷ t) i h = h
find-append_nil (c ∷ part) t i h = absurd (cc)

-- A part that is found is found at the same place in any continuation of the text.
pub find-append : (part s t : List ℕ) (i : ℕ) → find part s ≡ some i → find part (s ++ t) ≡ some i
unfolding find
find-append part [] t i h = find-append_nil part t i h
find-append part (d ∷ s) t i h = elim (Bool-cases (has_prefix part (d ∷ s))) [
  | inl e ↦ rw (has_prefix-append part (d ∷ s) t (has_prefix-le part (d ∷ s) e), e) (rw e at h)
  | inr e ↦
      let (j, is, found) = map-suc (find part s) i (rw e at h) in
      let fits : length part ≤ length (d ∷ s) = omega (arith, find-le part s j found) in
      rw (has_prefix-append part (d ∷ s) t fits, e, find-append part s t j found, is)
]

map-zero_add : (o : Option ℕ) → o ≡ Option.map (λ i. 0 + i) o
map-zero_add none = refl
map-zero_add (some i) = ground arith

pub map-map_add :
    (o : Option ℕ) (j k n : ℕ)
    → j + k ≡ n
    → Option.map (λ i. j + i) (Option.map (λ i. k + i) o) ≡ Option.map (λ i. n + i) o
map-map_add none j k n e = refl
map-map_add (some i) j k n e = ground arith

map-suc_add :
    (o : Option ℕ) (k : ℕ)
    → Option.map suc (Option.map (λ i. k + i) o) ≡ Option.map (λ i. suc k + i) o
map-suc_add none k = refl
map-suc_add (some i) k = ground arith

map-suc-none : (o : Option ℕ) → Option.map suc o ≡ none → o ≡ none
map-suc-none none h = refl
map-suc-none (some i) h = absurd (cc)

-- Where a part is not found, all but its last places may be skipped, whatever follows.
pub find-skip :
    (part s t : List ℕ) (k : ℕ)
    → find part s ≡ none
    → k ≤ suc (length s) - length part
    → find part (s ++ t) ≡ Option.map (λ i. k + i) (find part (drop k s ++ t))
unfolding find
find-skip part s t zero h le = map-zero_add (find part (s ++ t))
find-skip [] [] t (suc k) h le = absurd (ground (arith, has_prefix_nil))
find-skip (c ∷ part) [] t (suc k) h le = absurd (omega arith)
find-skip part (d ∷ s) t (suc k) h le = elim (Bool-cases (has_prefix part (d ∷ s))) [
  | inl e ↦ absurd (ground arith)
  | inr e ↦
      let none_left = map-suc-none (find part s) (rw e at h) in
      rw
        (
          has_prefix-append part (d ∷ s) t (omega arith),
          e,
          find-skip part s t k none_left (omega arith),
        )
        (map-suc_add (find part (drop k s ++ t)) k)
]
