-- ===== src/Incidents/LogTool/Search.antt =====
-- The chunked search of a log finds what a search of the whole log would find
-- (log_tool.py, _search_file).
use mathlib.Core.Option
use mathlib.Core.List.{append_assoc}
use zgent.Common.{
  ℕ, zero, suc, ◌+◌, ◌-◌, ◌≤◌, ◌<◌, min, ◌≡◌, refl, sym, ap, ◌∙◌, Bool, true, false, Option, none,
  some, [], ◌∷◌, ◌++◌, inl, inr, length, take, drop, length-take, length-drop, drop-drop,
  length-append, take-append-drop, Option-cases, arith,
}
use zgent.Common.Text.{has_prefix}
use zgent.Common.Find.{find, find-append, find-skip, find-le, map-map_add}
use zgent.Incidents.LogTool.{search_rounds, search_file, search_chunk_bytes}
use zgent.World.{Bytes}

find_short : (q s : Bytes) → length s < length q → find q s ≡ none
find_short q s h = elim (Option-cases (find q s)) [
  | inl e ↦ e
  | inr (i, e) ↦ absurd (omega (arith, find-le q s i e))
]

rejoined :
    (n : ℕ) (overlap unread : Bytes)
    → (overlap ++ take n unread) ++ drop n unread ≡ overlap ++ unread
rejoined n overlap unread =
    append_assoc overlap (take n unread) (drop n unread)
    ∙ ap (λ b. overlap ++ b) (take-append-drop n unread)

map-sub_zero : (o : Option ℕ) (p : ℕ) → Option.map (λ i. (p - 0) + i) o ≡ Option.map (λ i. p + i) o
map-sub_zero none p = refl
map-sub_zero (some i) p = ground arith

-- The rounds that are left find the first place in the kept bytes and the unread ones.
pub search_rounds-find :
    (fuel chunk : ℕ) (q overlap : Bytes) (position : ℕ) (unread : Bytes)
    → 0 < chunk
    → length overlap < length q
    → length overlap ≤ position
    → length unread < fuel
    → search_rounds fuel chunk q overlap position unread
      ≡ Option.map (λ i. (position - length overlap) + i) (find q (overlap ++ unread))
unfolding search_rounds
search_rounds-find zero chunk q overlap position unread hc hq hp hf = absurd (omega arith)
search_rounds-find (suc fuel) chunk q overlap position [] hc hq hp hf =
    rw (find_short q (overlap ++ []) (omega (arith, length-append overlap [])))
search_rounds-find (suc fuel) chunk q overlap position (c ∷ cs) hc hq hp hf =
    elim (Option-cases (find q (overlap ++ take chunk (c ∷ cs)))) [
      | inr (i, e) ↦ rw (
        search_rounds,
        e,
        ← rejoined chunk overlap (c ∷ cs),
        find-append q _ (drop chunk (c ∷ cs)) i e,
      )
      | inl e ↦
          let raw = take chunk (c ∷ cs) in
          let window = overlap ++ raw in
          let n = length-append overlap raw in
          let m = length-take chunk (c ∷ cs) in
          let k = length-drop (length window - (length q - 1)) window in
          rw
            (
              search_rounds,
              e,
              search_rounds-find fuel chunk q (drop (length window - (length q - 1)) window)
                  (position + length raw) (drop chunk (c ∷ cs)) hc (omega arith) (omega arith)
                  (omega (arith, length-drop chunk (c ∷ cs))),
              ← rejoined chunk overlap (c ∷ cs),
              find-skip q window (drop chunk (c ∷ cs)) (length window - (length q - 1)) e
                  (omega arith),
            )
            (sym (map-map_add _ _ _ _ (omega arith)))
    ]

-- What a search from an offset may answer: the first place at or behind the offset where the query
-- stands, or none if it stands at no such place.
abbrev pub IsFirstMatch : Bytes → ℕ → Bytes → Option ℕ → Type 0
IsFirstMatch content offset query none =
    (place : ℕ) → offset ≤ place → has_prefix query (drop place content) ≡ false
IsFirstMatch content offset query (some found) =
    (offset ≤ found)
    × (has_prefix query (drop found content) ≡ true)
    × ((place : ℕ) → offset ≤ place → place < found → has_prefix query (drop place content) ≡ false)

-- The query stands at the place, and at none before it.
Finds : Bytes → Bytes → Option ℕ → Type 0
Finds query s none = (place : ℕ) → has_prefix query (drop place s) ≡ false
Finds query s (some found) =
    (has_prefix query (drop found s) ≡ true)
    × ((place : ℕ) → place < found → has_prefix query (drop place s) ≡ false)

nothing_in_empty : (q : Bytes) → 0 < length q → (place : ℕ) → has_prefix q (drop place []) ≡ false
unfolding has_prefix
nothing_in_empty [] h place = absurd (omega arith)
nothing_in_empty (d ∷ q) h zero = refl
nothing_in_empty (d ∷ q) h (suc place) = refl

module _ (q : Bytes) (c : ℕ) (s : Bytes) where
  nowhere :
      has_prefix q (c ∷ s) ≡ false
      → ((place : ℕ) → has_prefix q (drop place s) ≡ false)
      → (place : ℕ) → has_prefix q (drop place (c ∷ s)) ≡ false
  nowhere e h zero = e
  nowhere e h (suc place) = h place

  not_before :
      (i : ℕ)
      → has_prefix q (c ∷ s) ≡ false
      → ((place : ℕ) → place < i → has_prefix q (drop place s) ≡ false)
      → (place : ℕ) → place < suc i
      → has_prefix q (drop place (c ∷ s)) ≡ false
  not_before i e h zero below = e
  not_before i e h (suc place) below = h place (omega arith)

find-Finds : (q s : Bytes) → 0 < length q → Finds q s (find q s)
unfolding Finds find
find-Finds q [] h = rw (nothing_in_empty q h 0) (nothing_in_empty q h)
find-Finds q (c ∷ s) h = go (has_prefix q (c ∷ s)) refl (find q s) refl (find-Finds q s h)
  where
    go :
        (b : Bool)
        → has_prefix q (c ∷ s) ≡ b
        → (o : Option ℕ) → find q s ≡ o
        → Finds q s (find q s)
        → Finds q (c ∷ s) (find q (c ∷ s))
    go true e o eo ih = rw e (e, λ place below. absurd (omega arith))
    go false e none eo ih = rw (e, eo) (nowhere q c s e (rw eo at ih))
    go false e (some i) eo ih =
        let (there, before) = rw eo at ih in rw (e, eo) (there, not_before q c s i e before)

module _ (content : Bytes) (offset : ℕ) (query : Bytes) where
  abbrev position : ℕ
  position = min offset (length content)

  -- What is found behind the position is found in the log.
  relocated :
      0 < length query
      → (o : Option ℕ) → find query (drop position content) ≡ o
      → Finds query (drop position content) o
      → IsFirstMatch content offset query (Option.map (λ i. position + i) o)
  unfolding Finds
  relocated filled none e h = λ place ge.
      rw (← drop-drop (place - position) position place content (omega arith))
        (h (place - position))
  relocated filled (some i) e h = (
    omega (arith, find-le query (drop position content) i e, length-drop position content),
    rw (← drop-drop i position (position + i) content refl) h.0,
    λ place ge below.
        rw (← drop-drop (place - position) position place content (omega arith))
          (h.1 (place - position) (omega arith)),
  )

  -- The search of a log in chunks, with the last bytes of each chunk kept for the next, answers
  -- the first place at or behind the offset where the query stands, across the borders of the
  -- chunks too, and none exactly if there is no such place; where the query is not empty.
  pub search_file-first :
      0 < length query → IsFirstMatch content offset query (search_file (some content) offset query)
  unfolding search_file
  search_file-first filled =
      let first = find query (drop position content) in
      rw
        (search_rounds-find (suc (length content)) search_chunk_bytes query [] position
          (drop position content) (omega arith) filled (omega arith)
          (omega (arith, length-drop position content)))
        (rw (map-sub_zero first position)
          (relocated filled first refl (find-Finds query (drop position content) filled)))
