-- ===== src/Tests/Evidence.antt =====
-- The evidence of a smoke test whose output exceeds the budget.
use zgent.Common.{ℕ, ◌≤◌, arith, String, some, [], ◌∷◌, length}
use zgent.Externals.{Externals}
use zgent.Incidents.Models.{EvidenceSource}
use zgent.Incidents.Smoke.{select_smoke_evidence}
use zgent.Incidents.Smoke.Fits.{spent, select_smoke_evidence-fits}
use zgent.Tests.Data.{externals}
use zgent.World.{Bytes}

-- Texts that show each byte as one character.
shown : Bytes → String
shown [] = ""
shown (c ∷ b) = String.◌∷◌ Prim.Native.Char.nul (shown b)

size : String → ℕ
size String.[] = 0
size (String.◌∷◌ c s) = ℕ.suc (size s)

abbrev plain : Externals
plain = record externals { decode_text = shown }

grows : (raw : Bytes) → length raw ≤ size (plain.decode_text raw)
unfolding shown size
grows [] = omega arith
grows (c ∷ b) = omega (arith, grows b)

abbrev header : EvidenceSource → String → ℕ
header source reference = 4

select_smoke_evidence-fits_example :
    spent plain header "inc-1" "fix-1"
      (select_smoke_evidence plain header size
        (some (1 ∷ 2 ∷ []))
        (some (3 ∷ 4 ∷ 5 ∷ []))
        "inc-1"
        "fix-1"
        14).blocks
    ≤ 14
select_smoke_evidence-fits_example =
    select_smoke_evidence-fits plain header "inc-1" "fix-1" size (some (1 ∷ 2 ∷ []))
      (some (3 ∷ 4 ∷ 5 ∷ [])) 14 grows
