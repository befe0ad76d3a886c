-- ===== src/Incidents/Smoke/Fits.antt =====
-- The choice of smoke evidence (evidence.py: _smoke_block, select_smoke_evidence): its fuel, and its
-- bounds.
use zgent.Common.{
  ℕ, zero, suc, ◌+◌, ◌-◌, ◌≤◌, ◌<◌, min, max, leb, ◌==◌, String, ◌≡◌, refl, Bool, true, false,
  Option, none, some, List, [], ◌∷◌, ◌++◌, length, take, drop, length-drop, arith, subst,
  if◌then◌else◌,
}
use zgent.Externals.{Externals}
use zgent.Incidents.Models.{EvidenceSource}
use zgent.Incidents.Smoke.{
  SmokeBlock, fit, smoke_block, rendered_size, as_list, left_after, select_smoke_evidence,
  smoke_reference, source_name,
}
use zgent.World.{Bytes}

module _ (x : Externals) (header : EvidenceSource → String → ℕ) (source : EvidenceSource)
    (k p : String) (whole : Bytes) (budget : ℕ) where
  -- More fuel than the tail has bytes changes nothing.
  fit-fuel :
      (m n : ℕ) (raw : Bytes)
      → length raw < m
      → length raw < n
      → fit x header m source k p whole budget raw ≡ fit x header n source k p whole budget raw
  unfolding fit
  fit-fuel zero n raw h h' = absurd (omega (arith, h))
  fit-fuel (suc m) zero raw h h' = absurd (omega (arith, h'))
  fit-fuel (suc m) (suc n) [] h h' = refl
  fit-fuel (suc m) (suc n) (c ∷ cs) h h' =
      rw (fit-fuel m n shorter (omega (arith, h, less)) (omega (arith, h', less))) refl
    where
      size : ℕ
      size = length (c ∷ cs)

      encoded : ℕ
      encoded =
          header source
            (smoke_reference (source_name source) k p (length whole - size) (length whole))
          + 1
          + size

      shorter : Bytes
      shorter = drop (max 1 (encoded - budget)) (c ∷ cs)

      less : length shorter < suc (length cs)
      less = omega (arith, length-drop (max 1 (encoded - budget)) (c ∷ cs))

  -- What a block shows is an end of the log, and it fits the budget with its header.
  pub record Fitting (b : SmokeBlock) : Type 0 where
    pub fits : header b.source b.reference + 1 + b.byte_length ≤ budget
    pub ends : b.end ≡ length whole
    pub starts : b.start ≡ length whole - b.byte_length
    pub text : (raw : Bytes) × (b.content ≡ x.decode_text raw) × (b.byte_length ≡ length raw)

  fit-Fitting :
      (m : ℕ) (raw : Bytes) (b : SmokeBlock)
      → fit x header m source k p whole budget raw ≡ some b
      → Fitting b
  unfolding fit
  fit-Fitting zero raw b e = absurd (ground (arith, e))
  fit-Fitting (suc m) [] b e = absurd (ground (arith, e))
  fit-Fitting (suc m) (c ∷ cs) b e =
      go (fit-Fitting m (drop (max 1 (encoded - budget)) (c ∷ cs)) b) (leb encoded budget) refl e
    where
      size : ℕ
      size = length (c ∷ cs)

      reference : String
      reference = smoke_reference (source_name source) k p (length whole - size) (length whole)

      encoded : ℕ
      encoded = header source reference + 1 + size

      block : SmokeBlock
      block = record {
        source = source;
        reference = reference;
        sha256 = x.sha256 whole;
        start = length whole - size;
        end = length whole;
        byte_length = size;
        content = x.decode_text (c ∷ cs);
      }

      again : Option SmokeBlock
      again = fit x header m source k p whole budget (drop (max 1 (encoded - budget)) (c ∷ cs))

      block-Fitting : leb encoded budget ≡ true → Fitting block
      block-Fitting t = record {
        fits = ground (arith, t);
        ends = refl;
        starts = refl;
        text = (c ∷ cs, refl, refl);
      }

      same_block : some block ≡ some b → block ≡ b
      same_block e = ground (arith, e)

      go :
          (again ≡ some b → Fitting b)
          → (t : Bool) → leb encoded budget ≡ t
          → (if t then some block else again) ≡ some b
          → Fitting b
      go ih true t e = subst Fitting (same_block e) (block-Fitting t)
      go ih false t e = ih e

module _ (x : Externals) (header : EvidenceSource → String → ℕ) (k p : String) where
  smoke_block-Fitting :
      (source : EvidenceSource) (log : Option Bytes) (budget : ℕ) (b : SmokeBlock)
      → smoke_block x header source k p log budget ≡ some b
      → (whole : Bytes) × (log ≡ some whole) × Fitting x header source k p whole budget b
  unfolding smoke_block
  smoke_block-Fitting source none budget b e = absurd (ground (arith, e))
  smoke_block-Fitting source (some whole) budget b e =
      (whole, refl, go (budget == 0) (length whole == 0) e)
    where
      tail : Bytes
      tail =
          take (min (length whole) budget) (drop (length whole - min (length whole) budget) whole)

      found : Option SmokeBlock
      found = fit x header (suc (length tail)) source k p whole budget tail

      go :
          (t u : Bool)
          → (if t then none else if u then none else found) ≡ some b
          → Fitting x header source k p whole budget b
      go true u e = absurd (ground (arith, e))
      go false true e = absurd (ground (arith, e))
      go false false e = fit-Fitting x header source k p whole budget (suc (length tail)) tail b e

  -- The size of the headers and of the bytes of the log that a list of blocks shows.
  abbrev pub cost : SmokeBlock → ℕ
  cost b = header b.source b.reference + 1 + b.byte_length

  abbrev pub spent : List SmokeBlock → ℕ
  spent [] = 0
  spent (b ∷ []) = cost b
  spent (b ∷ c ∷ l) = cost b + 1 + spent (c ∷ l)

  -- The headers, separators and bytes of the logs that the selection takes fit its budget, where a
  -- decoded text never encodes to fewer bytes than it was decoded from.
  pub select_smoke_evidence-fits :
      (text_size : String → ℕ) (out_log error_log : Option Bytes) (max_bytes : ℕ)
      → ((raw : Bytes) → length raw ≤ text_size (x.decode_text raw))
      → spent (select_smoke_evidence x header text_size out_log error_log k p max_bytes).blocks
        ≤ max_bytes
  unfolding select_smoke_evidence as_list left_after rendered_size
  select_smoke_evidence-fits text_size out_log error_log max_bytes grows =
      first (smoke_block x header EvidenceSource.stderr k p error_log max_bytes) refl
    where
      second :
          (budget : ℕ) (o : Option SmokeBlock)
          → smoke_block x header EvidenceSource.stdout k p out_log budget ≡ o
          → spent (as_list x header o) ≤ budget
      second budget none e = omega arith
      second budget (some b) e =
          (smoke_block-Fitting EvidenceSource.stdout out_log budget b e).2.fits

      after :
          (b : SmokeBlock)
          → cost b ≤ max_bytes
          → b.byte_length ≤ text_size b.content
          → (o : Option SmokeBlock)
          → smoke_block x header EvidenceSource.stdout k p out_log
              (max_bytes - rendered_size x header text_size b - 1)
            ≡ o
          → spent (b ∷ as_list x header o) ≤ max_bytes
      after b f grown none e = f
      after b f grown (some c) e =
          omega (arith, f, grown, (smoke_block-Fitting EvidenceSource.stdout out_log _ c e).2.fits)

      first :
          (o : Option SmokeBlock)
          → smoke_block x header EvidenceSource.stderr k p error_log max_bytes ≡ o
          → spent (
              as_list x header o
              ++ as_list x header (
                  smoke_block x header EvidenceSource.stdout k p out_log (
                    (left_after x header text_size max_bytes o).0
                    - (left_after x header text_size max_bytes o).1)))
            ≤ max_bytes
      first none e = omega (arith, second (max_bytes - 0) _ refl)
      first (some b) e =
          let f = (smoke_block-Fitting EvidenceSource.stderr error_log max_bytes b e).2 in
          let (raw, shown, size) = f.text in
          let grown : b.byte_length ≤ text_size b.content =
            ground (arith, grows raw, shown, size) in
          after b f.fits grown
            (smoke_block x header EvidenceSource.stdout k p out_log
              (max_bytes - rendered_size x header text_size b - 1))
            refl
