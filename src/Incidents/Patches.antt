-- ===== src/Incidents/Patches.antt =====
-- What the coordinator needs of the patch service (cyan/training/incidents/patch.py, PatchService):
-- it reads and changes the files of one workspace, and may raise.
use zgent.Common.{ℕ, String, Option}
use zgent.Common.Exec.{Result}
use zgent.Incidents.Models.{Proposal, PatchReceipt}
use zgent.World.{Tree}

pub record Patches : Type 0 where
  -- PatchService(root).apply(proposal, patch_path), at a time
  pub apply : ℕ → Proposal → Option String → Tree → Result PatchReceipt × Tree
  -- PatchService(root).reverse(proposal, patch_path, receipt)
  pub reverse : Proposal → Option String → PatchReceipt → Tree → Result (Unit {0}) × Tree
