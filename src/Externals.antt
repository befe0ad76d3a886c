-- ===== src/Externals.antt =====
-- What the program takes from libraries and the system: hashes, the JSON of pydantic, and text
-- decoding. Their laws are hypotheses of the theorems that need them.
use zgent.Common.{ℕ, String, Option, List}
use zgent.Jobs.Models.{JobEvent}
use zgent.Incidents.Models.{SmokeVerifierConfig}

pub record Externals : Type 0 where
  -- hashlib.sha256(content).hexdigest()
  pub sha256 : List ℕ → String
  -- bytes.decode("utf-8", errors="replace")
  pub decode_text : List ℕ → String
  -- JobEvent.model_dump_json().encode() and JobEvent.model_validate_json
  pub encode_event : JobEvent → List ℕ
  pub decode_event : List ℕ → Option JobEvent
  -- json.dumps of a verifier's configuration, as bytes
  pub encode_config : SmokeVerifierConfig → List ℕ

-- str.encode("utf-8") and bytes.decode("utf-8"), which raises for bytes that are no UTF-8.
pub record TextCodec : Type 0 where
  pub encode : String → List ℕ
  pub decode : List ℕ → Option String
