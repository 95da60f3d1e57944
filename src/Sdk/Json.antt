-- ===== src/Sdk/Json.antt =====
-- The JSON codec that the modules take for their genesis states (`codec.JSONCodec`).
use dnsblockchain.Prelude.{◌≡◌, Option, some}

-- The codec for one type of genesis states.
pub record JsonCodec (Raw G : Type 0) : Type 0 where
  pub marshal_json : G → Option Raw
  pub unmarshal_json : Raw → Option G

-- What is relied on: every state is written, and reading gives it back.
abbrev pub IsLossless : {Raw G : Type 0} → JsonCodec Raw G → Type 0
IsLossless {Raw} {G} c =
    (g : G) → (raw : Raw) × (c.marshal_json g ≡ some raw) × (c.unmarshal_json raw ≡ some g)
