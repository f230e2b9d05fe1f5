-- ===== src/Runtime/GenesisApi.antt =====
-- `GenesisBuilder` of runtime/src/lib.rs.
use substrate_fabric_integra.Runtime.ApiFrame.{RuntimeTypes, Bytes, RuntimeFrame}

module _ (T : RuntimeTypes) where
  pub data GenesisRequest : Type 0 where
    create_default_config : GenesisRequest
    build_config : Bytes → GenesisRequest

  abbrev pub GenesisResponse : GenesisRequest → Type 0
  GenesisResponse create_default_config = Bytes
  GenesisResponse (build_config _) = T.BuildResult

  module _ (F : RuntimeFrame T) where
    unfoldable pub genesis_builder :
        (request : GenesisRequest) → T.State → GenesisResponse request × T.State
    genesis_builder create_default_config s = (F.create_default_config, s)
    genesis_builder (build_config config) s = F.build_config config s
