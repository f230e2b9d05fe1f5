-- ===== src/Pallet/Config.antt =====
-- `trait Config` of pallets/template/src/lib.rs.
use substrate_fabric_integra.Pallet.Weights.{Weights, WeightInfo}

pub record TemplateConfig (W : Weights) : Type 1 where
  pub OverarchingEvent : Type 0
  pub weight_info : WeightInfo W
