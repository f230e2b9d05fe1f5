-- ===== src/Runtime/Limits.antt =====
-- `BlockWeights` and `BlockLength` of runtime/src/lib.rs, and the weights of the template pallet's
-- calls. How limits follow from a ratio is FRAME's, so it is a parameter.
use substrate_fabric_integra.Base.{ℕ, ◌*◌, ◌-◌, ◌≡◌, refl, ap, ◌∙◌, arith}
use substrate_fabric_integra.Base.Word.{u64_max}
use substrate_fabric_integra.Pallet.Call.{Call, do_something, cause_error}
use substrate_fabric_integra.Pallet.Weights.{Weights, DbWeight, IsLawful, substrate_weight}

-- `frame_system::limits::BlockWeights`, for the class of normal extrinsics
pub record WeightLimits (W : Weights) : Type 0 where
  pub max_block : W.Weight
  pub base_extrinsic : W.Weight
  pub normal_max_extrinsic : W.Weight
  pub normal_max_total : W.Weight

-- `frame_system::limits::BlockLength`, for the class of normal extrinsics and for the others
pub record LengthLimits : Type 0 where
  pub normal : ℕ
  pub operational : ℕ

-- `WEIGHT_REF_TIME_PER_SECOND` and the constructors of the limits, which take a ratio in percent
pub record FrameLimits (W : Weights) : Type 0 where
  pub weight_ref_time_per_second : ℕ
  pub with_sensible_defaults : W.Weight → ℕ → WeightLimits W
  pub max_with_normal_ratio : ℕ → ℕ → LengthLimits

-- `NORMAL_DISPATCH_RATIO`, in percent
abbrev pub normal_dispatch_ratio : ℕ
normal_dispatch_ratio = 75

module _ (W : Weights) (F : FrameLimits W) where
  unfoldable pub block_weights : WeightLimits W
  block_weights =
      F.with_sensible_defaults (W.from_parts (2 * F.weight_ref_time_per_second) u64_max)
        normal_dispatch_ratio

  unfoldable pub block_length : LengthLimits
  block_length = F.max_with_normal_ratio (5 * 1024 * 1024) normal_dispatch_ratio

  -- The time is in picoseconds. Normal extrinsics get their ratio of the block, and a single one what
  -- a tenth of the block, kept for the block's initialization, and the base weight of an extrinsic
  -- leave of that. How FRAME rounds a part that is no whole number is left open.
  pub record IsLawfulLimits : Type 0 where
    pub second : F.weight_ref_time_per_second ≡ 1000000000000
    pub max_block : (w : W.Weight) (ratio : ℕ) → (F.with_sensible_defaults w ratio).max_block ≡ w
    pub max_total :
        (w : W.Weight) (ratio part : ℕ)
        → part * 100 ≡ W.ref_time w * ratio
        → W.ref_time (F.with_sensible_defaults w ratio).normal_max_total ≡ part
    pub max_extrinsic :
        (w : W.Weight) (ratio tenth : ℕ)
        → tenth * 10 ≡ W.ref_time w
        → let l = F.with_sensible_defaults w ratio in
          W.ref_time l.normal_max_extrinsic
          ≡ W.ref_time l.normal_max_total - tenth - W.ref_time l.base_extrinsic
    pub lengths :
        (size ratio part : ℕ)
        → part * 100 ≡ size * ratio
        → let l = F.max_with_normal_ratio size ratio in (l.normal ≡ part) × (l.operational ≡ size)

  -- `#[pallet::weight]`, with the runtime's `WeightInfo`
  unfoldable pub call_weight : DbWeight W → Call → W.Weight
  call_weight db (do_something _) = (substrate_weight W db).do_something
  call_weight db cause_error = (substrate_weight W db).cause_error

  -- Two seconds for a block, one and a half of them for normal extrinsics.
  pub block_weights_lem :
      IsLawful W
      → IsLawfulLimits
      → (W.ref_time block_weights.max_block ≡ 2000000000000)
        × (W.ref_time block_weights.normal_max_total ≡ 1500000000000)
        × (W.ref_time block_weights.normal_max_extrinsic
            ≡ 1300000000000 - W.ref_time block_weights.base_extrinsic)
  unfolding block_weights
  block_weights_lem LW LF =
      let expected = W.from_parts (2 * F.weight_ref_time_per_second) u64_max in
      let two : W.ref_time expected ≡ 2000000000000 =
        LW.ref_time-from_parts (2 * F.weight_ref_time_per_second) u64_max
        ∙ ap (λ n. 2 * n) LF.second in
      let total = LF.max_total expected 75 1500000000000 (omega (arith, two)) in
      let single = LF.max_extrinsic expected 75 200000000000 (omega (arith, two)) in
      (rw LF.max_block two, total, omega (arith, total, single))

  -- In bytes: three quarters of five mebibytes, and the five.
  pub block_length_lem :
      IsLawfulLimits → (block_length.normal ≡ 3932160) × (block_length.operational ≡ 5242880)
  unfolding block_length
  block_length_lem LF = LF.lengths (5 * 1024 * 1024) 75 3932160 refl
