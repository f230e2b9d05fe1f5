-- ===== src/Runtime/Fees.antt =====
-- `pallet_transaction_payment::Config` of runtime/src/lib.rs, and what an extrinsic of the template
-- pallet costs. The pallet that computes the fee is FRAME's, so it is a parameter.
use substrate_fabric_integra.Base.{ℕ, ◌+◌, ◌≡◌, min, ◌∙◌, arith}
use substrate_fabric_integra.Base.Word.{u128_max}
use substrate_fabric_integra.Pallet.Call.{Call, do_something, cause_error}
use substrate_fabric_integra.Pallet.Weights.{Weights, DbWeight, IsLawful, Costs}
use substrate_fabric_integra.Pallet.Weights.Bounds.{substrate_weight_parts}
use substrate_fabric_integra.Runtime.Limits.{
  FrameLimits, WeightLimits, IsLawfulLimits, block_weights, call_weight, block_weights_lem,
}

-- What the configuration gives the pallet.
pub record PaymentConfig (W : Weights) (Multiplier : Type 0) : Type 0 where
  pub operational_fee_multiplier : ℕ
  pub weight_to_fee : W.Weight → ℕ
  pub length_to_fee : W.Weight → ℕ
  pub fee_multiplier : Multiplier

-- `IdentityFee`, the multiplier one, and the fee of a normal extrinsic by the block's
-- limits, which hold its base weight, its length, its weight and its tip
pub record PaymentFrame (W : Weights) : Type 1 where
  pub Multiplier : Type 0
  pub one : Multiplier
  pub identity_fee : W.Weight → ℕ
  pub compute_fee : PaymentConfig W Multiplier → WeightLimits W → ℕ → W.Weight → ℕ → ℕ

module _ (W : Weights) where
  -- `weight_to_fee` of the pallet caps a weight at that of a block.
  abbrev pub capped : WeightLimits W → W.Weight → W.Weight
  capped l w =
      W.from_parts (min (W.ref_time w) (W.ref_time l.max_block))
        (min (W.proof_size w) (W.proof_size l.max_block))

module _ (W : Weights) (P : PaymentFrame W) where
  unfoldable pub payment_config : PaymentConfig W P.Multiplier
  payment_config = record {
    operational_fee_multiplier = 5;
    weight_to_fee = P.identity_fee;
    length_to_fee = P.identity_fee;
    fee_multiplier = P.one;
  }

  -- The fee is the sum of the base fee, the fee for the length, the fee of the weight times the
  -- multiplier and the tip, capped at u128; weights are capped first, and a length is made a weight
  -- with that time. The identity fee of a weight is its time.
  pub record IsLawfulPayment : Type 0 where
    pub times : P.Multiplier → ℕ → ℕ
    pub times_one : (n : ℕ) → times P.one n ≡ n
    pub identity : (w : W.Weight) → P.identity_fee w ≡ W.ref_time w
    pub inclusion :
        (c : PaymentConfig W P.Multiplier) (l : WeightLimits W) (w : W.Weight) (len tip : ℕ)
        → P.compute_fee c l len w tip
          ≡ min
              (c.weight_to_fee (capped W l l.base_extrinsic)
                + c.length_to_fee (W.from_parts len 0)
                + times c.fee_multiplier (c.weight_to_fee (capped W l w))
                + tip)
              u128_max

  module _ (F : FrameLimits W) where
    -- The fee of a call of the template pallet in an extrinsic of `len` bytes.
    unfoldable pub call_fee : DbWeight W → Call → ℕ → ℕ → ℕ
    unfolding block_weights call_weight payment_config
    call_fee db c len tip =
        P.compute_fee payment_config (block_weights W F) len (call_weight W F db c) tip

    fee_lem :
        IsLawful W
        → IsLawfulPayment
        → IsLawfulLimits W F
        → (w : W.Weight) (len tip : ℕ)
        → P.compute_fee payment_config (block_weights W F) len w tip
          ≡ min
              (min (W.ref_time (block_weights W F).base_extrinsic) 2000000000000
                + len
                + min (W.ref_time w) 2000000000000
                + tip)
              u128_max
    unfolding payment_config
    fee_lem LW LP LF w len tip =
        let (block, _, _) = block_weights_lem W F LW LF in
        LP.inclusion payment_config (block_weights W F) w len tip
        ∙ simp (LP.identity, LP.times_one, LW.ref_time-from_parts, block)

    -- With lawful weights, limits, payment and database costs, a call pays one unit for each byte of
    -- its extrinsic and one for each picosecond of the base weight and of its weight, which is its
    -- measured time and the database accesses that it counts, either capped at the two seconds of a
    -- block, and its tip, the sum capped at u128.
    pub call_fee_lem :
        IsLawful W
        → IsLawfulPayment
        → IsLawfulLimits W F
        → {read write : ℕ} (db : DbWeight W) → Costs W db read write
        → (n len tip : ℕ)
        → let base = min (W.ref_time (block_weights W F).base_extrinsic) 2000000000000 in
          (call_fee db (do_something n) len tip
            ≡ min (base + len + min (9000000 + write) 2000000000000 + tip) u128_max)
          × (call_fee db cause_error len tip
              ≡ min (base + len + min (6000000 + read + write) 2000000000000 + tip) u128_max)
    unfolding call_fee call_weight
    call_fee_lem LW LP LF db costs n len tip =
        let (stores, _, bumps, _, _) = substrate_weight_parts W LW db costs in
        (
          fee_lem LW LP LF (call_weight W F db (do_something n)) len tip ∙ omega (arith, stores),
          fee_lem LW LP LF (call_weight W F db cause_error) len tip ∙ omega (arith, bumps),
        )
