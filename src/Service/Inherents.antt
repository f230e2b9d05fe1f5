-- ===== src/Service/Inherents.antt =====
-- The two `create_inherent_data_providers` of node/src/service.rs: that of the import queue, which asks
-- the runtime for the slot duration at each block's parent, and that of the author, which asked once
-- when the node was built. Times are milliseconds since the unix epoch.
use substrate_fabric_integra.Base.{ℕ, ◌*◌, ◌/◌, ◌<◌, ◌≡◌, ◌∙◌, ap, arith}
use substrate_fabric_integra.Base.Effect.{Result, ok}
use substrate_fabric_integra.Base.Outcome.{◌>>=◌}
use substrate_fabric_integra.Runtime.Params.{minimum_period, default_millisecs_per_block}
use substrate_fabric_integra.Runtime.Api
use substrate_fabric_integra.Runtime.ApiFrame.{RuntimeTypes, RuntimeFrame}
use substrate_fabric_integra.Runtime.Api.{runtime_api}
use substrate_fabric_integra.Runtime.Answers.{answered_slot}

pub record Slots : Type 1 where
  pub Client : Type 0
  pub Hash : Type 0
  pub ClientError : Type 0
  -- `sc_consensus_aura::standalone::slot_duration_at`
  pub slot_duration_at : Client → Hash → Result ClientError ℕ
  -- `InherentDataProvider::from_timestamp_and_slot_duration`
  pub from_timestamp_and_slot_duration : ℕ → ℕ → ℕ

module _ (S : Slots) where
  -- The providers of the import queue, for the slot and for the timestamp, at the system's time.
  unfoldable pub import_inherents : S.Client → S.Hash → ℕ → Result S.ClientError (ℕ × ℕ)
  import_inherents cidp_client parent_hash now = do
    slot_duration ← S.slot_duration_at cidp_client parent_hash
    let timestamp = now
    let slot = S.from_timestamp_and_slot_duration timestamp slot_duration
    ok (slot, timestamp)

  -- The author's, with the slot duration that the node was built with.
  unfoldable pub author_inherents : ℕ → ℕ → Result S.ClientError (ℕ × ℕ)
  author_inherents slot_duration now =
      let timestamp = now in
      let slot = S.from_timestamp_and_slot_duration timestamp slot_duration in ok (slot, timestamp)

  -- Slots are counted from the epoch.
  pub record IsLawfulSlots : Type 0 where
    pub slot_of : (t d : ℕ) → 0 < d → S.from_timestamp_and_slot_duration t d ≡ t / d

  module _ (L : IsLawfulSlots) (T : RuntimeTypes) (F : RuntimeFrame T) where
    -- If slots are counted from the epoch, Aura takes twice the minimum period for its slot, and the
    -- client answers with what the runtime's API answers at the parent's state, then the import queue
    -- gives a block the very slot and timestamp that its author gave it at the same time, though
    -- the author read the slot duration at another state: the slot is that of six seconds.
    pub import_inherents-author_inherents :
        ((s : T.State) → F.aura_slot_duration s ≡ minimum_period default_millisecs_per_block * 2)
        → (cidp_client : S.Client) (parent_hash : S.Hash) (built at_parent : T.State) (now : ℕ)
        → S.slot_duration_at cidp_client parent_hash
          ≡ ok (runtime_api T F Api.slot_duration at_parent).0
        → (import_inherents cidp_client parent_hash now
            ≡ author_inherents (runtime_api T F Api.slot_duration built).0 now)
          × (import_inherents cidp_client parent_hash now ≡ ok (now / 6000, now))
    unfolding import_inherents author_inherents
    import_inherents-author_inherents aura cidp_client parent_hash built at_parent now answer =
        let reads = answered_slot T F aura in
        let asked : S.slot_duration_at cidp_client parent_hash ≡ ok 6000 =
          answer ∙ ap ok (reads at_parent) in
        let slot = L.slot_of now 6000 (omega arith) in (rw (asked, reads built), rw (asked, slot))
