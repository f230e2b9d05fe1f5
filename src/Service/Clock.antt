-- ===== src/Service/Clock.antt =====
-- Authoring in node/src/service.rs against the time that runtime/src/lib.rs configures: Aura's
-- and the timestamp pallet's checks on a block's slot and timestamp.
use substrate_fabric_integra.Base.{
  ℕ, ⊤, ◌+◌, ◌*◌, ◌/◌, ◌≤◌, ◌<◌, ◌≡◌, ◌↔◌, refl, ◌∙◌, ap, Bool, true, false, if◌then◌else◌, List,
  [], ◌∷◌, map, arith,
}
use substrate_fabric_integra.Base.Effect.{ok}
use substrate_fabric_integra.Base.Outcome.{for_each}
use substrate_fabric_integra.Runtime.Params.{
  aura_max_authorities, minimum_period, default_millisecs_per_block,
}
use substrate_fabric_integra.Runtime.Api
use substrate_fabric_integra.Runtime.ApiFrame.{RuntimeTypes, RuntimeFrame}
use substrate_fabric_integra.Runtime.Api.{runtime_api}
use substrate_fabric_integra.Runtime.Answers.{answered_slot}
use substrate_fabric_integra.Service.Inherents.{Slots, IsLawfulSlots, author_inherents}

-- `pallet_aura::Config`
pub record AuraConfig : Type 0 where
  pub max_authorities : ℕ
  pub allow_multiple_blocks_per_slot : Bool

abbrev pub aura_config : AuraConfig
aura_config = record {
  max_authorities = aura_max_authorities;
  allow_multiple_blocks_per_slot = false;
}

-- Whether Aura and the timestamp pallet take a block's slot and timestamp after its parent's.
pub record Clock : Type 0 where
  pub accepts : AuraConfig → (period : ℕ) → (parent block : ℕ × ℕ) → Bool

-- The timestamp grows by the minimum period at least. The slot is the timestamp's, of twice the
-- minimum period, and grows, unless several blocks are allowed for a slot.
pub record IsLawfulClock (K : Clock) : Type 0 where
  pub accepts_lem :
      (c : AuraConfig) (period : ℕ) (parent block : ℕ × ℕ)
      → (K.accepts c period parent block ≡ true) ↔ (
          (if c.allow_multiple_blocks_per_slot then parent.0 ≤ block.0 else parent.0 < block.0)
          × (parent.1 + period ≤ block.1)
          × (block.0 ≡ block.1 / (period * 2)))

-- Each block is taken after the one before it.
abbrev pub accepts_all : Clock → (parent : ℕ × ℕ) → List (ℕ × ℕ) → Bool
accepts_all K parent [] = true
accepts_all K parent (block ∷ rest) =
    let later = accepts_all K block rest in
    if K.accepts aura_config (minimum_period default_millisecs_per_block) parent block
    then later
    else false

-- Times at least so far apart.
abbrev pub Spaced : ℕ → ℕ → List ℕ → Type 0
Spaced d t [] = ⊤
Spaced d t (u ∷ us) = (t + d ≤ u) × Spaced d u us

-- The slot and the timestamp of a block made at a time.
abbrev stamp : ℕ → ℕ × ℕ
stamp t = (t / 6000, t)

div-lt-div : (t u : ℕ) → t + 6000 ≤ u → t / 6000 < u / 6000
div-lt-div t u after = omega arith

accepted_next :
    (K : Clock)
    → IsLawfulClock K
    → (t u : ℕ) → t + 6000 ≤ u
    → K.accepts aura_config (minimum_period default_millisecs_per_block) (stamp t) (stamp u) ≡ true
unfolding minimum_period
accepted_next K L t u after =
    (L.accepts_lem aura_config 3000 (stamp t) (stamp u)).1 (div-lt-div t u after, omega arith, refl)

accepts_all_lem :
    (K : Clock)
    → IsLawfulClock K
    → (t : ℕ) (us : List ℕ) → Spaced 6000 t us
    → accepts_all K (stamp t) (map stamp us) ≡ true
accepts_all_lem K L t [] spaced = refl
accepts_all_lem K L t (u ∷ us) (after, spaced) =
    rw (accepted_next K L t u after) (accepts_all_lem K L u us spaced)

module _ (S : Slots) (LS : IsLawfulSlots S) where
  authored : (ts : List ℕ) → for_each (author_inherents S 6000) ts ≡ ok (map stamp ts)
  unfolding author_inherents
  authored [] = refl
  authored (t ∷ ts) = rw (LS.slot_of t 6000 (omega arith), authored ts)

  module _ (T : RuntimeTypes) (F : RuntimeFrame T) where
    -- If slots are counted from the epoch, Aura takes twice the minimum period for its slot, and
    -- Aura and the timestamp pallet check a block as they document, then blocks that an author
    -- makes at times six seconds or more apart, with the slot duration that it read when the node
    -- was built, each stamped with its time, are all taken one after the other.
    pub author_blocks_taken :
        (K : Clock)
        → IsLawfulClock K
        → ((s : T.State) → F.aura_slot_duration s ≡ minimum_period default_millisecs_per_block * 2)
        → (built : T.State) (first : ℕ) (later : List ℕ) → Spaced 6000 first later
        → (parent : ℕ × ℕ) × (blocks : List (ℕ × ℕ)) × (for_each
              (author_inherents S (runtime_api T F Api.slot_duration built).0)
              (first ∷ later)
            ≡ ok (parent ∷ blocks))
          × (map (λ (_, timestamp). timestamp) blocks ≡ later)
          × (accepts_all K parent blocks ≡ true)
    author_blocks_taken K LK aura built first later spaced =
        let reads = answered_slot T F aura built in
        (
          stamp first,
          map stamp later,
          ap (λ d. for_each (author_inherents S d) (first ∷ later)) reads
              ∙ authored (first ∷ later),
          stamps later,
          accepts_all_lem K LK first later spaced,
        )
      where
        stamps : (ts : List ℕ) → map (λ (_, timestamp). timestamp) (map stamp ts) ≡ ts
        stamps [] = refl
        stamps (t ∷ ts) = ap (λ us. t ∷ us) (stamps ts)
