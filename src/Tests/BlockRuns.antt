-- ===== src/Tests/BlockRuns.antt =====
-- A chain of the small runtime, made through the runtime APIs.
use substrate_fabric_integra.Base.{
  ℕ, ⊤, ◌≡◌, refl, ◌⊎◌, inl, inr, All, Option, none, some, List, [], ◌∷◌, arith,
}
use substrate_fabric_integra.Pallet.Frame.{IsLawful, something_stored}
use substrate_fabric_integra.Pallet.Call.{do_something, cause_error, dispatch}
use substrate_fabric_integra.Pallet.Spec.{run, step}
use substrate_fabric_integra.Pallet.Laws.{Fits, view}
use substrate_fabric_integra.Runtime.Pallets.{RuntimePallet, sudo, template_module}
use substrate_fabric_integra.Runtime.Calls.{CallsOf, RuntimeCall}
use substrate_fabric_integra.Runtime.Routing.{IsIsolated, dispatch_runtime_call}
use substrate_fabric_integra.Runtime.Sudo.{Harmless, IsSudo}
use substrate_fabric_integra.Runtime.ApiFrame.{RuntimeTypes, RuntimeFrame}
use substrate_fabric_integra.Runtime.Api.{runtime_api}
use substrate_fabric_integra.Pallet.History.{Extrinsics}
use substrate_fabric_integra.Runtime.Executive.{apply_all, Same, Dispatches, IsLawfulExecutive}
use substrate_fabric_integra.Pallet.Composition.{
  stored_u32, something, something_get, something_put, deposit_event,
}
use substrate_fabric_integra.Pallet.Composition.Laws.{composed-IsLawful}
use substrate_fabric_integra.Runtime.Composed.{pallet_name, solochain}
use substrate_fabric_integra.Runtime.Composed.Laws.{composed-IsIsolated}
use substrate_fabric_integra.Runtime.Composed.Chains.{Chain-something}
use substrate_fabric_integra.Runtime.Blocks.{
  Phase, between, inside, Chain, genesis_block, begin, apply, end, import,
}
use substrate_fabric_integra.Runtime.Applied.{api_apply_all, view-api_apply_all}
use substrate_fabric_integra.Tests.RuntimeRuns.{number_codec, number_codec-IsCodec, others}
use substrate_fabric_integra.Tests.Composition.{
  State, chain, storage, storage-IsLawful, frame, handlers, handlers-WritesOwn,
}

abbrev pub frame-IsLawful : IsLawful frame
frame-IsLawful =
    composed-IsLawful (solochain chain) storage (λ e. refl) storage-IsLawful number_codec
      number_codec-IsCodec

abbrev pub handlers-IsIsolated : IsIsolated frame others handlers
handlers-IsIsolated =
    composed-IsIsolated chain storage others number_codec handlers handlers-WritesOwn

pub handlers-IsSudo : IsSudo frame others handlers
unfolding dispatch_runtime_call
handlers-IsSudo = record {
  redispatched = λ c origin s valid.
      (some ((template_module, cause_error), some 9), (ground arith, (tt, tt), refl, refl));
}

-- An extrinsic is a call with its origin; one whose argument is no u32 is refused. A header is a
-- number.
abbrev Extrinsic : Type 0
Extrinsic = Option ((c : RuntimeCall others × Option ℕ) × Harmless others c.0.0 c.0.1)

-- A block is its number and its extrinsics.
abbrev pub types : RuntimeTypes
types = record {
  State = State;
  Block = ℕ × List Extrinsic;
  Header = ℕ;
  Extrinsic = Extrinsic;
  Hash = ⊤;
  RuntimeCall = ⊤;
  AccountId = ⊤;
  AuraId = ⊤;
  GrandpaId = ⊤;
  KeyTypeId = ⊤;
  Weight = ⊤;
  InclusionMode = ⊤;
  ApplyResult = ⊤;
  InherentData = ⊤;
  CheckInherents = ⊤;
  Source = ⊤;
  Validity = ⊤;
  Metadata = ⊤;
  EquivocationProof = ⊤;
  OwnershipProof = ⊤;
  DispatchInfo = ⊤;
  FeeDetails = ⊤;
  BuildResult = ⊤;
}

abbrev applied : types.Extrinsic → State → State
applied none s = s
applied (some ((call, origin), valid)) s =
    (dispatch_runtime_call frame others handlers call origin s).1

abbrev applied_all : List Extrinsic → State → State
applied_all [] s = s
applied_all (x ∷ xs) s = applied_all xs (applied x s)

abbrev pub executive : RuntimeFrame types
executive = record {
  execute_block = λ block s. applied_all block.1 (record s { block = block.0; log = [] });
  initialize_block = λ header s. (tt, record s { block = header; log = [] });
  apply_extrinsic = λ extrinsic s. (tt, applied extrinsic s);
  finalize_block = λ s. (s.block, s);
  validate_transaction = λ source tx block_hash s. (tt, s);
  offchain_worker = λ header s. s;
  metadata = tt;
  metadata_at_version = λ at. none;
  metadata_versions = [];
  create_extrinsics = λ inherents s. [];
  check_extrinsics = λ inherents block s. tt;
  aura_slot_duration = λ s. 6000;
  aura_authorities = λ s. [];
  generate_session_keys = λ seed s. ([], s);
  decode_into_raw_public_keys = λ encoded. none;
  grandpa_authorities = λ s. [];
  current_set_id = λ s. 0;
  account_nonce = λ account s. 0;
  query_info = λ uxt len s. tt;
  query_fee_details = λ uxt len s. tt;
  query_call_info = λ call len s. tt;
  query_call_fee_details = λ call len s. tt;
  weight_to_fee = λ weight s. 0;
  length_to_fee = λ len s. len;
  create_default_config = [];
  build_config = λ config s. (tt, s);
}

applied-cases :
    (x : types.Extrinsic) (s : State)
    → Same frame s (applied x s)
      ⊎ ((p : RuntimePallet) × (c : CallsOf others p) × (origin : Option ℕ) × Dispatches frame
            others handlers types executive
            (λ t. t)
            x
            s
            p
            c
            origin)
applied-cases none s = inl (record { viewed = refl; block_number = refl })
applied-cases (some (((p, c), origin), valid)) s = inr (
  p,
  c,
  origin,
  record {
    checked = s;
    valid = valid;
    before = record { viewed = refl; block_number = refl };
    after = record { viewed = refl; block_number = refl };
  },
)

applied_all_lem :
    (xs : List Extrinsic) (s : State) → applied_all xs s ≡ apply_all types executive xs s
applied_all_lem [] s = refl
applied_all_lem (x ∷ xs) s = applied_all_lem xs (applied x s)

unfoldable executive-IsLawful : IsLawfulExecutive frame others handlers types executive (λ s. s)
unfolding something_get
executive-IsLawful = record {
  get-build = λ json s. refl;
  number = λ h. h;
  block_number-initialize = λ h s. refl;
  get-initialize = λ h s. refl;
  get-finalize = λ s. refl;
  header = λ b. b.0;
  extrinsics = λ b. b.1;
  executed = λ b s. applied_all_lem b.1 _;
  IsOrdinary = λ x. Unit;
  applied = λ x s plain. applied-cases x s;
}

-- A chain in which account 4 sets the value and then calls sudo.
abbrev pub start : State
start = record { block = 0; cells = λ k. none; log = [] }

abbrev set_seven : types.Extrinsic
set_seven = some (((template_module, do_something 7), some 4), (omega arith, tt))

abbrev call_sudo : types.Extrinsic
call_sudo = some (((sudo, 1), some 4), (tt, tt))

abbrev opened : State
opened = (executive.initialize_block 1 start).1

abbrev ToyChain : Phase → Extrinsics frame → State → Type 0
ToyChain =
    Chain frame frame-IsLawful others handlers handlers-IsIsolated handlers-IsSudo types executive
      (λ s. s) executive-IsLawful

opened-Chain : ToyChain inside [] opened
unfolding runtime_api something_get executive-IsLawful
opened-Chain = begin [] 1 start (genesis_block [] start refl) refl

-- The block that is made has both extrinsics, and the next one, which is imported, a call of sudo.
abbrev imported : State
imported =
    executive.execute_block (2, call_sudo ∷ []) (applied call_sudo (applied set_seven opened))

abbrev history : Extrinsics frame
history = (do_something 7, some 4) ∷ (cause_error, some 9) ∷ (cause_error, some 9) ∷ []

imported-Chain : ToyChain between history imported
unfolding runtime_api executive-IsLawful handlers-IsSudo dispatch_runtime_call applied-cases
    dispatch something_get something_put deposit_event pallet_name
imported-Chain =
    import _ (2, call_sudo ∷ []) (tt, tt) _
      (end _ _ (apply _ call_sudo tt _ (apply _ set_seven tt opened opened-Chain))) refl

Chain-something_example :
    (stored_u32 number_codec
        (storage.get_raw (something (solochain chain) storage number_codec) imported)
      ≡ some 9)
    × All (λ (call, _). Fits call) history
unfolding run step
Chain-something_example =
    Chain-something chain storage storage-IsLawful number_codec number_codec-IsCodec others handlers
      handlers-WritesOwn handlers-IsSudo types executive (λ s. s) executive-IsLawful imported-Chain

view-api_apply_all_example :
    view frame (api_apply_all types executive (set_seven ∷ call_sudo ∷ []) opened)
    ≡ record { value = some 8; log = something_stored 7 4 ∷ [] }
unfolding run step executive-IsLawful applied-cases handlers-IsSudo
view-api_apply_all_example =
    view-api_apply_all frame frame-IsLawful others handlers handlers-IsIsolated handlers-IsSudo
      types executive (λ s. s) executive-IsLawful opened-Chain (set_seven ∷ call_sudo ∷ [])
      (tt, (tt, tt))
