-- ===== src/Tests/CountedRuntime.antt =====
-- The small runtime with nonces, and a count of what its extrinsics take of a block.
use substrate_fabric_integra.Base.{
  ℕ, suc, ◌==◌, leb, ◌≡◌, refl, Bool, true, Bool-cases, inl, inr, if◌then◌else◌, ◌⊎◌, Option, none,
  some, List, [], ◌∷◌, ◌+◌, arith,
}
use substrate_fabric_integra.Base.Word.{u32_max}
use substrate_fabric_integra.Pallet.Call.{Call, do_something, cause_error, dispatch}
use substrate_fabric_integra.Pallet.Laws.{Fits}
use substrate_fabric_integra.Runtime.Pallets.{RuntimePallet, template_module}
use substrate_fabric_integra.Runtime.Calls.{CallsOf}
use substrate_fabric_integra.Runtime.ApiFrame.{RuntimeTypes, RuntimeFrame}
use substrate_fabric_integra.Runtime.Routing.{dispatch_runtime_call}
use substrate_fabric_integra.Runtime.Executive.{apply_all, Same, Dispatches, IsLawfulExecutive}
use substrate_fabric_integra.Pallet.Composition.{something_get}
use substrate_fabric_integra.Tests.RuntimeRuns.{others, limits}
use substrate_fabric_integra.Tests.Toys.{weights, rocks_db}
use substrate_fabric_integra.Runtime.Limits.{block_weights, call_weight}
use substrate_fabric_integra.Tests.Composition.{State, frame, handlers}
use substrate_fabric_integra.Tests.BlockRuns.{types}

-- A state with each account's nonce and what the block's extrinsics have taken.
pub record Counted : Type 0 where
  pub pallets : State
  pub nonces : ℕ → ℕ
  pub time : ℕ
  pub proof : ℕ
  pub bytes : ℕ

-- An extrinsic is a call with its signer.
abbrev pub counted : RuntimeTypes
counted = record types { State = Counted; Extrinsic = Call × ℕ; Block = ℕ × List (Call × ℕ) }

abbrev pub fits : Call → Bool
fits (do_something n) = leb n u32_max
fits cause_error = true

abbrev bump : ℕ → (ℕ → ℕ) → ℕ → ℕ
bump who nonces a = if a == who then suc (nonces a) else nonces a

abbrev base_weight : weights.Weight
base_weight = (block_weights weights limits).base_extrinsic

-- Every extrinsic has 120 bytes.
abbrev pub charged : Call → ℕ → counted.State → counted.State
charged c who s = record {
  pallets = (dispatch frame c (some who) s.pallets).1;
  nonces = bump who s.nonces;
  time = s.time + (base_weight.0 + (call_weight weights limits rocks_db c).0);
  proof = s.proof + (base_weight.1 + (call_weight weights limits rocks_db c).1);
  bytes = s.bytes + 120;
}

abbrev emptied : ℕ → counted.State → counted.State
emptied block s = record {
  pallets = record s.pallets { block = block; log = [] };
  nonces = s.nonces;
  time = 0;
  proof = 0;
  bytes = 0;
}

-- A call whose argument is no u32 is refused.
abbrev pub applied : Call × ℕ → counted.State → counted.State
applied (c, who) s = if fits c then charged c who s else s

abbrev applied_all : List (Call × ℕ) → counted.State → counted.State
applied_all [] s = s
applied_all (x ∷ xs) s = applied_all xs (applied x s)

abbrev pub frame_of : RuntimeFrame counted
frame_of = record {
  execute_block = λ block s. applied_all block.1 (emptied block.0 s);
  initialize_block = λ header s. (tt, emptied header s);
  apply_extrinsic = λ extrinsic s. (tt, applied extrinsic s);
  finalize_block = λ s. (s.pallets.block, s);
  validate_transaction = λ source tx block_hash s. (tt, s);
  offchain_worker = λ header s. s;
  metadata = tt;
  metadata_at_version = λ at. none;
  metadata_versions = [];
  create_extrinsics = λ inherents s. [];
  check_extrinsics = λ inherents block s. tt;
  aura_slot_duration = λ s. 6000;
  aura_authorities = λ s. [];
  generate_session_keys = λ seed s. ([], s);
  decode_into_raw_public_keys = λ encoded. none;
  grandpa_authorities = λ s. [];
  current_set_id = λ s. 0;
  account_nonce = λ account s. 0;
  query_info = λ uxt len s. tt;
  query_fee_details = λ uxt len s. tt;
  query_call_info = λ call len s. tt;
  query_call_fee_details = λ call len s. tt;
  weight_to_fee = λ weight s. 0;
  length_to_fee = λ len s. len;
  create_default_config = [];
  build_config = λ config s. (tt, s);
}

abbrev pub seen : counted.State → State
seen s = s.pallets

abbrev pub Dispatched :
    (Call × ℕ) → counted.State → (p : RuntimePallet) → CallsOf others p → Option ℕ → Type 0
Dispatched = Dispatches frame others handlers counted frame_of seen

fits-Fits : (c : Call) → fits c ≡ true → Fits c
fits-Fits (do_something n) h = ground arith
fits-Fits cause_error h = tt

pub Fits-fits : (c : Call) → Fits c → fits c ≡ true
Fits-fits (do_something n) h = ground arith
Fits-fits cause_error h = refl

pub applied-Dispatches :
    (c : Call) (who : ℕ) (s : counted.State)
    → fits c ≡ true
    → Dispatched (c, who) s template_module c (some who)
unfolding dispatch_runtime_call
applied-Dispatches c who s h = record {
  checked = s.pallets;
  valid = (fits-Fits c h, tt);
  before = record { viewed = refl; block_number = refl };
  after = rw h (record { viewed = refl; block_number = refl });
}

pub applied-cases :
    (x : Call × ℕ) (s : counted.State)
    → Same frame s.pallets (applied x s).pallets
      ⊎ ((p : RuntimePallet) × (c : CallsOf others p) × (origin : Option ℕ) × Dispatched x s p c
            origin)
applied-cases (c, who) s = elim (Bool-cases (fits c)) [
  | inl fit ↦ inr (template_module, c, some who, applied-Dispatches c who s fit)
  | inr unfit ↦ inl (rw unfit (record { viewed = refl; block_number = refl }))
]

pub applied_all_lem :
    (xs : List (Call × ℕ)) (s : counted.State) → applied_all xs s ≡ apply_all counted frame_of xs s
applied_all_lem [] s = refl
applied_all_lem (x ∷ xs) s = applied_all_lem xs (applied x s)

unfoldable pub counted-IsLawful : IsLawfulExecutive frame others handlers counted frame_of seen
unfolding something_get
counted-IsLawful = record {
  get-build = λ json s. refl;
  number = λ h. h;
  block_number-initialize = λ h s. refl;
  get-initialize = λ h s. refl;
  get-finalize = λ s. refl;
  header = λ b. b.0;
  extrinsics = λ b. b.1;
  executed = λ b s. applied_all_lem b.1 _;
  IsOrdinary = λ x. Unit;
  applied = λ x s plain. applied-cases x s;
}
