-- ===== src/Benchmarking/Submitted.antt =====
-- The extrinsics of node/src/benchmarking.rs in a block of runtime/src/lib.rs: signed by the node one
-- after the other, checked by the runtime's extensions, dispatched to the template pallet.
use substrate_fabric_integra.Base.{
  ℕ, suc, Bool, false, ◌+◌, ◌<◌, ◌≡◌, refl, sym, ap, ◌∙◌, subst, some, String, All, Option, List,
  [], ◌∷◌, map, length,
}
use substrate_fabric_integra.Base.Effect.{Result, ok}
use substrate_fabric_integra.Base.Outcome.{Failure, ◌>>=◌}
use substrate_fabric_integra.Pallet.Frame.{Frame}
use substrate_fabric_integra.Pallet.Frame
use substrate_fabric_integra.Pallet.Call.{Call}
use substrate_fabric_integra.Pallet.Spec.{run, step}
use substrate_fabric_integra.Pallet.Laws.{Fits, view, signer}
use substrate_fabric_integra.Pallet.History.{Extrinsics}
use substrate_fabric_integra.Runtime.Params.{version}
use substrate_fabric_integra.Runtime.Pallets.{template_module}
use substrate_fabric_integra.Runtime.Calls.{Others}
use substrate_fabric_integra.Runtime.Routing.{Handlers, IsIsolated}
use substrate_fabric_integra.Runtime.Sudo.{IsSudo}
use substrate_fabric_integra.Runtime.ApiFrame.{RuntimeTypes, RuntimeFrame}
use substrate_fabric_integra.Runtime.Api.{runtime_api}
use substrate_fabric_integra.Runtime.Executive.{Dispatches, IsLawfulExecutive}
use substrate_fabric_integra.Runtime.Blocks.{inside, apply}
use substrate_fabric_integra.Runtime.Blocks
use substrate_fabric_integra.Runtime.Applied.{api_apply_all, Chain-apply}
use substrate_fabric_integra.Benchmarking.Host.{Host, Client}
use substrate_fabric_integra.Benchmarking.Extrinsic.{UncheckedExtrinsic, create_benchmark_extrinsic}
use substrate_fabric_integra.Benchmarking.Accepted.{
  Chain, IsLawful, Verified, create_benchmark_extrinsic-Verified,
}

module _ (N : Host) where
  -- One extrinsic for each call, with a nonce after the other.
  unfoldable pub create_all :
      Client N
      → N.Pair
      → List N.RuntimeCall
      → ℕ
      → Result (Failure String) (List (UncheckedExtrinsic N))
  unfolding create_benchmark_extrinsic
  create_all client sender [] nonce = ok []
  create_all client sender (c ∷ cs) nonce = do
    xt ← create_benchmark_extrinsic N client sender c nonce
    xts ← create_all client sender cs (suc nonce)
    ok (xt ∷ xts)

  create_all-cons :
      (client : Client N) (sender : N.Pair) (c : N.RuntimeCall) (cs : List N.RuntimeCall) {n m : ℕ}
      {xt : UncheckedExtrinsic N} {xts : List (UncheckedExtrinsic N)}
      → create_benchmark_extrinsic N client sender c n ≡ ok xt
      → m ≡ suc n
      → create_all client sender cs m ≡ ok xts
      → create_all client sender (c ∷ cs) n ≡ ok (xt ∷ xts)
  unfolding create_all
  create_all-cons client sender c cs built next all_built = rw (built, sym next, all_built) refl

  -- The client is one of this runtime, its best block is the parent of the block that is made or one
  -- of the 2046 before, it reads that block's number and hash, and the sender is not the zero account.
  pub record Follows (client : Client N) (sender : N.Pair) (C : Chain N) : Type 0 where
    pub same_version : C.runtime_version ≡ version
    pub same_genesis : client.genesis ≡ ok (some C.genesis_hash)
    pub same_block : client.info_for_hash.best_hash ≡ C.canonical client.info_for_number.best_number
    pub after : client.info_for_number.best_number < C.current
    pub before : C.current < client.info_for_number.best_number + 2048
    pub non_zero : C.is_zero (N.account sender) ≡ false

  Follows-nonce :
      {client : Client N} {sender : N.Pair} {C : Chain N} {nonce : N.AccountId → ℕ}
      {room pay : UncheckedExtrinsic N → Bool}
      → Follows client sender C
      → Follows client sender (record C { nonce = nonce; has_room = room; can_pay = pay })
  Follows-nonce f = record {
    same_version = f.same_version;
    same_genesis = f.same_genesis;
    same_block = f.same_block;
    after = f.after;
    before = f.before;
    non_zero = f.non_zero;
  }

-- The calls as the specification sees them.
abbrev pub signed_by : {N A : Type 0} → (N → A) → N → List Call → List (Call × Option A)
signed_by of_account sender = map (λ c. (c, some (of_account sender)))

-- The node's keys, calls and extrinsics as the runtime reads them.
module _ (F : Frame) (O : Others) (H : Handlers F O) (T : RuntimeTypes) (X : RuntimeFrame T)
    (seen : T.State → F.State) (N : Host) where
  pub record Intake : Type 0 where
    pub to_extrinsic : UncheckedExtrinsic N → T.Extrinsic
    pub of_account : N.AccountId → F.AccountId
    pub signed : F.AccountId → F.Origin
    pub template_call : Call → N.RuntimeCall
    -- what the signed extensions read of a state
    pub known : T.State → Chain N

  -- `Room` says that the block has room, and the account the funds, for so many extrinsics of the
  -- template pallet without a tip. An extrinsic that is verified, of another than the zero account, then dispatches
  -- its call with its signer for the origin. Its account's next nonce is then one more, nothing
  -- else that the extensions read changes within a block but what is left of the block and of the
  -- balances, and there is room for one extrinsic less.
  pub record IsLawfulIntake (I : Intake) (Room : ℕ → N.AccountId → T.State → Type 0) : Type 0 where
    pub ensure_signed-signed : (a : F.AccountId) → F.ensure_signed (I.signed a) ≡ ok a
    pub known-IsLawful : (s : T.State) → IsLawful N (I.known s)
    pub accepted :
        (n : ℕ) (c : Call) (a : N.AccountId) (xt : UncheckedExtrinsic N) (s : T.State)
        → xt.call ≡ I.template_call c
        → xt.address ≡ a
        → xt.extra.charge_transaction_payment ≡ 0
        → (I.known s).is_zero a ≡ false
        → Fits c
        → Verified N (I.known s) xt
        → Room (suc n) a s
        → let t = (X.apply_extrinsic (I.to_extrinsic xt) s).1 in
          Dispatches F O H T X seen
            (I.to_extrinsic xt)
            s
            template_module
            c
            (I.signed (I.of_account a))
          × ((I.known t).nonce a ≡ suc ((I.known s).nonce a))
          × (I.known t ≡ record (I.known s) {
            nonce = (I.known t).nonce;
            has_room = (I.known t).has_room;
            can_pay = (I.known t).can_pay;
          })
          × Room n a t

module _ (F : Frame) (L : Frame.IsLawful F) (O : Others) (H : Handlers F O)
    (isolated : IsIsolated F O H) (S : IsSudo F O H) (T : RuntimeTypes) (X : RuntimeFrame T)
    (seen : T.State → F.State) (E : IsLawfulExecutive F O H T X seen) (N : Host)
    (I : Intake F O H T X seen N) (Room : ℕ → N.AccountId → T.State → Type 0)
    (LI : IsLawfulIntake F O H T X seen N I Room) where
  signer-signed : (a : F.AccountId) → signer F (I.signed a) ≡ some a
  signer-signed a = rw (signer, LI.ensure_signed-signed a) refl

  -- One extrinsic built and applied.
  apply-create_benchmark_extrinsic :
      (client : Client N) (sender : N.Pair) (c : Call) (n : ℕ) (s : T.State)
      → Follows N client sender (I.known s)
      → Fits c
      → Room (suc n) (N.account sender) s
      → (xt : UncheckedExtrinsic N) × (create_benchmark_extrinsic N client sender
            (I.template_call c)
            ((I.known s).nonce (N.account sender))
          ≡ ok xt)
        × (xt.call ≡ I.template_call c)
        × (let t = (X.apply_extrinsic (I.to_extrinsic xt) s).1 in
            Dispatches F O H T X seen
              (I.to_extrinsic xt)
              s
              template_module
              c
              (I.signed (I.of_account (N.account sender)))
            × ((I.known t).nonce (N.account sender) ≡ suc ((I.known s).nonce (N.account sender)))
            × Follows N client sender (I.known t)
            × Room n (N.account sender) t)
  apply-create_benchmark_extrinsic client sender c n s follows fits room =
      let (xt, built, calls, own, untipped, accepts) =
        create_benchmark_extrinsic-Verified N (I.known s) (LI.known-IsLawful s) client sender
          (I.template_call c) ((I.known s).nonce (N.account sender)) follows.same_version
          follows.same_genesis follows.same_block follows.after follows.before refl in
      let (dispatches, next, same, less) =
        LI.accepted n c (N.account sender) xt s calls own untipped follows.non_zero fits accepts
          room in
      (
        xt,
        built,
        calls,
        (
          dispatches,
          next,
          subst (Follows N client sender) (sym same) (Follows-nonce N follows),
          less,
        ),
      )

  -- If the intake keeps its laws beside those of FRAME and Executive, and the other pallets leave
  -- the template pallet alone but for the calls that sudo dispatches, then inside a block of a
  -- chain of the runtime's APIs that has room for them, and that is at most 2047 blocks after the
  -- best block of a client of this runtime, which knows the genesis block and reads number and hash
  -- of one block, the extrinsics that the node makes of calls of the template pallet with u32
  -- arguments, one after the other from the sender's next nonce on, are all built, and when they
  -- are applied in order, the stored value and the events are afterwards what the specification
  -- makes of those before by these calls, each signed by the sender.
  pub api_apply_all-create_all :
      (client : Client N) (sender : N.Pair) (cs : List Call) (calls : Extrinsics F) (s : T.State)
      → Blocks.Chain F L O H isolated S T X seen E inside calls s
      → ((xt : UncheckedExtrinsic N) (c : Call)
          → xt.call ≡ I.template_call c
          → E.IsOrdinary (I.to_extrinsic xt))
      → Follows N client sender (I.known s)
      → All Fits cs
      → Room (length cs) (N.account sender) s
      → (xts : List (UncheckedExtrinsic N)) × (create_all N client sender
            (map I.template_call cs)
            ((I.known s).nonce (N.account sender))
          ≡ ok xts)
        × (view F (seen (api_apply_all T X (map I.to_extrinsic xts) s))
            ≡ run (signed_by I.of_account (N.account sender) cs) (view F (seen s)))
  unfolding run runtime_api create_all
  api_apply_all-create_all client sender [] calls s chain plain follows fits room = ([], refl, refl)
  api_apply_all-create_all client sender (c ∷ cs) calls s chain plain follows fits room =
      let (xt, built, called, (dispatches, next, follows', room')) =
        apply-create_benchmark_extrinsic client sender c (length cs) s follows fits.0 room in
      let (xts, all_built, viewed) =
        api_apply_all-create_all client sender cs _ _
          (apply calls (I.to_extrinsic xt) (plain xt c called) s chain) plain follows' fits.1
          room' in
      (
        xt ∷ xts,
        create_all-cons N client sender _ _ built next all_built,
        viewed
            ∙ ap (run (signed_by I.of_account (N.account sender) cs)) (
                Chain-apply F L O H isolated S T X seen E chain (I.to_extrinsic xt) c _ dispatches
                ∙ ap (λ who. (step c who (view F (seen s))).1)
                    (signer-signed (I.of_account (N.account sender)))),
      )
