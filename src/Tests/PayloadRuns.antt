-- ===== src/Tests/PayloadRuns.antt =====
-- The payload of a benchmark extrinsic, as numbers, signed and checked.
use substrate_fabric_integra.Base.{
  ℕ, ◌+◌, ◌==◌, ◌≡◌, refl, Bool, true, false, ◌&&◌, some, List, [], ◌∷◌, ◌++◌, length, arith,
}
use substrate_fabric_integra.Base.Effect.{ok}
use substrate_fabric_integra.Runtime.Params.{version}
use substrate_fabric_integra.Runtime.Extensions.{
  Extension, check_spec_version, check_tx_version, check_genesis, check_era, Known, ExtensionFrame,
  IsLawfulExtensions, signed_extensions, all_additional,
}
use substrate_fabric_integra.Benchmarking.Period.{period, double_until, checked_next_power_of_two}
use substrate_fabric_integra.Benchmarking.Host.{Host, Client, SignedExtra, AdditionalSigned}
use substrate_fabric_integra.Benchmarking.Extrinsic.{
  UncheckedExtrinsic, signed_extrinsic, create_benchmark_extrinsic,
}
use substrate_fabric_integra.Benchmarking.Accepted.{Chain, Verified}
use substrate_fabric_integra.Benchmarking.Payload.{Payload, signature-create_benchmark_extrinsic}
use substrate_fabric_integra.Benchmarking.Replay.{Unforgeable, Verified-create_benchmark_extrinsic}

-- A number and a hash are one byte each.
abbrev extensions : ExtensionFrame ℕ
extensions = record { u32 = λ n. n ∷ []; hash = λ n. n ∷ []; additional_signed = added }
  where
    added : Extension → Known ℕ → List ℕ
    added check_spec_version k = k.runtime_version.spec_version ∷ []
    added check_tx_version k = k.runtime_version.transaction_version ∷ []
    added check_genesis k = k.genesis_hash ∷ []
    added check_era k = k.era_hash ∷ []
    added _ k = []

extensions-IsLawful : IsLawfulExtensions extensions
extensions-IsLawful = record {
  of_non_zero_sender = λ k. refl;
  of_spec_version = λ k. refl;
  of_tx_version = λ k. refl;
  of_genesis = λ k. refl;
  of_era = λ k. refl;
  of_nonce = λ k. refl;
  of_weight = λ k. refl;
  of_transaction_payment = λ k. refl;
}

abbrev body : ℕ → SignedExtra (ℕ × ℕ) → List ℕ
body call extra =
    call ∷ extra.check_era.0 ∷ extra.check_era.1 ∷ extra.check_nonce
    ∷ extra.charge_transaction_payment ∷ []

abbrev host : Host
host = record {
  Hash = ℕ;
  Pair = ℕ;
  AccountId = ℕ;
  Signature = ℕ × List ℕ;
  Bytes = List ℕ;
  Era = ℕ × ℕ;
  RuntimeCall = ℕ;
  account = λ k. k;
  sign = λ k m. (k, m);
  bob = 2;
  mortal = λ p b. (p, b);
  remark = λ xs. length xs;
  transfer_keep_alive = λ dest value. dest + value;
  encode = λ call extra added.
      body call extra
      ++ (added.of_spec_version ∷ added.of_tx_version ∷ added.of_genesis ∷ added.of_era ∷ []);
}

abbrev payload : Payload host extensions
payload = record { body = body; hashed = λ bytes. bytes; encode_lem = λ call extra added. refl }

abbrev same_bytes : List ℕ → List ℕ → Bool
same_bytes [] [] = true
same_bytes (x ∷ xs) (y ∷ ys) = x == y && same_bytes xs ys
same_bytes _ _ = false

same_bytes-true : (xs ys : List ℕ) → same_bytes xs ys ≡ true → ys ≡ xs
same_bytes-true [] [] same = refl
same_bytes-true [] (y ∷ ys) same = ground arith
same_bytes-true (x ∷ xs) [] same = ground arith
same_bytes-true (x ∷ xs) (y ∷ ys) same = ground (arith, same_bytes-true xs ys)

abbrev chain : Chain host
chain = record {
  runtime_version = version;
  genesis_hash = 1000;
  canonical = λ n. 1000 + n;
  hash_at = λ n. some (1000 + n);
  current = 6000;
  birth = λ era now. era.1;
  verify = λ signature m who. signature.0 == who && same_bytes signature.1 m;
  nonce = λ who. who + 7;
  is_zero = λ who. who == 0;
  has_room = λ xt. true;
  can_pay = λ xt. true;
}

encode_injective :
    (call : ℕ) (extra : SignedExtra (ℕ × ℕ)) (a b : AdditionalSigned ℕ)
    → host.encode call extra a ≡ host.encode call extra b
    → a ≡ b
encode_injective call extra a b same =
    let spec : a.of_spec_version ≡ b.of_spec_version = ground arith in
    let tx : a.of_tx_version ≡ b.of_tx_version = ground arith in
    let genesis : a.of_genesis ≡ b.of_genesis = ground arith in
    let era : a.of_era ≡ b.of_era = ground arith in
    λ i. record {
      of_non_zero_sender = tt;
      of_spec_version = spec i;
      of_tx_version = tx i;
      of_genesis = genesis i;
      of_era = era i;
      of_nonce = tt;
      of_weight = tt;
      of_transaction_payment = tt;
    }

chain-Unforgeable : Unforgeable host chain
chain-Unforgeable = record {
  verify_only = λ k m other verified. same_bytes-true m other (ground arith);
  encode_injective = encode_injective;
}

abbrev client : Client host
client = record {
  genesis = ok (some 1000);
  info_for_hash = record { best_hash = 6000; best_number = 5000 };
  info_for_number = record { best_hash = 6000; best_number = 5000 };
}

signature-create_benchmark_extrinsic_example :
    (xt : UncheckedExtrinsic host) × (create_benchmark_extrinsic host client 2 41 9 ≡ ok xt)
    × (xt.signature ≡ (
      2,
      body 41 xt.extra
          ++ all_additional extensions signed_extensions
              (record { runtime_version = version; genesis_hash = 1000; era_hash = 6000 }),
    ))
signature-create_benchmark_extrinsic_example =
    signature-create_benchmark_extrinsic host extensions extensions-IsLawful payload client 2 41 9
      refl

abbrev extrinsic : UncheckedExtrinsic host
extrinsic = signed_extrinsic host 1000 6000 5000 2 41 9

extrinsic-Verified : Verified host chain extrinsic
unfolding period checked_next_power_of_two double_until
extrinsic-Verified = record { nonce = refl; era_hash = 6000; era_known = refl; signed = refl }

Verified-create_benchmark_extrinsic_example :
    (chain.genesis_hash ≡ 1000)
    × (chain.runtime_version.spec_version ≡ 100)
    × (chain.runtime_version.transaction_version ≡ 1)
    × (chain.hash_at (chain.birth extrinsic.extra.check_era chain.current) ≡ some 6000)
    × (chain.nonce (host.account 2) ≡ 9)
unfolding create_benchmark_extrinsic
Verified-create_benchmark_extrinsic_example =
    Verified-create_benchmark_extrinsic host chain chain-Unforgeable client 2 41 9 refl refl
      extrinsic-Verified
