-- ===== src/Tests/ClientRuns.antt =====
-- The benchmark extrinsics, their mortality period and the RPC module, run.
use substrate_fabric_integra.Base.{
  ℕ, ◌^◌, ◌<◌, ◌≤◌, ◌+◌, ◌*◌, ◌==◌, ltb, if◌then◌else◌, ◌≡◌, refl, ◌&&◌, some, length, arith, true,
}
use substrate_fabric_integra.Base.Effect.{ok}
use substrate_fabric_integra.Runtime.Params.{version}
use substrate_fabric_integra.Benchmarking.Period.{period, period_bounds}
use substrate_fabric_integra.Benchmarking.Host.{Host, Client}
use substrate_fabric_integra.Benchmarking.Extrinsic.{
  UncheckedExtrinsic, create_benchmark_extrinsic, remark_builder, transfer_keep_alive_builder,
}
use substrate_fabric_integra.Benchmarking.Builders.{builders-Accepts}
use substrate_fabric_integra.Benchmarking.Accepted.{
  Chain, IsLawful, Accepts, create_benchmark_extrinsic-Accepts,
}

-- Keys are numbers, a signature is the key with what it signed, and an era is its period and its
-- first block.
abbrev pub toy_host : Host
toy_host = record {
  Hash = ℕ;
  Pair = ℕ;
  AccountId = ℕ;
  Signature = ℕ × ℕ;
  Bytes = ℕ;
  Era = ℕ × ℕ;
  RuntimeCall = ℕ;
  account = λ k. k;
  sign = λ k m. (k, m);
  bob = 2;
  mortal = λ p b. (p, b);
  remark = λ xs. length xs;
  transfer_keep_alive = λ dest value. dest + value;
  encode =
      λ call extra added. call + extra.check_nonce * 3 + added.of_era * 5 + added.of_genesis * 7;
}

abbrev pub toy_chain : Chain toy_host
toy_chain = record {
  runtime_version = version;
  genesis_hash = 1000;
  canonical = λ n. 1000 + n;
  hash_at = λ n. some (1000 + n);
  current = 6000;
  birth = λ era now. if ltb now (era.1 + era.0) then era.1 else now;
  verify = λ signature m who. (signature.0 == who) && (signature.1 == m);
  nonce = λ who. who + 7;
  is_zero = λ who. who == 0;
  has_room = λ xt. true;
  can_pay = λ xt. true;
}

pub toy_chain-IsLawful : IsLawful toy_host toy_chain
toy_chain-IsLawful = record {
  verify-sign = λ k m. ground arith;
  birth-mortal = λ p b c j e low high after before. ground arith;
  kept = λ n before fits. refl;
}

abbrev pub toy_client : Client toy_host
toy_client = record {
  genesis = ok (some 1000);
  info_for_hash = record { best_hash = 6000; best_number = 5000 };
  info_for_number = record { best_hash = 6000; best_number = 5000 };
}

create_benchmark_extrinsic-Accepts_example :
    (xt : UncheckedExtrinsic toy_host) × (create_benchmark_extrinsic toy_host toy_client 2 41 9
      ≡ ok xt)
    × (xt.call ≡ 41)
    × (xt.address ≡ 2)
    × (xt.extra.charge_transaction_payment ≡ 0)
    × Accepts toy_host toy_chain xt
create_benchmark_extrinsic-Accepts_example =
    create_benchmark_extrinsic-Accepts toy_host toy_chain toy_chain-IsLawful toy_client 2 41 9 refl
      refl refl (omega arith) (omega arith) refl refl (λ xt called own untipped. (refl, refl))

builders-Accepts_example :
    (remark transfer : UncheckedExtrinsic toy_host) × ((remark_builder toy_host toy_client).build 9
      ≡ ok remark)
    × ((transfer_keep_alive_builder toy_host toy_client 1 500).build 9 ≡ ok transfer)
    × (remark.call ≡ 0)
    × (transfer.call ≡ 501)
    × Accepts toy_host toy_chain remark
    × Accepts toy_host toy_chain transfer
builders-Accepts_example =
    builders-Accepts toy_host toy_chain toy_chain-IsLawful toy_client 1 500 9 refl refl refl
      (omega arith) (omega arith) refl refl (λ xt called own untipped. (refl, refl))

period_bounds_example :
    (j : ℕ) × (period 2400 ≡ 2 ^ j) × (period 2400 < 2400) × (2400 ≤ period 2400 * 2)
period_bounds_example = period_bounds 2400 (omega arith) (omega arith)
