-- ===== src/Base/Codec.antt =====
-- `Encode` and `Decode` of parity_scale_codec, which the code uses for calls and for what is stored.
use mathlib.Core.Path.{◌≡◌}
use mathlib.Core.Option.{Option, some}
use mathlib.Core.List.{List, ◌++◌}
use Prim.Native.Nat.{ℕ}

-- Decoding gives the rest of the bytes too.
pub record Codec (A : Type 0) : Type 0 where
  pub encode : A → List ℕ
  pub decode : List ℕ → Option (A × List ℕ)

-- The values of a certain kind are read back, whatever follows them.
pub record IsCodec {A : Type 0} (c : Codec A) (Valid : A → Type 0) : Type 0 where
  pub decode-encode :
      (a : A) (rest : List ℕ) → Valid a → c.decode (c.encode a ++ rest) ≡ some (a, rest)
