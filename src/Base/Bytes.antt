-- ===== src/Base/Bytes.antt =====
-- A value as a sequence of bytes, the highest first: the order of both programs' files.
use Prim.Native.Nat.{ℕ, zero, suc, ◌/◌, ◌%◌, ◌^◌}
use mathlib.Core.List.{List, [], ◌∷◌}

unfoldable pub value_bytes : ℕ → ℕ → List ℕ
value_bytes zero v = []
value_bytes (suc n) v = v / 256 ^ n % 256 ∷ value_bytes n v
