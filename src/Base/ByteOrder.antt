-- ===== src/Base/ByteOrder.antt =====
-- Zephyr's `sys/byteorder.h`, which the sources call: a parameter of the models.
-- A `put` gives the bytes that it stores, a `get` takes the bytes that it reads.
use Prim.Native.Nat.{ℕ, ◌^◌, ◌<◌}
use mathlib.Core.Path.{◌≡◌}
use mathlib.Core.List.{List}
use pcan_alterative.Base.Lists.{length, AreBytes}

pub record ByteOrder : Type 0 where
  pub put_le16 : ℕ → List ℕ
  pub put_le32 : ℕ → List ℕ
  pub put_le64 : ℕ → List ℕ
  pub put_be16 : ℕ → List ℕ
  pub put_be32 : ℕ → List ℕ
  pub get_le16 : List ℕ → ℕ
  pub get_le32 : List ℕ → ℕ
  pub get_le64 : List ℕ → ℕ
  pub get_be16 : List ℕ → ℕ
  pub get_be32 : List ℕ → ℕ

-- What is documented of one pair: `put` stores `w` bytes, and the two are inverse to each other on
-- the numbers of `w` bytes.
pub record AreInverse (w : ℕ) (put : ℕ → List ℕ) (get : List ℕ → ℕ) : Type 0 where
  pub length_put : (v : ℕ) → length (put v) ≡ w
  pub put_bytes : (v : ℕ) → AreBytes (put v)
  pub get_put : (v : ℕ) → v < 256 ^ w → get (put v) ≡ v
  pub get_bound : (bs : List ℕ) → length bs ≡ w → AreBytes bs → get bs < 256 ^ w
  pub put_get : (bs : List ℕ) → length bs ≡ w → AreBytes bs → put (get bs) ≡ bs

pub record ByteOrderLaws (bo : ByteOrder) : Type 0 where
  pub le16 : AreInverse 2 bo.put_le16 bo.get_le16
  pub le32 : AreInverse 4 bo.put_le32 bo.get_le32
  pub le64 : AreInverse 8 bo.put_le64 bo.get_le64
  pub be16 : AreInverse 2 bo.put_be16 bo.get_be16
  pub be32 : AreInverse 4 bo.put_be32 bo.get_be32
