-- ===== src/Base/Keys.antt =====
-- The keys of a `std::map`: a type with an equality test and an order.
use Prim.Native.Nat.{ℕ}
use mathlib.Core.Path.{◌≡◌}
use mathlib.Core.Logic.{◌↔◌}
use mathlib.Core.Bool.{Bool, true, false}
use native.Mathlib.Omega.{arith}
use sicxe.Base.Tests.{◌==◌, ==_iff, ltb}
use sicxe.Base.Text.{
  Bytes, same_bytes, bytes_before, same_bytes_iff, bytes_before_irrefl, bytes_before_trans,
  bytes_before_total,
}

pub record Key {ℓ} (K : Type ℓ) : Type ℓ where
  pub same : K → K → Bool
  pub before : K → K → Bool
  pub same_iff : (a b : K) → (same a b ≡ true) ↔ (a ≡ b)
  pub before_irrefl : (a : K) → before a a ≡ false
  pub before_trans : (a b c : K) → before a b ≡ true → before b c ≡ true → before a c ≡ true
  pub before_total : (a b : K) → same a b ≡ false → before a b ≡ false → before b a ≡ true

pub same_flip {ℓ} :
    {K : Type ℓ} ⦃k : Key K⦄ (key other : K) → k.same other key ≡ false → k.same key other ≡ false
same_flip ⦃k⦄ key other h = ground (arith, k.same_iff key other, k.same_iff other key)

pub ltb_irrefl : (a : ℕ) → ltb a a ≡ false
ltb_irrefl a = ground arith

pub ltb_trans : (a b c : ℕ) → ltb a b ≡ true → ltb b c ≡ true → ltb a c ≡ true
ltb_trans a b c p q = ground arith

pub ltb_total : (a b : ℕ) → (a == b) ≡ false → ltb a b ≡ false → ltb b a ≡ true
ltb_total a b p q = ground arith

instance abbrev pub number_key : Key ℕ
number_key = record {
  same = ◌==◌;
  before = ltb;
  same_iff = ==_iff;
  before_irrefl = ltb_irrefl;
  before_trans = ltb_trans;
  before_total = ltb_total;
}

instance abbrev pub bytes_key : Key Bytes
bytes_key = record {
  same = same_bytes;
  before = bytes_before;
  same_iff = same_bytes_iff;
  before_irrefl = bytes_before_irrefl;
  before_trans = bytes_before_trans;
  before_total = bytes_before_total;
}
