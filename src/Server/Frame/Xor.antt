-- ===== src/Server/Frame/Xor.antt =====
-- The bits of a byte.
use Prim.Native.Nat.{bit_xor}
use gamchi.Prelude.{ℕ, zero, suc, ◌<◌, ◌≡◌, refl, Bool, true, ◌&&◌, arith, nat_eq, nat_eq_iff}

-- Every number below a bound passes.
unfoldable pub all_below : ℕ → (ℕ → Bool) → Bool
all_below zero holds = true
all_below (suc bound) holds = all_below bound holds && holds bound

pub all_below-elim :
    (bound : ℕ) (holds : ℕ → Bool) (b : ℕ)
    → all_below bound holds ≡ true
    → b < bound
    → holds b ≡ true
unfolding all_below
all_below-elim zero holds b passed less = absurd (omega arith)
all_below-elim (suc bound) holds b passed less = ground (arith, all_below-elim bound holds b)

abbrev xor_cancels : ℕ → ℕ → Bool
xor_cancels a b = nat_eq (bit_xor (bit_xor a b) b) a

xor_table : all_below 256 (λ a. all_below 256 (xor_cancels a)) ≡ true
unfolding all_below
xor_table = refl

-- Masking twice with the same byte gives the byte back.
pub bit_xor-bit_xor : (a b : ℕ) → a < 256 → b < 256 → bit_xor (bit_xor a b) b ≡ a
bit_xor-bit_xor a b ha hb = (nat_eq_iff _ a).0 (
    all_below-elim 256 (xor_cancels a) b
      (all_below-elim 256 (λ x. all_below 256 (xor_cancels x)) a xor_table ha) hb)
