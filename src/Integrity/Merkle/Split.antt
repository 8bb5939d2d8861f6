-- ===== src/Integrity/Merkle/Split.antt =====
-- The split point: the largest power of two below `n`.
use native.Mathlib.Nat.{pow-suc}
use open_audit_model.Common.{
  ℕ, zero, suc, ◌+◌, ◌*◌, ◌^◌, ◌≤◌, ◌<◌, ◌≡◌, refl, inl, inr, arith, ltb, ltb→lt, ltb-false→le,
  Bool-cases,
}
use open_audit_model.Integrity.Merkle.{split_loop, split_point}

-- The largest power of two below `n`.
pub record IsSplit (n k : ℕ) : Type 0 where
  pub exponent : ℕ
  pub power : k ≡ 2 ^ exponent
  pub below : k < n
  pub half : n ≤ k * 2

split_loop-IsSplit :
    (f k n e : ℕ) → k ≡ 2 ^ e → 1 ≤ k → k < n → n ≤ k * 2 + f → IsSplit n (split_loop f k n)
unfolding split_loop
split_loop-IsSplit zero k n e p g b h = record {
  exponent = e;
  power = p;
  below = b;
  half = omega arith;
}
split_loop-IsSplit (suc f) k n e p g b h = elim (Bool-cases (ltb (k * 2) n)) [
  | inl more ↦ rw more (
      split_loop-IsSplit f (k * 2) n (suc e) (rw pow-suc (omega (arith, p))) (omega arith)
        (ltb→lt _ _ more) (omega arith))
  | inr done ↦ rw done (record { exponent = e; power = p; below = b; half = ltb-false→le _ _ done })
]

-- `splitPoint(n)` is the largest power of two smaller than `n`, for every `n` of at least 2.
pub split_point-IsSplit : (n : ℕ) → 2 ≤ n → IsSplit n (split_point n)
unfolding split_point
split_point-IsSplit n h = split_loop-IsSplit n 1 n 0 refl (omega arith) (omega arith) (omega arith)

pub split_point_bounds : (n : ℕ) → 2 ≤ n → (1 ≤ split_point n) × (split_point n < n)
split_point_bounds n h =
    let s = split_point-IsSplit n h in let half = s.half in (omega arith, s.below)
