-- ===== src/Processes/Bits.antt =====
-- The bits of `p_sig`.
use hostable_32v.Prelude.{ℕ, zero, suc, ◌+◌, ◌*◌, ◌/◌, ◌%◌, ◌≡◌, not, ◌&&◌, ◌||◌, arith, ◌==◌}
use hostable_32v.Processes.Signals.{has_bit, set_bit, clear_bit}

pub has_bit-set_bit : (n i j : ℕ) → has_bit (set_bit n i) j ≡ ((i == j) || has_bit n j)
unfolding has_bit set_bit
has_bit-set_bit n zero zero = ground arith
has_bit-set_bit n zero (suc j) =
    let half : (n / 2 * 2 + 1) / 2 ≡ n / 2 = omega arith in rw half (ground arith)
has_bit-set_bit n (suc i) zero = ground arith
has_bit-set_bit n (suc i) (suc j) =
    let half : (set_bit (n / 2) i * 2 + n % 2) / 2 ≡ set_bit (n / 2) i = omega arith in
    rw half (ground (arith, has_bit-set_bit (n / 2) i j))

pub has_bit-clear_bit : (n i j : ℕ) → has_bit (clear_bit n i) j ≡ (not (i == j) && has_bit n j)
unfolding has_bit clear_bit
has_bit-clear_bit n zero zero = ground arith
has_bit-clear_bit n zero (suc j) =
    let half : n / 2 * 2 / 2 ≡ n / 2 = omega arith in rw half (ground arith)
has_bit-clear_bit n (suc i) zero = ground arith
has_bit-clear_bit n (suc i) (suc j) =
    let half : (clear_bit (n / 2) i * 2 + n % 2) / 2 ≡ clear_bit (n / 2) i = omega arith in
    rw half (ground (arith, has_bit-clear_bit (n / 2) i j))
