-- ===== src/Prelude/Division.antt =====
-- Rounded quotients: the floors of parts never exceed the floor of the whole.
use Prim.Native.Nat.{ℕ, ◌+◌, ◌/◌, ◌≤◌, ◌<◌}
use native.Mathlib.Omega.{arith}
use native.Mathlib.Nat.{div-mul-le_self, lt-div-mul-add, le-div_iff_mul-le, div-lt_iff_lt-mul}

-- floor (x / k) + floor (y / k) never exceeds floor ((x + y) / k).
pub div-add-le : (x y k : ℕ) → 0 < k → x / k + y / k ≤ (x + y) / k
div-add-le x y k h =
    (le-div_iff_mul-le h).1 (omega (arith, div-mul-le_self x k, div-mul-le_self y k))

-- And falls short of it by one at most.
pub div-add-lt : (x y k : ℕ) → 0 < k → (x + y) / k ≤ x / k + y / k + 1
div-add-lt x y k h =
    let bound : (x + y) / k < x / k + y / k + 2 =
      (div-lt_iff_lt-mul h).1
        (omega (arith, lt-div-mul-add {a = x} {b = k} h, lt-div-mul-add {a = y} {b = k} h)) in
    omega arith
