-- ===== src/Prize/Soroban.antt =====
-- The basis points handed to the contract, and the payouts that they stand for.
use native.Mathlib.Nat.{div-lt_iff_lt-mul, lt-div-mul-add, div-mul-le_self, mul-le-mul_left}
use fantasy_xi.Prelude.{
  ℕ, ◌+◌, ◌-◌, ◌*◌, ◌/◌, ◌≤◌, ◌<◌, ◌≡◌, refl, List, [], ◌∷◌, arith, sum, map, any, ap, Bool,
  Bool-cases, inl, inr, false, ltb, ◌==◌, not, ◌||◌,
}
use fantasy_xi.Prelude.Int.{ℤ, pos, negsuc, pos_part}
use fantasy_xi.Prize.{
  ok, validate_splits, allot, basis_points, encode_amounts, is_neg, are_bad_amounts,
  encode_soroban_payout_amounts,
}
use fantasy_xi.Prize.Conservation.{>>=-eq-ok}

pub pos_part-pos : (xs : List ℕ) → map pos_part (map pos xs) ≡ xs
pos_part-pos [] = refl
pos_part-pos (x ∷ xs) = ap (◌∷◌ x) (pos_part-pos xs)

pos-pos_part : (xs : List ℤ) → any is_neg xs ≡ false → map pos (map pos_part xs) ≡ xs
pos-pos_part [] h = refl
pos-pos_part (pos n ∷ xs) h = ap (◌∷◌ (pos n)) (pos-pos_part xs h)
pos-pos_part (negsuc n ∷ xs) h = cc

abbrev is_refused : ℕ → ℕ → ℕ → Bool
is_refused pool remaining a =
    not (pool * basis_points pool a / 10000 == a) || ltb remaining (basis_points pool a)

encode_amounts-inverts :
    (pool remaining a c : ℕ) (cs bs : List ℕ)
    → encode_amounts pool remaining (a ∷ c ∷ cs) ≡ ok bs
    → (rest : List ℕ) × (bs ≡ basis_points pool a ∷ rest)
      × (encode_amounts pool (remaining - basis_points pool a) (c ∷ cs) ≡ ok rest)
      × (pool * basis_points pool a / 10000 ≡ a)
      × (basis_points pool a ≤ remaining)
unfolding encode_amounts
encode_amounts-inverts pool remaining a c cs bs e =
    elim (Bool-cases (is_refused pool remaining a)) [
      | inl bad ↦ let refused = rw (bad, encode_amounts) at e in cc
      | inr good ↦
          let (rest, e', same) = >>=-eq-ok _ _ (rw (good, encode_amounts) at e) in
          (rest, cc, e', ground arith, ground arith)
    ]

encode_amounts-cons :
    (pool remaining a : ℕ) (cs bs : List ℕ)
    → encode_amounts pool remaining (a ∷ cs) ≡ ok bs
    → (b : ℕ) × (rest : List ℕ) × (bs ≡ b ∷ rest)
unfolding encode_amounts
encode_amounts-cons pool remaining a [] bs e = (remaining, [], ground arith)
encode_amounts-cons pool remaining a (c ∷ cs) bs e =
    let (rest, same, _, _, _) = encode_amounts-inverts pool remaining a c cs bs e in (_, rest, same)

-- What the contract pays by the encoded weights are the amounts that were encoded.
allot-encode_amounts :
    (pool remaining given : ℕ) (amounts bs : List ℕ)
    → given + sum amounts ≡ pool
    → encode_amounts pool remaining amounts ≡ ok bs
    → allot pool 10000 given bs ≡ amounts
unfolding encode_amounts allot
allot-encode_amounts pool remaining given [] bs h e = ground arith
allot-encode_amounts pool remaining given (a ∷ []) bs h e = ground arith
allot-encode_amounts pool remaining given (a ∷ c ∷ cs) bs h e =
    let (rest, same, e', exact, fits) = encode_amounts-inverts pool remaining a c cs bs e in
    let (b, bs', cons) = encode_amounts-cons pool _ c cs rest e' in
    let rest_exact : allot pool 10000 (given + pool * basis_points pool a / 10000) rest ≡ c ∷ cs =
      allot-encode_amounts pool (remaining - basis_points pool a)
        (given + pool * basis_points pool a / 10000) (c ∷ cs) rest (omega arith) e' in
    rw (same, cons) (cc)

pub sum-encode_amounts :
    (pool remaining a : ℕ) (cs bs : List ℕ)
    → encode_amounts pool remaining (a ∷ cs) ≡ ok bs
    → sum bs ≡ remaining
unfolding encode_amounts
sum-encode_amounts pool remaining a [] bs e = ground arith
sum-encode_amounts pool remaining a (c ∷ cs) bs e =
    let (rest, same, e', exact, fits) = encode_amounts-inverts pool remaining a c cs bs e in
    rw same (omega (arith, sum-encode_amounts pool (remaining - basis_points pool a) c cs rest e'))

validate_splits-pos :
    (xs bps : List ℕ) → validate_splits (map pos xs) ≡ ok bps → (bps ≡ xs) × (sum bps ≡ 10000)
unfolding validate_splits
validate_splits-pos xs bps e = ground (arith, pos_part-pos xs)

good_amounts :
    (payouts : List ℤ) (pool : ℤ)
    → are_bad_amounts payouts pool ≡ false
    → (sum (map pos_part payouts) ≡ pos_part pool) × (any is_neg payouts ≡ false)
good_amounts payouts pool h = ground arith

-- Encoding is a round trip: the contract's rule for the encoded weights (the floor of each share,
-- the remainder to the last) pays the very amounts that were encoded, none of them negative, and the
-- weights add up to 10000 basis points.
pub encode_soroban-round_trip :
    (payouts : List ℤ) (pool : ℤ) (bps : List ℕ)
    → encode_soroban_payout_amounts payouts pool ≡ ok bps
    → (map pos (allot (pos_part pool) 10000 0 bps) ≡ payouts) × (sum bps ≡ 10000)
unfolding encode_soroban_payout_amounts
encode_soroban-round_trip payouts pool bps e = elim (Bool-cases (are_bad_amounts payouts pool)) [
  | inl bad ↦ let refused = rw (bad, encode_soroban_payout_amounts) at e in cc
  | inr good ↦
      let (whole, no_debt) = good_amounts payouts pool good in
      let (encoded, made, checked) =
        >>=-eq-ok _ _ (rw (good, encode_soroban_payout_amounts) at e) in
      let (same, full) = validate_splits-pos encoded bps checked in
      (
        rw
            (
              same,
              allot-encode_amounts (pos_part pool) 10000 0 (map pos_part payouts) encoded
                  (omega arith) made,
            )
            (pos-pos_part payouts no_debt),
        full,
      )
]

-- The rounded-up weight of a rounded-down share: no more than the weight that the share came from,
-- and exact.
basis_points-share :
    (pool v : ℕ)
    → 0 < pool
    → (basis_points pool (pool * v / 10000) ≤ v)
      × (pool * basis_points pool (pool * v / 10000) / 10000 ≡ pool * v / 10000)
basis_points-share pool v h =
    let amount = pool * v / 10000 in
    let bps = basis_points pool amount in
    let down : amount * 10000 ≤ pool * v = div-mul-le_self (pool * v) 10000 in
    let small : bps < v + 1 = (div-lt_iff_lt-mul h).1 (omega arith) in
    let enough : amount * 10000 ≤ pool * bps =
      omega (arith, lt-div-mul-add {a = amount * 10000 + (pool - 1)} {b = pool} h) in
    let little : pool * bps ≤ pool * v = mul-le-mul_left pool (omega arith) in
    (omega arith, omega arith)

encode_amounts-step :
    (pool remaining a : ℕ) (as' bs : List ℕ) (c : ℕ) (cs : List ℕ)
    → as' ≡ c ∷ cs
    → pool * basis_points pool a / 10000 ≡ a
    → basis_points pool a ≤ remaining
    → encode_amounts pool (remaining - basis_points pool a) as' ≡ ok bs
    → encode_amounts pool remaining (a ∷ as') ≡ ok (basis_points pool a ∷ bs)
unfolding encode_amounts
encode_amounts-step pool remaining a as' bs c cs same exact fits e =
    rw same (ground (arith, e, same))

pub allot-cons :
    (total weight given v : ℕ) (vs : List ℕ)
    → (c : ℕ) × (cs : List ℕ) × (allot total weight given (v ∷ vs) ≡ c ∷ cs)
unfolding allot
allot-cons total weight given v [] = (_, _, refl)
allot-cons total weight given v (w ∷ vs) = (_, _, refl)

-- The amounts that shares of a whole give can always be encoded.
pub encode_amounts-allot :
    (pool remaining given v : ℕ) (vs : List ℕ)
    → 0 < pool
    → sum (v ∷ vs) ≤ remaining
    → (bs : List ℕ) × (encode_amounts pool remaining (allot pool 10000 given (v ∷ vs)) ≡ ok bs)
unfolding encode_amounts allot
encode_amounts-allot pool remaining given v [] h le = (remaining ∷ [], refl)
encode_amounts-allot pool remaining given v (w ∷ vs) h le =
    let amount : ℕ = pool * v / 10000 in
    let (small, exact) = basis_points-share pool v h in
    let (bs, e) =
      encode_amounts-allot pool (remaining - basis_points pool amount) (given + amount) w vs h
        (omega arith) in
    let (c, cs, same) = allot-cons pool 10000 (given + amount) w vs in
    (
      basis_points pool amount ∷ bs,
      encode_amounts-step pool remaining amount _ bs c cs same exact (omega arith) e,
    )
