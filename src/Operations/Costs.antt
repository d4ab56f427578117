-- ===== src/Operations/Costs.antt =====
-- What creating an account or an asset costs, by the length of its name.
use native.Mathlib.Nat.{
  pow-succ', mul_assoc, mul-one, mul-le-mul_left, one-le-pow, pow-le-pow_right,
}
use bitshares_toolkit.Common.{
  ℕ, zero, suc, ◌+◌, ◌-◌, ◌*◌, ◌%◌, ◌^◌, ◌≤◌, ◌<◌, ◌≡◌, refl, sym, ap, ◌∙◌, inl, inr, true, false,
  some, List, ltb, leb, if◌then◌else◌, length, arith, Bool-cases, le→leb, lt→ltb, leb→le, leb→gt,
}
use bitshares_toolkit.Common.Int.{pos}
use bitshares_toolkit.Fc.{Fc}
use bitshares_toolkit.Names.{is_cheap_name, is_valid_name, is_valid_symbol}
use bitshares_toolkit.Names.Labels.{is_valid_name-IsName}
use bitshares_toolkit.Names.Symbols.{is_valid_symbol-IsSymbol}
use bitshares_toolkit.Operations.{FeeSchedule, fee_at}
use bitshares_toolkit.Operations.Accounts.{AccountCreateOperation}
use bitshares_toolkit.Operations.Assets.{AssetCreateOperation}
use bitshares_toolkit.Operations.Fees.{
  account_create_fee, asset_create_fee, raise_fee, asset_create_fee_type,
}

-- The fee type of a name: `account_create_fee_type` of a cheap or a long one, and one of the seven
-- from `account_len8_fee_type` to `account_premium_fee_type` of a name of 8 to 2 characters.
abbrev pub name_fee_type : List ℕ → ℕ
name_fee_type s = if is_cheap_name s then 1 else if leb (length s) 8 then 10 - length s else 1

-- Of a valid name the fee is computed, and is the fee of the name's length. A fee table gives a
-- number to each type.
pub account_create_fee_lem :
    (k : FeeSchedule) (op : AccountCreateOperation)
    → is_valid_name op.name ≡ true
    → account_create_fee k op ≡ some (pos (k (name_fee_type op.name)))
unfolding account_create_fee fee_at
account_create_fee_lem k op h =
    let named = (is_valid_name-IsName op.name).0 h in
    let same : length op.name % 2 ^ 32 ≡ length op.name = omega (arith, named.short) in
    let enough = le→leb 2 (length op.name) named.long in
    let known : ltb (10 - length op.name) 38 ≡ true = lt→ltb _ _ (omega arith) in
    elim (Bool-cases (is_cheap_name op.name)) [
      | inl cheap ↦ rw cheap refl
      | inr dear ↦ elim (Bool-cases (leb (length op.name) 8)) [
        | inl small ↦ rw (dear, same, enough, small, known) refl
        | inr long ↦ rw (dear, same, enough, long) refl
      ]
    ]

raise_fee_lem :
    (fc : Fc) (d rounds s fee : ℕ)
    → s + d ≡ 7
    → d ≤ rounds
    → fee * 30 ^ d < 2 ^ 63
    → raise_fee fc rounds s (pos fee) ≡ some (pos (fee * 30 ^ d))
unfolding raise_fee
raise_fee_lem fc zero zero s fee h k b = ap (λ n. some (pos n)) (sym (mul-one fee))
raise_fee_lem fc zero (suc rounds) s fee h k b =
    let done : leb s 6 ≡ false = ground (arith, h) in
    rw done (ap (λ n. some (pos n)) (sym (mul-one fee)))
raise_fee_lem fc (suc d) zero s fee h k b = absurd (omega (arith, k))
raise_fee_lem fc (suc d) (suc rounds) s fee h k b =
    let more = le→leb s 6 (omega (arith, h)) in
    let e : fee * 30 ^ suc d ≡ fee * 30 * 30 ^ d =
      ap (λ n. fee * n) (pow-succ' 30 d) ∙ sym (mul_assoc fee 30 (30 ^ d)) in
    let grows = mul-le-mul_left (fee * 30) (one-le-pow d 30 (omega arith)) in
    let fits = fc.safe_mul_fits fee 30 (omega (arith, grows, e, b)) in
    let rest =
      raise_fee_lem fc d rounds (s + 1) (fee * 30) (omega (arith, h)) (omega (arith, k))
        (omega (arith, e, b)) in
    rw (more, fits) (rest ∙ ap (λ n. some (pos n)) (sym e))

raise_fee-long :
    (fc : Fc) (rounds s fee : ℕ) → 7 ≤ s → raise_fee fc rounds s (pos fee) ≡ some (pos fee)
unfolding raise_fee
raise_fee-long fc zero s fee h = refl
raise_fee-long fc (suc rounds) s fee h =
    let done : leb s 6 ≡ false = ground (arith, h) in rw done refl

raise_bound : (base d : ℕ) → base < 2 ^ 32 → d ≤ 4 → base * 30 ^ d < 2 ^ 63
raise_bound base d u h =
    let powers : 30 ^ d ≤ 810000 = pow-le-pow_right {n = 30} (omega arith) h in
    let grows = mul-le-mul_left base powers in omega (arith, grows, u)

-- Of a valid symbol the fee is computed without overflow, whatever the `uint32_t` base fee: each
-- character fewer than seven multiplies it by thirty, in at most seven rounds.
pub asset_create_fee_lem :
    (fc : Fc) (k : FeeSchedule) (op : AssetCreateOperation)
    → is_valid_symbol op.symbol ≡ true
    → k asset_create_fee_type < 2 ^ 32
    → asset_create_fee fc k op ≡ some (pos (k asset_create_fee_type * 30 ^ (7 - length op.symbol)))
unfolding asset_create_fee fee_at
asset_create_fee_lem fc k op h u =
    let valid = (is_valid_symbol-IsSymbol op.symbol).0 h in
    let n = length op.symbol in
    let base = k asset_create_fee_type in
    let same : n % 2 ^ 32 ≡ n = omega (arith, valid.short) in
    elim (Bool-cases (leb n 6)) [
      | inl small ↦
          let bound = raise_bound base (7 - n) u (omega (arith, valid.long)) in
          rw same (
            raise_fee_lem fc (7 - n) 7 n base (omega (arith, leb→le n 6 small)) (omega arith) bound)
      | inr long ↦
          let none_left : 7 - n ≡ 0 = omega (arith, leb→gt n 6 long) in
          rw (same, none_left)
            (raise_fee-long fc 7 n base (omega (arith, leb→gt n 6 long))
              ∙ ap (λ m. some (pos m)) (sym (mul-one base)))
    ]
