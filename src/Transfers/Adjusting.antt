-- ===== src/Transfers/Adjusting.antt =====
-- What `adjust_balance` of libraries/chain/database.cpp does to every balance, whenever it returns.
use bitshares_toolkit.Common.{
  ℕ, ◌==◌, ◌≡◌, refl, sym, subst, ◌∙◌, true, ◌&&◌, Option, none, some, List, arith, Bool-cases, inl,
  inr, >>=-eq-some, eq_of_some, fc_assert,
}
use bitshares_toolkit.Common.Int.{ℤ, pos, eq_of_parts, ltb_ℤ, eqb_ℤ, ◌+ℤ◌, int_laws}
use bitshares_toolkit.Fc.{Fc}
use bitshares_toolkit.Asset.{Asset}
use bitshares_toolkit.Transfers.{AccountBalance, find_balance, covers, adjust_found, adjust_balance}
use bitshares_toolkit.Transfers.Balances.{
  amount_of, Sets, amount_of-found, amount_of-missing, set_balance-Sets, new-Sets,
}

zero_added : (a b : ℤ) → a ≡ pos 0 → b ≡ a +ℤ b
zero_added a b e = rw e (eq_of_parts b (pos 0 +ℤ b) (omega int_laws))

nothing_added : (a b : ℤ) → eqb_ℤ b (pos 0) ≡ true → a ≡ a +ℤ b
nothing_added a b h =
    rw (eq_of_parts b (pos 0) (ground (arith, h))) (eq_of_parts a (a +ℤ pos 0) (omega int_laws))

-- The same value for one key changes nothing.
kept-Sets :
    (bs : List AccountBalance) (owner asset : ℕ) (v : ℤ)
    → amount_of bs owner asset ≡ v
    → Sets bs bs owner asset v
kept-Sets bs owner asset v h o x = elim (Bool-cases ((o == owner) && (x == asset))) [
  | inl here ↦
      let (e, k) : (o ≡ owner) × (x ≡ asset) = ground (arith, here) in rw here (rw (e, k) h)
  | inr other ↦ rw other refl
]

adjust_found-Sets :
    (fc : Fc) (owner : ℕ) (delta : Asset) (bs bs' : List AccountBalance) (found : Option ℤ)
    → find_balance owner delta.asset_id bs ≡ found
    → adjust_found fc owner delta bs found ≡ some bs'
    → Sets bs bs' owner delta.asset_id (amount_of bs owner delta.asset_id +ℤ delta.amount)
adjust_found-Sets fc owner delta bs bs' none f h =
    let (_, _, e) = >>=-eq-some (fc_assert (ltb_ℤ (pos 0) delta.amount)) _ h in
    let zero = amount_of-missing bs owner delta.asset_id f in
    rw (sym (eq_of_some e), sym (zero_added _ delta.amount zero))
      (new-Sets bs owner delta.asset_id delta.amount)
adjust_found-Sets fc owner delta bs bs' (some balance) f h =
    let (enough, _, h1) = >>=-eq-some (covers fc balance delta) _ h in
    let (_, _, h2) = >>=-eq-some (fc_assert enough) _ h1 in
    let (sum, added, e) = >>=-eq-some (fc.safe_add balance delta.amount) _ h2 in
    rw
      (
        sym (eq_of_some e),
        amount_of-found bs owner delta.asset_id balance f,
        sym (fc.safe_add_exact balance delta.amount sum added),
      )
      (set_balance-Sets bs owner delta.asset_id balance sum f)

-- An adjustment that returns adds the amount to the one balance, and leaves every other as it was.
pub adjust_balance-Sets :
    (fc : Fc) (owner : ℕ) (delta : Asset) (bs bs' : List AccountBalance)
    → adjust_balance fc owner delta bs ≡ some bs'
    → Sets bs bs' owner delta.asset_id (amount_of bs owner delta.asset_id +ℤ delta.amount)
unfolding adjust_balance
adjust_balance-Sets fc owner delta bs bs' h = elim (Bool-cases (eqb_ℤ delta.amount (pos 0))) [
  | inl zero ↦
      let same : some bs ≡ some bs' = sym (rw zero refl) ∙ h in
      subst
        (λ cs. Sets bs cs owner delta.asset_id (amount_of bs owner delta.asset_id +ℤ delta.amount))
        (eq_of_some same) (kept-Sets bs owner delta.asset_id _ (nothing_added _ delta.amount zero))
  | inr moved ↦
      let found : adjust_found fc owner delta bs (find_balance owner delta.asset_id bs) ≡ some bs' =
        sym (rw moved refl) ∙ h in
      adjust_found-Sets fc owner delta bs bs' (find_balance owner delta.asset_id bs) refl found
]
