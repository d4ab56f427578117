-- ===== src/Matching/Holdings.antt =====
-- How much of an asset the accounts, the orders and the fees hold together, and how each part changes.
use bitshares_toolkit.Common.{
  ℕ, ◌==◌, ◌≡◌, refl, sym, ap, ◌∙◌, true, Option, none, some, List, [], ◌∷◌, if◌then◌else◌, arith,
  Bool-cases, inl, inr, >>=-eq-some, eq_of_some, fc_assert,
}
use bitshares_toolkit.Common.Int.{
  ℤ, pos, neg_ℤ, eq_of_parts, parts_of_sum, ltb_ℤ, eqb_ℤ, ◌+ℤ◌, int_laws,
}
use bitshares_toolkit.Common.Maps.{Map, find, insert, erase}
use bitshares_toolkit.Fc.{Fc}
use bitshares_toolkit.Asset.{Asset}
use bitshares_toolkit.Transfers.{
  AccountBalance, has_key, find_balance, set_balance, covers, adjust_found, adjust_balance,
}
use bitshares_toolkit.Matching.{LimitOrder, Market}

-- An amount, if it is in the asset `x`
abbrev pub at : ℕ → ℕ → ℤ → ℤ
at x asset v = if x == asset then v else pos 0

abbrev pub in_balances : ℕ → List AccountBalance → ℤ
in_balances x [] = pos 0
in_balances x (b ∷ bs) = at x b.asset_type b.balance +ℤ in_balances x bs

abbrev pub in_order : ℕ → LimitOrder → ℤ
in_order x o = at x o.sell_price.base.asset_id o.for_sale

abbrev pub total : {V : Type 0} → (V → ℤ) → Map V → ℤ
total w [] = pos 0
total w (e ∷ m) = w e.1 +ℤ total w m

abbrev pub in_orders : ℕ → Map LimitOrder → ℤ
in_orders x m = total (in_order x) m

-- All that there is of the asset `x`, but for what other objects hold
abbrev pub holdings : ℕ → Market → ℤ
holdings x m = in_balances x m.balances +ℤ in_orders x m.orders +ℤ m.accumulated_fees x

pub swap : (a b : ℤ) → a +ℤ b ≡ b +ℤ a
swap a b = eq_of_parts (a +ℤ b) (b +ℤ a) (omega int_laws)

take_out : (h s s' o : ℤ) → s' +ℤ o ≡ s → (h +ℤ s') +ℤ o ≡ h +ℤ s
take_out h s s' o e =
    let parts = parts_of_sum s' o e in eq_of_parts ((h +ℤ s') +ℤ o) (h +ℤ s) (omega int_laws)

-- What is left when `s' + o = s + n` and `n` is `o + d`
pub raised : (s s' o n d : ℤ) → s' +ℤ o ≡ s +ℤ n → n ≡ o +ℤ d → s' ≡ s +ℤ d
raised s s' o n d e f =
    let e_parts = parts_of_sum s' o e in
    let f_parts = parts_of_sum o d (sym f) in eq_of_parts s' (s +ℤ d) (omega int_laws)

swap_ends : (a b c : ℤ) → (a +ℤ b) +ℤ c ≡ (c +ℤ b) +ℤ a
swap_ends a b c = eq_of_parts ((a +ℤ b) +ℤ c) ((c +ℤ b) +ℤ a) (omega int_laws)

put_under : (h s s' o n : ℤ) → s' +ℤ o ≡ s +ℤ n → (h +ℤ s') +ℤ o ≡ (h +ℤ s) +ℤ n
put_under h s s' o n e =
    let parts = parts_of_sum s' o e in eq_of_parts ((h +ℤ s') +ℤ o) ((h +ℤ s) +ℤ n) (omega int_laws)

key_asset :
    (owner asset : ℕ) (b : AccountBalance) → has_key owner asset b ≡ true → b.asset_type ≡ asset
key_asset owner asset b h = ground (arith, h)

set_balance-sum :
    (x owner asset : ℕ) (old v : ℤ) (bs : List AccountBalance)
    → find_balance owner asset bs ≡ some old
    → in_balances x (set_balance owner asset v bs) +ℤ at x asset old
      ≡ in_balances x bs +ℤ at x asset v
set_balance-sum x owner asset old v [] h = cc
set_balance-sum x owner asset old v (b ∷ bs) h = elim (Bool-cases (has_key owner asset b)) [
  | inl here ↦
      let found : some b.balance ≡ some old = sym (rw here refl) ∙ h in
      rw (here, key_asset owner asset b here, eq_of_some found)
        (swap_ends (at x asset v) (in_balances x bs) (at x asset old))
  | inr other ↦
      let found : find_balance owner asset bs ≡ some old = sym (rw other refl) ∙ h in
      rw other (
        put_under (at x b.asset_type b.balance) (in_balances x bs)
          (in_balances x (set_balance owner asset v bs)) (at x asset old) (at x asset v)
          (set_balance-sum x owner asset old v bs found))
]

pub at_sum : (x asset : ℕ) (a b : ℤ) → at x asset (a +ℤ b) ≡ at x asset a +ℤ at x asset b
unfolding ◌+ℤ◌
at_sum x asset a b = elim (Bool-cases (x == asset)) [
  | inl here ↦ rw here refl
  | inr other ↦ rw other refl
]

adjust_found-sum :
    (fc : Fc) (x account : ℕ) (delta : Asset) (bs bs' : List AccountBalance) (found : Option ℤ)
    → find_balance account delta.asset_id bs ≡ found
    → adjust_found fc account delta bs found ≡ some bs'
    → in_balances x bs' ≡ in_balances x bs +ℤ at x delta.asset_id delta.amount
adjust_found-sum fc x account delta bs bs' none f h =
    let (p, positive, e) = >>=-eq-some (fc_assert (ltb_ℤ (pos 0) delta.amount)) _ h in
    rw (sym (eq_of_some e)) (swap (at x delta.asset_id delta.amount) (in_balances x bs))
adjust_found-sum fc x account delta bs bs' (some balance) f h =
    let (enough, c, h') = >>=-eq-some (covers fc balance delta) _ h in
    let (p, holds, h'') = >>=-eq-some (fc_assert enough) _ h' in
    let (sum, added, e) = >>=-eq-some (fc.safe_add balance delta.amount) _ h'' in
    let exact = fc.safe_add_exact balance delta.amount sum added in
    rw (sym (eq_of_some e)) (
      raised (in_balances x bs) (in_balances x (set_balance account delta.asset_id sum bs))
        (at x delta.asset_id balance) (at x delta.asset_id sum) (at x delta.asset_id delta.amount)
        (set_balance-sum x account delta.asset_id balance sum bs f)
        (ap (at x delta.asset_id) exact ∙ at_sum x delta.asset_id balance delta.amount))

pub zero_of_test : (d : ℤ) → eqb_ℤ d (pos 0) ≡ true → d ≡ pos 0
zero_of_test d h = ground (arith, eq_of_parts d (pos 0))

pub at_zero : (x asset : ℕ) → at x asset (pos 0) ≡ pos 0
at_zero x asset = ground arith

pub add_zero : (a : ℤ) → a +ℤ pos 0 ≡ a
add_zero a = eq_of_parts (a +ℤ pos 0) a (omega int_laws)

-- A balance that is adjusted changes the sum by exactly the difference.
pub adjust_balance-sum :
    (fc : Fc) (x account : ℕ) (delta : Asset) (bs bs' : List AccountBalance)
    → adjust_balance fc account delta bs ≡ some bs'
    → in_balances x bs' ≡ in_balances x bs +ℤ at x delta.asset_id delta.amount
unfolding adjust_balance
adjust_balance-sum fc x account delta bs bs' h = elim (Bool-cases (eqb_ℤ delta.amount (pos 0))) [
  | inl zero ↦
      let same : some bs ≡ some bs' = sym (rw zero refl) ∙ h in
      rw
        (
          sym (eq_of_some same),
          zero_of_test delta.amount zero,
          at_zero x delta.asset_id,
          add_zero (in_balances x bs),
        )
        refl
  | inr moved ↦
      let found : adjust_found fc account delta bs (find_balance account delta.asset_id bs)
          ≡ some bs' =
        sym (rw moved refl) ∙ h in
      adjust_found-sum fc x account delta bs bs' (find_balance account delta.asset_id bs) refl found
]

pub insert-sum :
    {V : Type 0} (w : V → ℤ) (id : ℕ) (o o' : V) (m : Map V)
    → find id m ≡ some o
    → total w (insert id o' m) +ℤ w o ≡ total w m +ℤ w o'
insert-sum w id o o' [] h = cc
insert-sum w id o o' (e ∷ m) h = elim (Bool-cases (id == e.0)) [
  | inl here ↦
      let found : some e.1 ≡ some o = sym (rw here refl) ∙ h in
      rw (here, eq_of_some found) (swap_ends (w o') (total w m) (w o))
  | inr other ↦
      let found : find id m ≡ some o = sym (rw other refl) ∙ h in
      rw other (
        put_under (w e.1) (total w m) (total w (insert id o' m)) (w o) (w o')
          (insert-sum w id o o' m found))
]

pub erase-sum :
    {V : Type 0} (w : V → ℤ) (id : ℕ) (o : V) (m : Map V)
    → find id m ≡ some o
    → total w (erase id m) +ℤ w o ≡ total w m
erase-sum w id o [] h = cc
erase-sum w id o (e ∷ m) h = elim (Bool-cases (id == e.0)) [
  | inl here ↦
      let found : some e.1 ≡ some o = sym (rw here refl) ∙ h in
      rw (here, eq_of_some found) (swap (total w m) (w o))
  | inr other ↦
      let found : find id m ≡ some o = sym (rw other refl) ∙ h in
      rw other
        (take_out (w e.1) (total w m) (total w (erase id m)) (w o) (erase-sum w id o m found))
]

under : (h s s' o : ℤ) → s' ≡ s +ℤ o → h +ℤ s' ≡ (h +ℤ s) +ℤ o
under h s s' o e = rw e (eq_of_parts (h +ℤ (s +ℤ o)) ((h +ℤ s) +ℤ o) (omega int_laws))

pub insert_new-sum :
    {V : Type 0} (w : V → ℤ) (id : ℕ) (o : V) (m : Map V)
    → find id m ≡ none
    → total w (insert id o m) ≡ total w m +ℤ w o
insert_new-sum w id o [] h = swap (w o) (pos 0)
insert_new-sum w id o (e ∷ m) h = elim (Bool-cases (id == e.0)) [
  | inl here ↦ let found : some e.1 ≡ none = sym (rw here refl) ∙ h in cc
  | inr other ↦
      let absent : find id m ≡ none = sym (rw other refl) ∙ h in
      rw other
        (under (w e.1) (total w m) (total w (insert id o m)) (w o) (insert_new-sum w id o m absent))
]

pub neg_back : (d : ℤ) → neg_ℤ d +ℤ d ≡ pos 0
unfolding ◌+ℤ◌
neg_back d = ground arith
