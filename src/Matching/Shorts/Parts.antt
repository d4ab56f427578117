-- ===== src/Matching/Shorts/Parts.antt =====
-- What the parts of filling a short order do to all of an asset and to its supply.
use bitshares_toolkit.Common.{
  ℕ, ◌≡◌, refl, sym, ap, ◌∙◌, Bool, true, false, some, ◌>>=◌, >>=-eq-some, eq_of_some, inl, inr,
  Bool-cases,
}
use bitshares_toolkit.Common.Int.{ℤ, pos, eq_of_parts, eqb_ℤ, ◌+ℤ◌, int_laws}
use bitshares_toolkit.Common.Maps.{Map, find, insert, erase, IsMap}
use bitshares_toolkit.Fc.{Fc}
use bitshares_toolkit.Asset.{Asset, asset_eq, exchange}
use bitshares_toolkit.Transfers.{adjust_balance}
use bitshares_toolkit.Matching.{Market}
use bitshares_toolkit.Matching.Holdings.{
  at, total, in_balances, in_orders, holdings, adjust_balance-sum, insert-sum, erase-sum, at_sum,
}
use bitshares_toolkit.Matching.Payments.{Pays, put_sum, add_first}
use bitshares_toolkit.Matching.Fills.{given_up, sold, found_again}
use bitshares_toolkit.Matching.Debts.{CallOrder}
use bitshares_toolkit.Matching.Debts.Collateral.{in_call}
use bitshares_toolkit.Matching.Debts.Updates.{find_call, count_core}
use bitshares_toolkit.Matching.Debts.UpdateSums.{count_core-holdings}
use bitshares_toolkit.Matching.Debts.Evaluated.{find_call-found}
use bitshares_toolkit.Matching.Shorts.{
  ShortOrder, ShortMarket, short_collateral, short_for_sale, lend, sweep_short, close_short, issue,
}
use bitshares_toolkit.Matching.Shorts.Lending.{lend-sum}

abbrev pub in_short : ℕ → ShortOrder → ℤ
in_short x o = at x o.sell_price.quote.asset_id o.available_collateral

-- What the market and the short orders hold
abbrev pub with_shorts : ℕ → Market → Map ShortOrder → ℤ
with_shorts x m shorts = holdings x m +ℤ total (in_short x) shorts

refunded : (h s s0 a : ℤ) → s +ℤ a ≡ s0 → (h +ℤ a) +ℤ s ≡ h +ℤ s0
refunded h s s0 a e = rw (sym e) (eq_of_parts ((h +ℤ a) +ℤ s) (h +ℤ (s +ℤ a)) (omega int_laws))

lowered : (h s s0 a : ℤ) → s +ℤ a ≡ s0 → (h +ℤ s) +ℤ a ≡ h +ℤ s0
lowered h s s0 a e = rw (sym e) (eq_of_parts ((h +ℤ s) +ℤ a) (h +ℤ (s +ℤ a)) (omega int_laws))

-- A refund moves the collateral to the balance of the seller.
sweep_short-sum :
    (fc : Fc) (x id : ℕ) (o : ShortOrder) (m : Market) (shorts : Map ShortOrder)
    (r : Market × Map ShortOrder × Bool)
    → find id shorts ≡ some o
    → sweep_short fc id o m shorts ≡ some r
    → (with_shorts x r.0 r.1 ≡ with_shorts x m shorts) × Pays m r.0
unfolding sweep_short
sweep_short-sum fc x id o m shorts r found h =
    let (worth, _, h1) = >>=-eq-some (exchange fc (short_for_sale o) o.sell_price) _ h in
    elim (Bool-cases (eqb_ℤ worth.amount (pos 0))) [
      | inl worthless ↦
          let step : (adjust_balance fc o.seller (short_collateral o) m.balances >>= λ balances.
          count_core fc.safe_sub o.seller (short_collateral o) (record m { balances = balances })
          >>= λ m'. some (m', erase id shorts, true))
              ≡ some r =
            sym (rw worthless refl) ∙ h1 in
          let (balances, adjusted, h2) =
            >>=-eq-some (adjust_balance fc o.seller (short_collateral o) m.balances) _ step in
          let m1 : Market = record m { balances = balances } in
          let (m', counted, e) =
            >>=-eq-some (count_core fc.safe_sub o.seller (short_collateral o) m1) _ h2 in
          let (same, (orders_same, assets_same)) =
            count_core-holdings x o.seller fc.safe_sub (short_collateral o) m1 m' counted in
          let credited : holdings x m1 ≡ holdings x m +ℤ in_short x o =
            add_first (in_balances x m.balances) (in_balances x balances) (in_orders x m.orders)
              (m.accumulated_fees x) (in_short x o)
              (adjust_balance-sum fc x o.seller (short_collateral o) m.balances balances
                adjusted) in
          rw (sym (eq_of_some e)) (
            ap (λ v. v +ℤ total (in_short x) (erase id shorts)) (same ∙ credited)
                ∙ refunded (holdings x m) (total (in_short x) (erase id shorts))
                    (total (in_short x) shorts) (in_short x o)
                    (erase-sum (in_short x) id o shorts found),
            (orders_same, assets_same),
          )
      | inr worth_it ↦
          let same : some (m, shorts, false) ≡ some r = sym (rw worth_it refl) ∙ h1 in
          rw (sym (eq_of_some same)) (refl, (refl, refl))
    ]

-- The short order gives its part of the collateral away.
pub close_short-sum :
    (fc : Fc) (x id : ℕ) (o : ShortOrder) (pays collateral : Asset) (m : Market)
    (shorts : Map ShortOrder) (r : Market × Map ShortOrder × Bool)
    → find id shorts ≡ some o
    → collateral.asset_id ≡ o.sell_price.quote.asset_id
    → (asset_eq pays (short_for_sale o) ≡ true → collateral.amount ≡ o.available_collateral)
    → close_short fc id o pays collateral m shorts ≡ some r
    → (with_shorts x r.0 r.1 +ℤ at x collateral.asset_id collateral.amount ≡ with_shorts x m shorts)
      × Pays m r.0
unfolding close_short
close_short-sum fc x id o pays collateral m shorts r found ids whole h =
    elim (Bool-cases (asset_eq pays (short_for_sale o))) [
      | inl filled ↦
          let same : some (m, erase id shorts, true) ≡ some r = sym (rw filled refl) ∙ h in
          let given : at x collateral.asset_id collateral.amount ≡ in_short x o =
            ap (λ i. at x i collateral.amount) ids
            ∙ ap (at x o.sell_price.quote.asset_id) (whole filled) in
          rw (sym (eq_of_some same)) (
            ap (λ v. with_shorts x m (erase id shorts) +ℤ v) given
                ∙ lowered (holdings x m) (total (in_short x) (erase id shorts))
                    (total (in_short x) shorts) (in_short x o)
                    (erase-sum (in_short x) id o shorts found),
            (refl, refl),
          )
      | inr part ↦
          let step : (fc.safe_sub o.for_sale pays.amount >>= λ for_sale.
          fc.safe_sub o.available_collateral collateral.amount >>= λ available.
          sweep_short fc id (record o { for_sale = for_sale; available_collateral = available }) m
            (insert id (record o { for_sale = for_sale; available_collateral = available }) shorts))
              ≡ some r =
            sym (rw part refl) ∙ h in
          let (for_sale, _, h1) = >>=-eq-some (fc.safe_sub o.for_sale pays.amount) _ step in
          let (available, exact, swept) =
            >>=-eq-some (fc.safe_sub o.available_collateral collateral.amount) _ h1 in
          let o' : ShortOrder = record o {
            for_sale = for_sale;
            available_collateral = available;
          } in
          let (same, pays_same) =
            sweep_short-sum fc x id o' m (insert id o' shorts) r (found_again id o' shorts) swept in
          let less : in_short x o' +ℤ at x collateral.asset_id collateral.amount ≡ in_short x o =
            ap (λ i. in_short x o' +ℤ at x i collateral.amount) ids
            ∙ sold x o.sell_price.quote.asset_id o.available_collateral collateral.amount available
                (fc.safe_sub_exact _ _ _ exact) in
          let reduced =
            given_up (total (in_short x) (insert id o' shorts)) (total (in_short x) shorts)
              (in_short x o) (in_short x o') (at x collateral.asset_id collateral.amount)
              (insert-sum (in_short x) id o o' shorts found) less in
          (
            ap (λ v. v +ℤ at x collateral.asset_id collateral.amount) same
                ∙ lowered (holdings x m) (total (in_short x) (insert id o' shorts))
                    (total (in_short x) shorts) (at x collateral.asset_id collateral.amount)
                    reduced,
            pays_same,
          )
    ]

-- The supply grows by the debt, and the collateral by the parts of the seller and of the buyer.
pub issue-sum :
    (fc : Fc) (x : ℕ) (o : ShortOrder) (pays receives seller_part buyer_part : Asset)
    (w : ShortMarket) (m : Market) (r : Market × (ℕ → ℤ) × Map CallOrder × ℕ)
    → IsMap w.debts.calls
    → ((id : ℕ) (call : CallOrder)
        → find_call o.seller pays.asset_id w.debts.calls ≡ some (id, call)
        → call.call_price.base.asset_id ≡ seller_part.asset_id)
    → issue fc o pays receives seller_part buyer_part w m ≡ some r
    → (holdings x r.0 ≡ holdings x m)
      × Pays m r.0
      × (r.1 x ≡ w.debts.current_supply x +ℤ at x pays.asset_id pays.amount)
      × (total (in_call x) r.2
          ≡ total (in_call x) w.debts.calls
            +ℤ (at x seller_part.asset_id seller_part.amount
                +ℤ at x seller_part.asset_id buyer_part.amount))
unfolding issue
issue-sum fc x o pays receives seller_part buyer_part w m r distinct same_asset h =
    let buyer : Asset = record buyer_part { asset_id = receives.asset_id } in
    let (m', counted, h1) = >>=-eq-some (count_core fc.safe_add o.seller buyer m) _ h in
    let (supply, more, h2) =
      >>=-eq-some (fc.safe_add (w.debts.current_supply pays.asset_id) pays.amount) _ h1 in
    let (amount, exact, h3) = >>=-eq-some (fc.safe_add seller_part.amount buyer_part.amount) _ h2 in
    let known = find_call o.seller pays.asset_id w.debts.calls in
    let (lent, borrowed, e) =
      >>=-eq-some (lend fc o pays seller_part.asset_id amount w.next_call_id w.debts.calls known) _
        h3 in
    let (same, pays_same) = count_core-holdings x o.seller fc.safe_add buyer m m' counted in
    rw (sym (eq_of_some e)) (
      same,
      pays_same,
      put_sum x pays.asset_id w.debts.current_supply supply pays.amount
          (fc.safe_add_exact _ _ _ more),
      lend-sum fc x o pays seller_part.asset_id amount w.next_call_id w.debts.calls known lent
            (λ id call k. (
              find_call-found o.seller pays.asset_id id call w.debts.calls distinct k,
              same_asset id call k,
            ))
            borrowed
          ∙ ap (λ v. total (in_call x) w.debts.calls +ℤ v)
              (ap (at x seller_part.asset_id) (fc.safe_add_exact _ _ _ exact)
                ∙ at_sum x seller_part.asset_id seller_part.amount buyer_part.amount),
    )
