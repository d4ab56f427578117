-- ===== src/LimitOrders/Steps.antt =====
-- One match in the loop of a new order.
use bitshares_toolkit.Common.{
  ℕ, ◌+◌, ◌*◌, ◌==◌, ◌≡◌, ◌≢◌, refl, sym, ap, subst, ◌∙◌, Bool, true, false, not, Option, some,
  none, arith,
}
use bitshares_toolkit.Common.Maps.{Map, IsMap, find, contains}
use bitshares_toolkit.Fc.{Fc}
use bitshares_toolkit.Operations.Options.{AssetOptions, has_any, market_issued}
use bitshares_toolkit.Matching.{LimitOrder, Market, bit, match_orders}
use bitshares_toolkit.Matching.Holdings.{holdings}
use bitshares_toolkit.Matching.Payments.{HasValidOptions}
use bitshares_toolkit.Matching.Fills.{fill_order-sum}
use bitshares_toolkit.Matching.Conservation.{match_fills, match_orders_conserves}
use bitshares_toolkit.Matching.Counts.{Counts, match_orders-Counts}
use bitshares_toolkit.Matching.Results.{fill_order-Tells, match_orders_result}
use bitshares_toolkit.Matching.Remainders.{absurd_test, fill_order-KeepsPrice}

-- Nothing is made or destroyed, and every count stays right.
abbrev pub Sound : Market → Market → Type 0
Sound m m' = ((x : ℕ) → holdings x m' ≡ holdings x m) × ((a : ℕ) → Counts a m → Counts a m')

-- No asset is market issued, so that only limit orders are matched.
abbrev pub NoneIssued : Market → Type 0
NoneIssued m =
    (i : ℕ) (o : AssetOptions) → m.assets i ≡ some o → has_any o.flags market_issued ≡ false

-- Options are valid and no asset is market issued, ids are distinct and `total_core_in_orders` is right for
-- every account.
abbrev pub IsMarket : Market → Type 0
IsMarket m = HasValidOptions m × NoneIssued m × IsMap m.orders × ((a : ℕ) → Counts a m)

pub same-HasValidOptions :
    (m m' : Market) → m'.assets ≡ m.assets → HasValidOptions m → HasValidOptions m'
same-HasValidOptions m m' same valid i o known = valid i o (sym (ap (λ f. f i) same) ∙ known)

-- What a match leaves of the two orders
abbrev pub Leaves : ℕ → ℕ → LimitOrder → Market × ℕ → Type 0
Leaves id k n r =
    ((r.1 == 2) ≡ true
      → (find k r.0.orders ≡ none)
        × (n' : LimitOrder) × (find id r.0.orders ≡ some n')
        × (n'.sell_price ≡ n.sell_price))
    × ((r.1 == 2) ≡ false → find id r.0.orders ≡ none)

pub none_of_test :
    {V : Type 0} (k : ℕ) (m : Map V) (found : Option V)
    → find k m ≡ found
    → contains k m ≡ false
    → find k m ≡ none
none_of_test k m none e h = e
none_of_test k m (some v) e h = absurd_test (contains k m) h (rw (e, contains) refl)

some_of_test :
    {V : Type 0} (k : ℕ) (m : Map V) (found : Option V)
    → find k m ≡ found
    → contains k m ≡ true
    → (v : V) × (find k m ≡ some v)
some_of_test k m none e h = absurd_test (contains k m) (rw (e, contains) refl) h
some_of_test k m (some v) e h = (v, e)

-- The bit field decides which order is there.
bits_of :
    (x y : Bool) (n : ℕ)
    → n ≡ bit (not x) + 2 * bit (not y)
    → n ≢ 0
    → ((n == 2) ≡ true → (x ≡ true) × (y ≡ false)) × ((n == 2) ≡ false → x ≡ false)
bits_of x y n h k = ground (arith, h, k)

pub match_step :
    (fc : Fc) (id k : ℕ) (n old : LimitOrder) (m : Market) (r : Market × ℕ)
    → HasValidOptions m
    → IsMap m.orders
    → id ≢ k
    → find id m.orders ≡ some n
    → find k m.orders ≡ some old
    → old.sell_price.quote.asset_id ≡ n.sell_price.base.asset_id
    → match_orders fc id k old.sell_price m ≡ some r
    → (r.0.assets ≡ m.assets)
      × IsMap r.0.orders
      × Sound m r.0
      × ((j : ℕ) → j ≢ id → j ≢ k → find j r.0.orders ≡ find j m.orders)
      × Leaves id k n r
match_step fc id k n old m r valid unique distinct found_n found_old opposite h =
    let (
      receives,
      first,
      second,
      traded,
      (old_asset, n_asset),
      n_filled,
      framed,
      found_old',
      old_filled,
      e,
    ) =
      match_fills fc id k n old old.sell_price m r valid distinct found_n found_old refl opposite
        h in
    let valid' : HasValidOptions first.0 =
      λ i o known. valid i o (sym (ap (λ f. f i) framed.0) ∙ known) in
    let ((_, unique'), _) =
      fill_order-Tells fc id n receives.1 receives.0 m first valid unique found_n n_filled in
    let ((_, unique''), _) =
      fill_order-Tells fc k old receives.0 receives.1 first.0 second valid' unique' found_old'
        old_filled in
    let (_, (assets_same, others)) =
      fill_order-sum fc 0 k old receives.0 receives.1 first.0 second valid' found_old' old_asset
        old_filled in
    let price =
      fill_order-KeepsPrice fc id n receives.1 receives.0 m first valid unique found_n n_filled in
    let (told, some_gone) =
      match_orders_result fc id k n old old.sell_price m r valid unique distinct found_n found_old
        refl opposite h in
    let (two, other_than_two) =
      bits_of (contains id r.0.orders) (contains k r.0.orders) r.1 told some_gone in
    let now : r.0 ≡ second.0 = ap (λ s. s.0) e in
    let assets_now : r.0.assets ≡ m.assets = ap Market.assets now ∙ assets_same ∙ framed.0 in
    let id_there : find id r.0.orders ≡ find id first.0.orders =
      ap (λ s. find id (Market.orders s)) now ∙ others id distinct in
    (
      assets_now,
      subst (λ s. IsMap (Market.orders s)) (sym now) unique'',
      (
        λ x.
            match_orders_conserves fc x id k n old old.sell_price m r valid distinct found_n
              found_old refl opposite h,
        λ a.
            match_orders-Counts fc a id k n old old.sell_price m r valid distinct found_n found_old
              refl opposite h,
      ),
      λ j not_id not_k. ap (λ s. find j (Market.orders s)) now ∙ others j not_k ∙ framed.1 j not_id,
      (
        λ is_two.
            let (there, gone) = two is_two in
            let (n', found) = some_of_test id r.0.orders (find id r.0.orders) refl there in
            (
              none_of_test k r.0.orders (find k r.0.orders) refl gone,
              n',
              found,
              price n' (sym id_there ∙ found),
            ),
        λ not_two. none_of_test id r.0.orders (find id r.0.orders) refl (other_than_two not_two),
      ),
    )
