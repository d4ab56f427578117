-- ===== src/LimitOrders/Reachable.antt =====
-- The markets that the evaluators of limit orders lead to.
use bitshares_toolkit.Common.{ℕ, ◌≡◌, refl, sym, ap, ◌∙◌, some, none, >>=-eq-some, eq_of_some}
use bitshares_toolkit.Common.Int.{ℤ, pos, eq_of_parts, parts_of_sum, ◌+ℤ◌, int_laws}
use bitshares_toolkit.Common.Maps.{find}
use bitshares_toolkit.Fc.{Fc}
use bitshares_toolkit.Asset.{Asset}
use bitshares_toolkit.Operations.Market.{LimitOrderCreateOperation, LimitOrderCancelOperation}
use bitshares_toolkit.Matching.{Market, cancel_order}
use bitshares_toolkit.Matching.Holdings.{total, holdings, add_zero}
use bitshares_toolkit.Matching.Fills.{cancel_order-sum}
use bitshares_toolkit.Matching.Counts.{cancel_order-Follows}
use bitshares_toolkit.Matching.Releases.{core_of}
use bitshares_toolkit.Matching.Results.{cancel_order-Tells}
use bitshares_toolkit.LimitOrders.{limit_order_create_apply, limit_order_cancel_apply}
use bitshares_toolkit.LimitOrders.Steps.{NoneIssued, IsMarket, same-HasValidOptions}
use bitshares_toolkit.LimitOrders.Creation.{limit_order_create-Outcome}

same-NoneIssued : (m m' : Market) → m'.assets ≡ m.assets → NoneIssued m → NoneIssued m'
same-NoneIssued m m' same plain i o known = plain i o (sym (ap (λ f. f i) same) ∙ known)

-- Orders are created, each with an id that no order has, and cancelled.
pub data Reach (fc : Fc) (start : Market) : Market → Type 0 where
  started : Reach fc start start
  placed :
      (m m' : Market) (id : ℕ) (op : LimitOrderCreateOperation)
      → Reach fc start m
      → find id m.orders ≡ none
      → limit_order_create_apply fc id op m ≡ some m'
      → Reach fc start m'
  withdrawn :
      (m m' : Market) (op : LimitOrderCancelOperation) (refunded : Asset)
      → Reach fc start m
      → limit_order_cancel_apply fc op m ≡ some (m', refunded)
      → Reach fc start m'

follows_right : (t t' c c' : ℤ) → (t' +ℤ c) +ℤ pos 0 ≡ c' +ℤ t → c ≡ t → c' ≡ t'
follows_right t t' c c' h e =
    let parts = parts_of_sum t' t (ap (λ z. t' +ℤ z) (sym e) ∙ sym (add_zero (t' +ℤ c)) ∙ h) in
    eq_of_parts c' t' (omega int_laws)

cancel_apply-IsMarket :
    (fc : Fc) (op : LimitOrderCancelOperation) (m m' : Market) (refunded : Asset)
    → IsMarket m
    → limit_order_cancel_apply fc op m ≡ some (m', refunded)
    → IsMarket m' × ((x : ℕ) → holdings x m' ≡ holdings x m)
unfolding limit_order_cancel_apply
cancel_apply-IsMarket fc op m m' refunded (valid, plain, unique, right) h =
    let (o, found, h1) = >>=-eq-some (find op.order m.orders) _ h in
    let (m1, cancelled, e) = >>=-eq-some (cancel_order fc op.order o m) _ h1 in
    let now : m1 ≡ m' = ap (λ r. r.0) (eq_of_some e) in
    let (_, (assets_same, _)) = cancel_order-sum fc 0 op.order o m m1 found cancelled in
    rw (sym now) (
      (
        same-HasValidOptions m m1 assets_same valid,
        same-NoneIssued m m1 assets_same plain,
        (cancel_order-Tells fc op.order o m m1 unique cancelled).1,
        λ a.
            follows_right (total (core_of a) m.orders) (total (core_of a) m1.orders)
              (m.core_in_orders a) (m1.core_in_orders a)
              (cancel_order-Follows fc a op.order o m m1 found cancelled) (right a),
      ),
      λ x. (cancel_order-sum fc x op.order o m m1 found cancelled).0,
    )

-- If the options of every asset are valid and none is market issued, the ids of orders are distinct and
-- `total_core_in_orders` is right for every account, then all this is still so after any sequence of creations and cancellations of orders that
-- return, each creation with an id that no order has; and no amount that the balances, the orders and the
-- accumulated market fees hold together has changed.
pub Reach-IsMarket :
    (fc : Fc) (start m : Market)
    → IsMarket start
    → Reach fc start m
    → IsMarket m × ((x : ℕ) → holdings x m ≡ holdings x start)
Reach-IsMarket fc start m good started = (good, λ x. refl)
Reach-IsMarket fc start m good (placed m0 m' id op before absent h) =
    let ((valid, plain, unique, right), held) = Reach-IsMarket fc start m0 good before in
    let ((held', counted), assets_same, unique', _, _) =
      limit_order_create-Outcome fc id op m0 m valid unique absent h in
    (
      (
        same-HasValidOptions m0 m assets_same valid,
        same-NoneIssued m0 m assets_same plain,
        unique',
        λ a. counted a (right a),
      ),
      λ x. held' x ∙ held x,
    )
Reach-IsMarket fc start m good (withdrawn m0 m' op refunded before h) =
    let (good0, held) = Reach-IsMarket fc start m0 good before in
    let (good', held') = cancel_apply-IsMarket fc op m0 m refunded good0 h in
    (good', λ x. held' x ∙ held x)
