-- ===== src/Matching/Debts/Amounts.antt =====
-- Sums of balances, orders, fees, collateral and settlements, when a part of them changes.
use bitshares_toolkit.Common.{◌≡◌, sym}
use bitshares_toolkit.Common.Int.{ℤ, pos, eq_of_parts, parts_of_sum, ◌+ℤ◌, int_laws}

pub taken_back : (b n a : ℤ) → n +ℤ a ≡ pos 0 → (b +ℤ n) +ℤ a ≡ b
taken_back b n a e =
    let parts = parts_of_sum n a e in eq_of_parts ((b +ℤ n) +ℤ a) b (omega int_laws)

pub spent :
    (b b' o f c s a : ℤ)
    → b' +ℤ a ≡ b
    → ((((b' +ℤ o) +ℤ f) +ℤ c) +ℤ s) +ℤ a ≡ (((b +ℤ o) +ℤ f) +ℤ c) +ℤ s
spent b b' o f c s a e = rw (sym e) (
    eq_of_parts (((((b' +ℤ o) +ℤ f) +ℤ c) +ℤ s) +ℤ a) (((((b' +ℤ a) +ℤ o) +ℤ f) +ℤ c) +ℤ s)
      (omega int_laws))

pub given_back :
    (b o f c c0 s a : ℤ)
    → c +ℤ a ≡ c0
    → ((((b +ℤ a) +ℤ o) +ℤ f) +ℤ c) +ℤ s ≡ (((b +ℤ o) +ℤ f) +ℤ c0) +ℤ s
given_back b o f c c0 s a e = rw (sym e) (
    eq_of_parts (((((b +ℤ a) +ℤ o) +ℤ f) +ℤ c) +ℤ s) ((((b +ℤ o) +ℤ f) +ℤ (c +ℤ a)) +ℤ s)
      (omega int_laws))

pub drawn : (b b' o f a : ℤ) → b' +ℤ a ≡ b → ((b' +ℤ o) +ℤ f) +ℤ a ≡ (b +ℤ o) +ℤ f
drawn b b' o f a e =
    rw (sym e) (eq_of_parts (((b' +ℤ o) +ℤ f) +ℤ a) (((b' +ℤ a) +ℤ o) +ℤ f) (omega int_laws))

pub grown :
    (h0 h c0 c s w w' a t : ℤ)
    → h +ℤ t ≡ h0
    → c +ℤ w ≡ c0 +ℤ w'
    → w' ≡ w +ℤ a
    → ((h +ℤ c) +ℤ s) +ℤ t ≡ ((h0 +ℤ c0) +ℤ s) +ℤ a
grown h0 h c0 c s w w' a t held inserted more =
    let held_parts = parts_of_sum h t held in
    let inserted_parts = parts_of_sum c w inserted in
    let more_parts = parts_of_sum w a (sym more) in
    eq_of_parts (((h +ℤ c) +ℤ s) +ℤ t) (((h0 +ℤ c0) +ℤ s) +ℤ a) (omega int_laws)

pub backed_still : (a a' p s s' c : ℤ) → p +ℤ c ≡ a → s' +ℤ c ≡ s → a' ≡ p → a' +ℤ s ≡ a +ℤ s'
backed_still a a' p s s' c all supply same =
    let all_parts = parts_of_sum p c all in
    let supply_parts = parts_of_sum s' c supply in
    rw same (eq_of_parts (p +ℤ s) (a +ℤ s') (omega int_laws))

pub changed_backing :
    (a a' p s s' c t v : ℤ)
    → p +ℤ c ≡ a
    → s' +ℤ c ≡ s
    → a' +ℤ t ≡ p +ℤ v
    → (a' +ℤ s) +ℤ t ≡ (a +ℤ s') +ℤ v
changed_backing a a' p s s' c t v all supply moved =
    let all_parts = parts_of_sum p c all in
    let supply_parts = parts_of_sum s' c supply in
    let moved_parts = parts_of_sum a' t moved in
    eq_of_parts ((a' +ℤ s) +ℤ t) ((a +ℤ s') +ℤ v) (omega int_laws)

pub cancel_end : (a b t : ℤ) → a +ℤ t ≡ b +ℤ t → a ≡ b
cancel_end a b t e = let parts = parts_of_sum a t e in eq_of_parts a b (omega int_laws)
