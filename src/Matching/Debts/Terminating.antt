-- ===== src/Matching/Debts/Terminating.antt =====
-- The loop over a forced settlement of `clear_expired_orders`, round by round.
use bitshares_toolkit.Common.{
  ℕ, zero, suc, ◌+◌, ◌<◌, ◌==◌, ◌≡◌, ◌≢◌, refl, sym, ap, subst, ◌∙◌, false, none, some, >>=-eq-some,
  eq_of_some, arith, inl, inr, ◌⊎◌, Bool-cases, Option-cases, length, fc_assert,
}
use bitshares_toolkit.Common.Int.{ℤ, eq_of_parts, ◌+ℤ◌, ◌-ℤ◌, int_laws}
use bitshares_toolkit.Common.Maps.{Map, find, contains, IsMap}
use bitshares_toolkit.Fc.{Fc}
use bitshares_toolkit.Asset.{Asset, Price, asset_lt, asset_add, asset_sub}
use bitshares_toolkit.Matching.Payments.{asset_sub-exact}
use bitshares_toolkit.Matching.Debts.{CallOrder, ForceSettlement, Debts, match_settlement}
use bitshares_toolkit.Matching.Debts.Backing.{settled_amount, match_settlement-fills}
use bitshares_toolkit.Matching.Debts.Endings.{
  fill_call-settlements, fill_settlement-calls, match_settlement_ends,
}
use bitshares_toolkit.Matching.Debts.Settling.{lower_bound, settle_step, goes_on, settle_loop}
use bitshares_toolkit.Matching.Debts.Rounds.{
  lower_bound-found, fill_call-fewer, fill_settlement-IsMap,
}

asset_add-exact :
    (fc : Fc) (a b c : Asset)
    → asset_add fc a b ≡ some c
    → (c.asset_id ≡ a.asset_id) × (c.amount ≡ a.amount +ℤ b.amount)
unfolding asset_add
asset_add-exact fc a b c h =
    let (_, _, h1) = >>=-eq-some (fc_assert (a.asset_id == b.asset_id)) _ h in
    let (v, exact, e) = >>=-eq-some (fc.safe_add a.amount b.amount) _ h1 in
    rw (sym (eq_of_some e)) (refl, fc.safe_add_exact a.amount b.amount v exact)

same_assets : (fc : Fc) (a b c : Asset) → asset_sub fc a b ≡ some c → a.asset_id ≡ b.asset_id
unfolding asset_sub
same_assets fc a b c h =
    let (_, same, _) = >>=-eq-some (fc_assert (a.asset_id == b.asset_id)) _ h in
    ground (arith, same)

with_difference : (a b : ℤ) → a +ℤ (b -ℤ a) ≡ b
with_difference a b = eq_of_parts (a +ℤ (b -ℤ a)) b (omega int_laws)

not_less : (a b : Asset) → a.asset_id ≡ b.asset_id → a.amount ≡ b.amount → asset_lt a b ≡ false
unfolding asset_lt
not_less a b same h = rw (same, h) (ground arith)

absent_test : (id : ℕ) (m : Map ForceSettlement) → find id m ≡ none → contains id m ≡ false
absent_test id m h = ground (arith, h)

matched_fewer :
    (fc : Fc) (call_id id : ℕ) (call : CallOrder) (settlement_price : Price)
    (most max_volume : Asset) (d : Debts) (settled : Asset) (matched : Debts × Asset) (more : Asset)
    → IsMap d.calls
    → IsMap d.settlements
    → find call_id d.calls ≡ some call
    → asset_sub fc max_volume settled ≡ some most
    → asset_add fc settled matched.1 ≡ some more
    → match_settlement fc call_id id settlement_price most d ≡ some matched
    → IsMap matched.0.calls
      × IsMap matched.0.settlements
      × ((length matched.0.calls + 1 ≡ length d.calls)
          ⊎ (goes_on id max_volume matched.0 more ≡ false))
unfolding match_settlement
matched_fewer fc call_id id call settlement_price most max_volume d settled matched more
      calls_distinct settlements_distinct call_found difference added h =
    let (_, _, h1) = >>=-eq-some (find call_id d.calls) _ h in
    let (settle, settle_found, _) = >>=-eq-some (find id d.settlements) _ h1 in
    let amount = settled_amount call settle most in
    let (pays, first, second, exchanged, called, closed, e) =
      match_settlement-fills fc call_id id call settle settlement_price most d matched call_found
        settle_found h in
    let (first_distinct, fewer) =
      fill_call-fewer fc call_id pays amount d first calls_distinct called in
    let calls_same : matched.0.calls ≡ first.0.calls =
      ap (λ (q : Debts × Asset). q.0.calls) e
      ∙ fill_settlement-calls fc id amount pays first.0 second closed in
    let settlements_same = fill_call-settlements fc call_id pays amount d first called in
    let (most_id, most_amount) = asset_sub-exact fc max_volume settled most difference in
    let (more_id, more_amount) = asset_add-exact fc settled matched.1 more added in
    let (_, ends) =
      match_settlement_ends fc call_id id call settle settlement_price most d matched calls_distinct
        settlements_distinct call_found settle_found h in
    (
      subst IsMap (sym calls_same) first_distinct,
      subst IsMap (sym (ap (λ (q : Debts × Asset). q.0.settlements) e)) (
          fill_settlement-IsMap fc id amount pays first.0 second
            (subst IsMap (sym settlements_same) settlements_distinct) closed),
      elim ends [
        | inl whole ↦ inr (
            rw
              (not_less more max_volume
                (more_id ∙ sym (same_assets fc max_volume settled most difference))
                (more_amount
                  ∙ ap (λ v. settled.amount +ℤ v) (whole ∙ most_amount)
                  ∙ with_difference settled.amount max_volume.amount))
              refl)
        | inr (inl call_gone) ↦ inl (
            ap (λ (m : Map CallOrder). length m + 1) calls_same
            ∙ fewer (ap (find call_id) (sym calls_same) ∙ call_gone))
        | inr (inr settle_gone) ↦
            inr (rw (absent_test id matched.0.settlements settle_gone) (ground arith))
      ],
    )

pub settle_step-fewer :
    (fc : Fc) (least : Price) (id : ℕ) (settlement_price : Price) (max_volume : Asset) (d : Debts)
    (settled : Asset) (r : Debts × Asset)
    → IsMap d.calls
    → IsMap d.settlements
    → settle_step fc least id settlement_price max_volume d settled ≡ some r
    → IsMap r.0.calls
      × IsMap r.0.settlements
      × ((length r.0.calls + 1 ≡ length d.calls) ⊎ (goes_on id max_volume r.0 r.1 ≡ false))
unfolding settle_step
settle_step-fewer fc least id settlement_price max_volume d settled r calls_distinct
      settlements_distinct h =
    let (call, chosen, h1) = >>=-eq-some (lower_bound fc least d.calls) _ h in
    let (most, difference, h2) = >>=-eq-some (asset_sub fc max_volume settled) _ h1 in
    let (matched, done, h3) =
      >>=-eq-some (match_settlement fc call.0 id settlement_price most d) _ h2 in
    let (more, added, e) = >>=-eq-some (asset_add fc settled matched.1) _ h3 in
    let call_found = lower_bound-found fc least d.calls call calls_distinct chosen in
    rw (sym (eq_of_some e)) (
      matched_fewer fc call.0 id call.1 settlement_price most max_volume d settled matched more
        calls_distinct settlements_distinct call_found difference added done)

settle_loop-stops :
    (fc : Fc) (least : Price) (id : ℕ) (settlement_price : Price) (max_volume : Asset) (fuel : ℕ)
    (d : Debts) (settled : Asset)
    → goes_on id max_volume d settled ≡ false
    → settle_loop fc least id settlement_price max_volume fuel d settled ≡ some (some (d, settled))
unfolding settle_loop
settle_loop-stops fc least id settlement_price max_volume zero d settled h = rw h refl
settle_loop-stops fc least id settlement_price max_volume (suc fuel) d settled h = rw h refl

-- If the ids of call orders and of settlements are distinct, the loop over a forced settlement does not
-- run out of fuel on more fuel than there are call orders: it ends, normally or by a failed check.
pub settle_loop_ends :
    (fc : Fc) (least : Price) (id : ℕ) (settlement_price : Price) (max_volume : Asset) (fuel : ℕ)
    (d : Debts) (settled : Asset)
    → IsMap d.calls
    → IsMap d.settlements
    → length d.calls < fuel
    → settle_loop fc least id settlement_price max_volume fuel d settled ≢ none
unfolding settle_loop
settle_loop_ends fc least id settlement_price max_volume zero d settled hc hs enough =
    absurd (omega (arith, enough))
settle_loop_ends fc least id settlement_price max_volume (suc fuel) d settled hc hs enough =
    elim (Bool-cases (goes_on id max_volume d settled)) [
      | inr stop ↦ rw stop (λ e. cc)
      | inl go ↦
          elim (Option-cases (settle_step fc least id settlement_price max_volume d settled)) [
            | inl failed ↦ rw (go, failed) (λ e. cc)
            | inr (r, stepped) ↦
                let (calls, settlements, fewer_or_done) =
                  settle_step-fewer fc least id settlement_price max_volume d settled r hc hs
                    stepped in
                rw (go, stepped)
                  (elim fewer_or_done [
                    | inl fewer ↦
                        settle_loop_ends fc least id settlement_price max_volume fuel r.0 r.1 calls
                          settlements (omega (arith, fewer, enough))
                    | inr stop ↦
                        rw
                          (settle_loop-stops fc least id settlement_price max_volume fuel r.0 r.1
                            stop)
                          (λ e. cc)
                  ])
          ]
    ]
