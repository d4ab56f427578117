-- ===== src/Authority/Completeness.antt =====
-- What suffices for a positive answer of `check_authority`.
use bitshares_toolkit.Common.{
  ℕ, zero, suc, ◌+◌, ◌%◌, ◌^◌, ◌==◌, ◌≤◌, ◌<◌, ◌≡◌, refl, Bool, true, false, ◌||◌, some, none, List,
  [], ◌∷◌, leb, if◌then◌else◌, Bool-cases, inl, inr, arith, leb→gt,
}
use bitshares_toolkit.Operations.Options.{Authority}
use bitshares_toolkit.Authority.{
  Classification, AccountObject, key_item, EvaluationState, ApprovedBy, is_approved, signed_by,
  authority_of, add_weight, Nested, Result, settle, check_item, check_auths, check_account,
  check_authority,
}

module _ (st : EvaluationState) (c : Classification) where
  -- Every entry is a key of the database.
  abbrev pub AllKeys : List (ℕ × ℕ) → Type 0
  AllKeys [] = Unit
  AllKeys (e ∷ l) = (st.get_object e.0 ≡ some key_item) × AllKeys l

  abbrev pub signed_weight : List (ℕ × ℕ) → ℕ
  signed_weight [] = 0
  signed_weight (e ∷ l) = (if signed_by st e.0 then e.1 else 0) + signed_weight l

  abbrev pub all_weight : List (ℕ × ℕ) → ℕ
  all_weight [] = 0
  all_weight (e ∷ l) = e.1 + all_weight l

  abbrev pub Accepts : Result → Type 0
  Accepts r = (s : ApprovedBy) × (r ≡ some (true, s))

  settle-Accepts :
      (b : Bool) (e : ℕ × Classification) (s : ApprovedBy) (rest : Result)
      → (b ≡ false → Accepts rest)
      → Accepts (settle b e s rest)
  unfolding settle
  settle-Accepts true e s rest h = (e ∷ s, refl)
  settle-Accepts false e s rest h = h refl

  module _ (nested : Nested) (account threshold : ℕ) where
    check_auths-Accepts :
        (auths : List (ℕ × ℕ)) (total : ℕ) (s : ApprovedBy)
        → AllKeys auths
        → total < threshold
        → threshold ≤ total + signed_weight auths
        → total + all_weight auths < 2 ^ 32
        → Accepts (check_auths st c nested account threshold auths total s)
    unfolding check_auths check_item
    check_auths-Accepts [] total s keys few enough fits = absurd (omega (arith, few, enough))
    check_auths-Accepts (e ∷ l) total s keys few enough fits =
        let most : signed_weight (e ∷ l) ≤ e.1 + signed_weight l = ground arith in
        let no_wrap : add_weight total e.1 ≡ total + e.1 = omega (arith, fits) in
        let counted : (s' : ApprovedBy)
            → Accepts (
                settle (leb threshold (add_weight total e.1)) (account, c) s'
                  (check_auths st c nested account threshold l (add_weight total e.1) s')) =
          λ s'.
            settle-Accepts (leb threshold (add_weight total e.1)) (account, c) s' _
              (λ less.
                check_auths-Accepts l (add_weight total e.1) s' keys.1 (leb→gt threshold _ less)
                  (omega (arith, enough, no_wrap, most)) (omega (arith, fits, no_wrap))) in
        elim (Bool-cases (is_approved e.0 c s)) [
          | inl known ↦ rw known (counted s)
          | inr unknown ↦ elim (Bool-cases (signed_by st e.0)) [
            | inl signed ↦ rw (unknown, keys.0, signed) (counted _)
            | inr unsigned ↦
                let same : signed_weight (e ∷ l) ≡ signed_weight l = ground (arith, unsigned) in
                rw (unknown, keys.0, unsigned)
                  (settle-Accepts (leb threshold total) (account, c) s _
                    (λ less.
                      check_auths-Accepts l total s keys.1 few (omega (arith, enough, same))
                        (omega (arith, fits))))
          ]
        ]

  check_account-Accepts :
      (nested : Nested) (a : AccountObject) (au : Authority) (s : ApprovedBy)
      → (a.id % 2 ^ 48 == 0) ≡ false
      → authority_of a c ≡ some au
      → AllKeys au.auths
      → 0 < au.weight_threshold
      → au.weight_threshold ≤ signed_weight au.auths
      → all_weight au.auths < 2 ^ 32
      → Accepts (check_account st c nested a s)
  unfolding check_account
  check_account-Accepts nested a au s id chosen keys some_weight enough fits =
      elim (Bool-cases (st.skip_authority_check || is_approved a.id c s)) [
        | inl done ↦ rw done (s, refl)
        | inr asks ↦
            rw (asks, id, chosen)
              (check_auths-Accepts nested a.id au.weight_threshold au.auths 0 s keys some_weight
                (omega (arith, enough)) (omega (arith, fits)))
      ]

  -- If every entry of the authority is a key of the database and the weights of those that signed
  -- reach the threshold, the check succeeds at any depth and whatever was approved before. The
  -- account is not the genesis account, the threshold is not 0 and all weights together fit a
  -- `uint32_t`.
  pub signed_keys_suffice :
      (depth : ℕ) (a : AccountObject) (au : Authority) (s : ApprovedBy)
      → (a.id % 2 ^ 48 == 0) ≡ false
      → authority_of a c ≡ some au
      → AllKeys au.auths
      → 0 < au.weight_threshold
      → au.weight_threshold ≤ signed_weight au.auths
      → all_weight au.auths < 2 ^ 32
      → Accepts (check_authority st c depth a s)
  unfolding check_authority
  signed_keys_suffice zero = check_account-Accepts none
  signed_keys_suffice (suc depth) = check_account-Accepts (some (check_authority st c depth))
