-- ===== src/Authority/Soundness.antt =====
-- What a positive answer of `check_authority` is worth.
use bitshares_toolkit.Common.{
  ℕ, zero, suc, ◌%◌, ◌^◌, ◌==◌, ◌≤◌, ◌≡◌, refl, sym, ap, ◌∙◌, Bool, true, false, ◌||◌, not, some,
  none, List, [], ◌∷◌, leb, if◌then◌else◌, fc_assert, >>=-eq-some, Bool-cases, inl, inr, arith,
  leb→le, eq_of_some, subst,
}
use bitshares_toolkit.Operations.Options.{Authority}
use bitshares_toolkit.Authority.{
  Classification, key, AccountObject, AuthItem, account_item, key_item, other_item, EvaluationState,
  ApprovedBy, is_approved, signed_by, authority_of, add_weight, Nested, check_auths, check_item,
  settle, Result, check_account, check_authority,
}

pick_true : (b : Bool) (x y : Result) → b ≡ true → (if b then x else y) ≡ x
pick_true b x y e = rw e refl

pick_false : (b : Bool) (x y : Result) → b ≡ false → (if b then x else y) ≡ y
pick_false b x y e = rw e refl

module _ (st : EvaluationState) (c : Classification) where
  mutual
    -- The object `id` supports a transaction: a key that signed it, or an account that grants it.
    pub data Supports : ℕ → Type 0 where
      signs : (id : ℕ) → st.get_object id ≡ some key_item → signed_by st id ≡ true → Supports id
      grants :
          (a : AccountObject) (au : Authority) (t : ℕ)
          → st.get_object a.id ≡ some (account_item a)
          → authority_of a c ≡ some au
          → Reaches au.auths 0 t
          → au.weight_threshold ≤ t
          → Supports a.id

    -- The weights of entries that support the transaction, each counted once, add up from `s` to `t`.
    pub data Reaches : List (ℕ × ℕ) → ℕ → ℕ → Type 0 where
      stop : (l : List (ℕ × ℕ)) (s : ℕ) → Reaches l s s
      pass : (e : ℕ × ℕ) (l : List (ℕ × ℕ)) (s t : ℕ) → Reaches l s t → Reaches (e ∷ l) s t
      count :
          (e : ℕ × ℕ) (l : List (ℕ × ℕ)) (s t : ℕ)
          → Supports e.0
          → Reaches l (add_weight s e.1) t
          → Reaches (e ∷ l) s t

  -- Every approval of the class is worth its support.
  abbrev Sound : ApprovedBy → Type 0
  Sound s = (id : ℕ) → is_approved id c s ≡ true → Supports id

  Sound-cons :
      (id : ℕ) (d : Classification) (s : ApprovedBy) → Supports id → Sound s → Sound ((id, d) ∷ s)
  unfolding is_approved
  Sound-cons id d s h k j e = elim (Bool-cases (j == id)) [
    | inl same ↦ let equal : id ≡ j = ground (arith, same) in subst Supports equal h
    | inr other ↦ k j (ground (arith, other))
  ]

  abbrev Worth : ℕ → Bool × ApprovedBy → Type 0
  Worth account r = (r.0 ≡ true → Supports account) × Sound r.1

  nothing_approved : (id : ℕ) → is_approved id c [] ≡ false
  unfolding is_approved
  nothing_approved id = refl

  -- The nested calls are sound.
  abbrev NestedSound : Nested → Type 0
  NestedSound nested =
      (check : AccountObject → ApprovedBy → Result)
      → nested ≡ some check
      → (a : AccountObject) (s : ApprovedBy) (r : Bool × ApprovedBy)
      → st.get_object a.id ≡ some (account_item a)
      → Sound s
      → check a s ≡ some r
      → Worth a.id r

  module _
      (consistent : (id : ℕ) (a : AccountObject)
        → st.get_object id ≡ some (account_item a)
        → a.id ≡ id)
      (nested : Nested) (below : NestedSound nested) (account threshold : ℕ) where
    settle-Worth :
        (b : Bool) (t : ℕ) (s : ApprovedBy) (rest : Result) (r : Bool × ApprovedBy)
        → leb threshold t ≡ b
        → (threshold ≤ t → Supports account)
        → Sound s
        → (rest ≡ some r → Worth account r)
        → settle b (account, c) s rest ≡ some r
        → Worth account r
    unfolding settle
    settle-Worth true t s rest r e finish sound go h =
        let worth = finish (leb→le threshold t e) in
        subst (Worth account) (eq_of_some h) (λ _. worth, Sound-cons account c s worth sound)
    settle-Worth false t s rest r e finish sound go h = go h

    -- The rounds after an entry, for a continuation that is sound at both weights.
    check_item-Worth :
        (n : Nested) (auth : ℕ × ℕ) (total : ℕ) (s : ApprovedBy) (go_on : ℕ → ApprovedBy → Result)
        (item : AuthItem) (r : Bool × ApprovedBy)
        → NestedSound n
        → st.get_object auth.0 ≡ some item
        → Sound s
        → ((s' : ApprovedBy) → Sound s' → go_on total s' ≡ some r → Worth account r)
        → (Supports auth.0
            → (s' : ApprovedBy) → Sound s'
            → go_on (add_weight total auth.1) s' ≡ some r
            → Worth account r)
        → check_item st c n auth total s go_on item ≡ some r
        → Worth account r
    unfolding check_item
    check_item-Worth none auth total s go_on (account_item a) r ns found sound pass_on count_on h =
        subst (Worth account) (eq_of_some h) (λ e. cc, sound)
    check_item-Worth (some check) auth total s go_on (account_item a) r ns found sound pass_on
          count_on h =
        let same = consistent auth.0 a found in
        let found' : st.get_object a.id ≡ some (account_item a) = ap st.get_object same ∙ found in
        let (q, checked, rest) = >>=-eq-some (check a s) _ h in
        let worth = ns check refl a s q found' sound checked in
        elim (Bool-cases q.0) [
          | inl agreed ↦
              let supports = worth.0 agreed in
              let counted : Supports auth.0 = subst Supports same supports in
              count_on counted ((a.id, c) ∷ q.1) (Sound-cons a.id c q.1 supports worth.1)
                (sym (pick_true q.0 _ _ agreed) ∙ rest)
          | inr refused ↦ pass_on q.1 worth.1 (sym (pick_false q.0 _ _ refused) ∙ rest)
        ]
    check_item-Worth n auth total s go_on key_item r ns found sound pass_on count_on h =
        elim (Bool-cases (signed_by st auth.0)) [
          | inl signed ↦
              let supports = signs auth.0 found signed in
              count_on supports ((auth.0, key) ∷ s) (Sound-cons auth.0 key s supports sound)
                (sym (pick_true (signed_by st auth.0) _ _ signed) ∙ h)
          | inr unsigned ↦ pass_on s sound (sym (pick_false (signed_by st auth.0) _ _ unsigned) ∙ h)
        ]
    check_item-Worth n auth total s go_on other_item r ns found sound pass_on count_on h = cc

    check_auths-Worth :
        (auths : List (ℕ × ℕ)) (total : ℕ) (s : ApprovedBy) (r : Bool × ApprovedBy)
        → Sound s
        → ((t : ℕ) → Reaches auths total t → threshold ≤ t → Supports account)
        → check_auths st c nested account threshold auths total s ≡ some r
        → Worth account r
    unfolding check_auths
    check_auths-Worth [] total s r sound finish h =
        subst (Worth account) (eq_of_some h) (λ e. cc, sound)
    check_auths-Worth (auth ∷ auths) total s r sound finish h =
        let go_on : ℕ → ApprovedBy → Result = λ t s'.
          settle (leb threshold t) (account, c) s'
            (check_auths st c nested account threshold auths t s') in
        let go : (t : ℕ)
            → ((u : ℕ) → Reaches auths t u → threshold ≤ u → Supports account)
            → (s' : ApprovedBy) → Sound s'
            → go_on t s' ≡ some r
            → Worth account r =
          λ t fin s' snd e.
            settle-Worth (leb threshold t) t s' _ r refl (fin t (stop auths t)) snd
              (check_auths-Worth auths t s' r snd fin) e in
        let counting : Supports auth.0
            → (u : ℕ) → Reaches auths (add_weight total auth.1) u
            → threshold ≤ u
            → Supports account =
          λ sup u reach. finish u (count auth auths total u sup reach) in
        let passing : (u : ℕ) → Reaches auths total u → threshold ≤ u → Supports account =
          λ u reach. finish u (pass auth auths total u reach) in
        elim (Bool-cases (is_approved auth.0 c s)) [
          | inl known ↦
              go (add_weight total auth.1) (counting (sound auth.0 known)) s sound
                (sym (pick_true (is_approved auth.0 c s) _ _ known) ∙ h)
          | inr unknown ↦
              let (item, found, checked) =
                >>=-eq-some (st.get_object auth.0) _
                  (sym (pick_false (is_approved auth.0 c s) _ _ unknown) ∙ h) in
              check_item-Worth nested auth total s go_on item r below found sound (go total passing)
                (λ sup. go (add_weight total auth.1) (counting sup)) checked
        ]

  module _
      (consistent : (id : ℕ) (a : AccountObject)
        → st.get_object id ≡ some (account_item a)
        → a.id ≡ id)
      (checked : st.skip_authority_check ≡ false) where
    check_account-Worth :
        (nested : Nested) → NestedSound nested → NestedSound (some (check_account st c nested))
    unfolding check_account
    check_account-Worth nested below check is a s r found sound h =
        let h' : check_account st c nested a s ≡ some r = ap (λ f. f a s) (eq_of_some is) ∙ h in
        elim (Bool-cases (is_approved a.id c s)) [
          | inl known ↦
              let passes : (st.skip_authority_check || is_approved a.id c s) ≡ true =
                rw (checked, known) refl in
              subst (Worth a.id) (eq_of_some (sym (pick_true _ _ _ passes) ∙ h'))
                (λ _. sound a.id known, sound)
          | inr unknown ↦
              let asks : (st.skip_authority_check || is_approved a.id c s) ≡ false =
                rw (checked, unknown) refl in
              let (_, _, rest) =
                >>=-eq-some (fc_assert (not (a.id % 2 ^ 48 == 0) || st.is_proposed_trx)) _
                  (sym (pick_false _ _ _ asks) ∙ h') in
              let (au, chosen, looped) = >>=-eq-some (authority_of a c) _ rest in
              check_auths-Worth consistent nested below a.id au.weight_threshold au.auths 0 s r
                sound (λ t reach le. grants a au t found chosen reach le) looped
        ]

    check_authority-Worth : (depth : ℕ) → NestedSound (some (check_authority st c depth))
    unfolding check_authority
    check_authority-Worth zero = check_account-Worth none (λ check is. cc)
    check_authority-Worth (suc depth) =
        check_account-Worth (some (check_authority st c depth)) (check_authority-Worth depth)

    -- If the check of an owner or active authority succeeds, at any depth and with nothing approved
    -- before, then signatures of the transaction support the account: the weights of keys that
    -- signed, and of accounts that are supported in the same way, reach its threshold. The check is
    -- not skipped, the account is in the database, and the database finds every account under its id.
    pub check_authority_sound :
        (depth : ℕ) (a : AccountObject) (now_approved : ApprovedBy)
        → st.get_object a.id ≡ some (account_item a)
        → check_authority st c depth a [] ≡ some (true, now_approved)
        → Supports a.id
    check_authority_sound depth a now_approved found h =
        let worth =
          check_authority-Worth depth (check_authority st c depth) refl a [] (true, now_approved)
            found (λ id e. ground (arith, nothing_approved id, e)) h in
        worth.0 refl
