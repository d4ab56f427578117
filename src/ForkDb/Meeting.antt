-- ===== src/ForkDb/Meeting.antt =====
-- `fetch_branch_from` ends, and finds the branches of two blocks with a common ancestor.
use bitshares_toolkit.Common.{
  ℕ, zero, suc, ◌+◌, ◌%◌, ◌^◌, ◌==◌, ◌≤◌, ◌<◌, ◌≡◌, ◌≢◌, refl, sym, ◌∙◌, ap, Bool-cases, Option,
  none, some, List, [], ◌∷◌, ◌++◌, inl, inr, arith, subst, ltb,
}
use bitshares_toolkit.ForkDb.{
  Block, Hash, num_from_id, block_num, block_id, ForkDb, find_id, prev_of,
}
use bitshares_toolkit.ForkDb.Branches.{
  Outcome, done, thrown, out_of_fuel, ◌>>=◌, expect, push_front, push_both, climb, meet,
  fetch_branch_from,
}
use bitshares_toolkit.ForkDb.Invariant.{IsForkDb, IsCounted}
use bitshares_toolkit.ForkDb.Steps.{find_id-found}
use bitshares_toolkit.ForkDb.Paths.{
  lock-some, >>=-eq-done, eq_of_done, expect-eq-done, fuel-ne-done,
}

abbrev Ends {ℓ} : {A : Type ℓ} → Outcome A → Type ℓ
Ends m = m ≢ out_of_fuel

num_of_id : (hash : Hash) (b : Block) → num_from_id (block_id hash b) ≡ block_num b
unfolding num_from_id block_id block_num
num_of_id hash b = omega arith

done-Ends {ℓ} : {A : Type ℓ} (a : A) → Ends (done a)
done-Ends a h = cc

expect-Ends {ℓ} : {A : Type ℓ} (o : Option A) → Ends (expect o)
expect-Ends none h = cc
expect-Ends (some a) h = cc

>>=-Ends {ℓ κ} :
    {A : Type ℓ} {B : Type κ} (m : Outcome A) (f : A → Outcome B)
    → Ends m
    → ((a : A) → m ≡ done a → Ends (f a))
    → Ends (m >>= f)
>>=-Ends (done a) f h k = k a refl
>>=-Ends thrown f h k = λ e. cc
>>=-Ends out_of_fuel f h k = absurd (h refl)

stop-le :
    (p : ℕ) (r : List ℕ × ℕ) → ◌≡◌ {A = Outcome (List ℕ × ℕ)} (done ([], p)) (done r) → r.1 ≤ p
stop-le p r h =
    let e : ◌≡◌ {A = List ℕ × ℕ} ([], p) r = eq_of_done h in
    subst (λ (s : List ℕ × ℕ). s.1 ≤ p) e (omega arith)

module _ (hash : Hash) (db : ForkDb) (v : IsForkDb hash db) where
  prev_of-older : (p q : ℕ) → p < db.next → prev_of db p ≡ some q → q < p
  prev_of-older p q h e = ((v.formed p h).linked q (lock-some db (db.items p).prev q e)).0

  -- A link that is alive leads to an older item, with the number before if none has wrapped.
  pub prev_of-lem :
      (p q : ℕ)
      → IsCounted db
      → p < db.next
      → prev_of db p ≡ some q
      → (q < p) × ((db.items p).num ≡ (db.items q).num + 1)
  unfolding block_num
  prev_of-lem p q counted h e =
      let (below, id) = (v.formed p h).linked q (lock-some db (db.items p).prev q e) in
      let i = v.formed q (omega (arith, below, h)) in
      let parent : num_from_id (db.items p).block.previous ≡ (db.items q).num =
        ap num_from_id (sym id ∙ i.named) ∙ num_of_id hash (db.items q).block ∙ sym i.numbered in
      let number : (db.items p).num ≡ ((db.items q).num + 1) % 2 ^ 32 =
        (v.formed p h).numbered ∙ ap (λ n. (n + 1) % 2 ^ 32) parent in
      (below, omega (arith, number, counted p h, i.numbered))

  climb-Ends : (fuel p n : ℕ) → p < fuel → p < db.next → Ends (climb db fuel p n)
  unfolding climb
  climb-Ends zero p n h b = absurd (omega arith)
  climb-Ends (suc fuel) p n h b = elim (Bool-cases (ltb n (db.items p).num)) [
    | inl above ↦ rw above (
        >>=-Ends (expect (prev_of db p)) _ (expect-Ends (prev_of db p)) (λ q up.
          let older = prev_of-older p q b (expect-eq-done (prev_of db p) up) in
          >>=-Ends (climb db fuel q n) (push_front p)
            (climb-Ends fuel q n (omega (arith, older, h)) (omega (arith, older, b)))
            (λ r e. done-Ends (p ∷ r.0, r.1))))
    | inr there ↦ rw there (done-Ends ([], p))
  ]

  pub climb-le :
      (fuel p n : ℕ) (r : List ℕ × ℕ) → p < db.next → climb db fuel p n ≡ done r → r.1 ≤ p
  unfolding climb
  climb-le zero p n r b h = elim (Bool-cases (ltb n (db.items p).num)) [
    | inl above ↦ absurd (fuel-ne-done (sym (rw above refl) ∙ h))
    | inr there ↦ stop-le p r (sym (rw there refl) ∙ h)
  ]
  climb-le (suc fuel) p n r b h = elim (Bool-cases (ltb n (db.items p).num)) [
    | inl above ↦
        let round : climb db (suc fuel) p n
            ≡ (expect (prev_of db p) >>= λ q. climb db fuel q n >>= push_front p) =
          rw above refl in
        let (q, up, h1) =
          >>=-eq-done (expect (prev_of db p)) (λ q. climb db fuel q n >>= push_front p)
            (sym round ∙ h) in
        let (r', below, h2) = >>=-eq-done (climb db fuel q n) (push_front p) h1 in
        let older = prev_of-older p q b (expect-eq-done (prev_of db p) up) in
        let low = climb-le fuel q n r' (omega (arith, older, b)) below in
        let e : ◌≡◌ {A = List ℕ × ℕ} (p ∷ r'.0, r'.1) r = eq_of_done h2 in
        subst (λ (s : List ℕ × ℕ). s.1 ≤ p) e (omega (arith, low, older))
    | inr there ↦ stop-le p r (sym (rw there refl) ∙ h)
  ]

  meet-Ends : (fuel p q : ℕ) → p < fuel → p < db.next → Ends (meet db fuel p q)
  unfolding meet
  meet-Ends zero p q h b = absurd (omega arith)
  meet-Ends (suc fuel) p q h b =
      elim (Bool-cases ((db.items p).block.previous == (db.items q).block.previous)) [
        | inl same ↦ rw same (done-Ends (p ∷ [], q ∷ []))
        | inr apart ↦ rw apart (
            >>=-Ends (expect (prev_of db p)) _ (expect-Ends (prev_of db p)) (λ p' up.
              let older = prev_of-older p p' b (expect-eq-done (prev_of db p) up) in
              >>=-Ends (expect (prev_of db q)) _ (expect-Ends (prev_of db q)) (λ q' up'.
                >>=-Ends (meet db fuel p' q') (push_both p q)
                  (meet-Ends fuel p' q' (omega (arith, older, h)) (omega (arith, older, b)))
                  (λ r e. done-Ends (p ∷ r.0, q ∷ r.1)))))
      ]

  -- In a well-formed database the loops of `fetch_branch_from` end, whatever ids it is given: as many
  -- rounds as items have been made are enough for each loop.
  pub fetch_branch_from-ends : (first second : ℕ) → fetch_branch_from db first second ≢ out_of_fuel
  unfolding fetch_branch_from
  fetch_branch_from-ends first second =
      >>=-Ends (expect (find_id db.items first db.index)) _ (expect-Ends _) (λ p found.
        >>=-Ends (expect (find_id db.items second db.index)) _ (expect-Ends _) (λ q found'.
          let (b, _) =
            find_id-found db.items first db.next p db.index v.index_below
              (expect-eq-done _ found) in
          let (b', _) =
            find_id-found db.items second db.next q db.index v.index_below
              (expect-eq-done _ found') in
          >>=-Ends (climb db db.next p (db.items q).num) _
            (climb-Ends db.next p (db.items q).num b b)
            (λ r climbed.
              >>=-Ends (climb db db.next q (db.items r.1).num) _
                (climb-Ends db.next q (db.items r.1).num b' b')
                (λ s climbed'.
                  let low = climb-le db.next p (db.items q).num r b climbed in
                  >>=-Ends (meet db db.next r.1 s.1) _
                    (meet-Ends db.next r.1 s.1 (omega (arith, low, b)) (omega (arith, low, b)))
                    (λ t e. done-Ends (r.0 ++ t.0, s.0 ++ t.1))))))
