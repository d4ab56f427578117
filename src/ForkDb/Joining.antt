-- ===== src/ForkDb/Joining.antt =====
-- `fetch_branch_from` succeeds for two blocks that descend from one.
use bitshares_toolkit.Common.{
  true, false, ℕ, zero, suc, ◌+◌, ◌==◌, ◌≤◌, ◌<◌, ◌≡◌, refl, sym, ◌∙◌, ap, Bool-cases, some, List,
  [], ◌∷◌, ◌++◌, inl, inr, ==_iff, arith, subst, ltb, ltb→lt, ltb→ge,
}
use bitshares_toolkit.ForkDb.{Hash, ForkDb, find_id, prev_of}
use bitshares_toolkit.ForkDb.Branches.{done, climb, meet, fetch_branch_from}
use bitshares_toolkit.ForkDb.Invariant.{IsForkDb, IsCounted}
use bitshares_toolkit.ForkDb.Steps.{find_id-found}
use bitshares_toolkit.ForkDb.Meeting.{prev_of-lem}

-- `k` links lead from `p` to `r`, past items that are alive.
abbrev pub Descends : ForkDb → ℕ → ℕ → ℕ → Type 0
Descends db zero p r = p ≡ r
Descends db (suc k) p r = (q : ℕ) × (prev_of db p ≡ some q) × Descends db k q r

meet_here :
    (db : ForkDb) (fuel p q : ℕ)
    → ((db.items p).block.previous == (db.items q).block.previous) ≡ true
    → meet db fuel p q ≡ done (p ∷ [], q ∷ [])
unfolding meet
meet_here db zero p q same = rw same refl
meet_here db (suc fuel) p q same = rw same refl

fetch_runs :
    (db : ForkDb) (first second p q p' q' : ℕ) (pushed pushed' firsts seconds : List ℕ)
    → find_id db.items first db.index ≡ some p
    → find_id db.items second db.index ≡ some q
    → climb db db.next p (db.items q).num ≡ done (pushed, p')
    → climb db db.next q (db.items p').num ≡ done (pushed', q')
    → meet db db.next p' q' ≡ done (firsts, seconds)
    → fetch_branch_from db first second ≡ done (pushed ++ firsts, pushed' ++ seconds)
unfolding fetch_branch_from
fetch_runs db first second p q p' q' pushed pushed' firsts seconds found found' run run' met =
    rw (found, found', run, run', met) refl

module _ (hash : Hash) (db : ForkDb) (v : IsForkDb hash db) (counted : IsCounted db) where
  Descends-num :
      (k p r : ℕ)
      → p < db.next
      → Descends db k p r
      → (k ≤ p) × (r ≤ p) × ((db.items p).num ≡ (db.items r).num + k)
  Descends-num zero p r b e =
      (omega arith, omega (arith, e), ap (λ q. (db.items q).num) e ∙ omega arith)
  Descends-num (suc k) p r b (q, up, d) =
      let (older, number) = prev_of-lem hash db v p q counted b up in
      let (long, low, sum) = Descends-num k q r (omega (arith, older, b)) d in
      (omega (arith, long, older), omega (arith, low, older), omega (arith, number, sum))

  -- Above an ancestor, `climb` ends at the number it is given, or at once.
  climb_joins :
      (fuel k p r n : ℕ)
      → p < db.next
      → k ≤ fuel
      → Descends db k p r
      → (db.items r).num ≤ n
      → (pushed : List ℕ) × (end j : ℕ) × (climb db fuel p n ≡ done (pushed, end))
        × (end < db.next)
        × (j ≤ k)
        × Descends db j end r
        × ((db.items end).num ≤ n)
        × (n ≤ (db.items p).num → (db.items end).num ≡ n)
  unfolding climb
  climb_joins zero k p r n b f d low =
      let (_, _, sum) = Descends-num k p r b d in
      let there : ltb n (db.items p).num ≡ false = ground (arith, sum, f, low) in
      (
        [],
        p,
        k,
        rw there refl,
        b,
        omega arith,
        d,
        ltb→ge _ _ there,
        λ h. omega (arith, h, ltb→ge n (db.items p).num there),
      )
  climb_joins (suc fuel) zero p r n b f d low =
      let (_, _, sum) = Descends-num zero p r b d in
      let there : ltb n (db.items p).num ≡ false = ground (arith, sum, low) in
      (
        [],
        p,
        zero,
        rw there refl,
        b,
        omega arith,
        d,
        ltb→ge _ _ there,
        λ h. omega (arith, h, ltb→ge n (db.items p).num there),
      )
  climb_joins (suc fuel) (suc k) p r n b f (q, up, d) low =
      elim (Bool-cases (ltb n (db.items p).num)) [
        | inl above ↦
            let (older, number) = prev_of-lem hash db v p q counted b up in
            let (pushed, end, j, run, b', short, d', low', exact) =
              climb_joins fuel k q r n (omega (arith, older, b)) (omega (arith, f)) d low in
            let high : n < (db.items p).num = ltb→lt _ _ above in
            (
              p ∷ pushed,
              end,
              j,
              rw (above, up, run) refl,
              b',
              omega (arith, short),
              d',
              low',
              λ h. exact (omega (arith, high, number)),
            )
        | inr there ↦ (
          [],
          p,
          suc k,
          rw there refl,
          b,
          omega arith,
          (q, up, d),
          ltb→ge _ _ there,
          λ h. omega (arith, h, ltb→ge n (db.items p).num there),
        )
      ]

  meet_joins :
      (fuel k p q r : ℕ)
      → k ≤ fuel
      → Descends db k p r
      → Descends db k q r
      → (firsts seconds : List ℕ) × (meet db fuel p q ≡ done (firsts, seconds))
  unfolding meet
  meet_joins fuel zero p q r f d e =
      let same : (db.items p).block.previous ≡ (db.items q).block.previous =
        ap (λ k. (db.items k).block.previous) (d ∙ sym e) in
      (p ∷ [], q ∷ [], meet_here db fuel p q ((==_iff _ _).1 same))
  meet_joins zero (suc k) p q r f d e = absurd (omega arith)
  meet_joins (suc fuel) (suc k) p q r f (p', up, d) (q', up', e) =
      elim (Bool-cases ((db.items p).block.previous == (db.items q).block.previous)) [
        | inl same ↦ (p ∷ [], q ∷ [], rw same refl)
        | inr apart ↦
            let (firsts, seconds, run) = meet_joins fuel k p' q' r (omega (arith, f)) d e in
            (p ∷ firsts, q ∷ seconds, rw (apart, up, up', run) refl)
      ]

  -- In a well-formed database where no number of a block has wrapped to 0, the branches of two known
  -- blocks from which links past live items lead to one item are found: no assertion fails and no loop runs out of fuel.
  pub fetch_branch_from-joins :
      (first second p q r i j : ℕ)
      → find_id db.items first db.index ≡ some p
      → find_id db.items second db.index ≡ some q
      → Descends db i p r
      → Descends db j q r
      → (firsts seconds : List ℕ) × (fetch_branch_from db first second ≡ done (firsts, seconds))
  unfolding fetch_branch_from
  fetch_branch_from-joins first second p q r i j found found' d e =
      let (b, _) = find_id-found db.items first db.next p db.index v.index_below found in
      let (b', _) = find_id-found db.items second db.next q db.index v.index_below found' in
      let (long, _, sum) = Descends-num i p r b d in
      let (long', _, sum') = Descends-num j q r b' e in
      let (pushed, p', i', run, bp, _, dp, low, _) =
        climb_joins db.next i p r (db.items q).num b (omega (arith, long, b)) d
          (omega (arith, sum')) in
      let (_, _, sump) = Descends-num i' p' r bp dp in
      let (pushed', q', j', run', bq, short, dq, _, exact) =
        climb_joins db.next j q r (db.items p').num b' (omega (arith, long', b')) e
          (omega (arith, sump)) in
      let (_, _, sumq) = Descends-num j' q' r bq dq in
      let level : j' ≡ i' = omega (arith, exact low, sump, sumq) in
      let (firsts, seconds, met) =
        meet_joins db.next i' p' q' r (omega (arith, level, short, long', b')) dp
          (subst (λ k. Descends db k q' r) level dq) in
      (
        pushed ++ firsts,
        pushed' ++ seconds,
        fetch_runs db first second p q p' q' pushed pushed' firsts seconds found found' run run'
            met,
      )
