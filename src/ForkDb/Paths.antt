-- ===== src/ForkDb/Paths.antt =====
-- What `fetch_branch_from` returns: two branches that end in blocks with the same parent.
use bitshares_toolkit.Common.{
  true, ℕ, zero, suc, ◌==◌, ◌≡◌, refl, sym, ap, ◌∙◌, Bool-cases, Option, none, some, List, [], ◌∷◌,
  ◌++◌, inl, inr, ==_iff, subst, ltb,
}
use bitshares_toolkit.ForkDb.{Hash, ForkItem, ForkDb, find_id, is_alive, lock, prev_of}
use bitshares_toolkit.ForkDb.Branches.{
  Outcome, done, thrown, out_of_fuel, ◌>>=◌, expect, push_front, climb, push_both, meet,
  fetch_branch_from,
}
use bitshares_toolkit.ForkDb.Invariant.{IsForkDb}
use bitshares_toolkit.ForkDb.Steps.{find_id-found}

-- Each item is linked to the one after it.
abbrev pub Linked : (ℕ → ForkItem) → ℕ → List ℕ → Type 0
Linked items p [] = Unit
Linked items p (q ∷ qs) = ((items p).prev ≡ some q) × Linked items q qs

-- A branch that begins at `p`
abbrev pub From : (ℕ → ForkItem) → ℕ → List ℕ → Type 0
From items p [] = ⊥
From items p (q ∷ qs) = (p ≡ q) × Linked items q qs

abbrev pub last : List ℕ → Option ℕ
last [] = none
last (p ∷ []) = some p
last (p ∷ q ∷ qs) = last (q ∷ qs)

-- The branches end in blocks whose parent is the same block.
abbrev pub ShareParent : (ℕ → ForkItem) → List ℕ → List ℕ → Type 0
ShareParent items ps qs =
    (p q : ℕ) × (last ps ≡ some p)
    × (last qs ≡ some q)
    × ((items p).block.previous ≡ (items q).block.previous)

pub >>=-eq-done {ℓ κ} :
    {A : Type ℓ} {B : Type κ} (m : Outcome A) (f : A → Outcome B) {b : B}
    → (m >>= f) ≡ done b
    → (a : A) × (m ≡ done a) × (f a ≡ done b)
>>=-eq-done (done a) f h = (a, refl, h)
>>=-eq-done thrown f h = cc
>>=-eq-done out_of_fuel f h = cc

pub expect-eq-done {ℓ} : {A : Type ℓ} (o : Option A) {a : A} → expect o ≡ done a → o ≡ some a
expect-eq-done none h = cc
expect-eq-done (some a) h = cc

pub eq_of_done {ℓ} : {A : Type ℓ} {a b : A} → done a ≡ done b → a ≡ b
eq_of_done h = cc

none-ne-some : {q : ℕ} → ◌≡◌ {A = Option ℕ} none (some q) → ⊥
none-ne-some h = cc

pub lock-some : (db : ForkDb) (o : Option ℕ) (q : ℕ) → lock db o ≡ some q → o ≡ some q
lock-some db none q h = h
lock-some db (some p) q h = elim (Bool-cases (is_alive db p)) [
  | inl alive ↦ sym (rw alive refl) ∙ h
  | inr dead ↦ absurd (none-ne-some (sym (rw dead refl) ∙ h))
]

From-cons :
    (items : ℕ → ForkItem) (p q : ℕ) (ps : List ℕ)
    → (items p).prev ≡ some q
    → From items q ps
    → From items p (p ∷ ps)
From-cons items p q [] h f = absurd f
From-cons items p q (r ∷ rs) h f = (refl, (h ∙ ap some f.0, f.1))

last-cons : (p q : ℕ) (ps : List ℕ) → last ps ≡ some q → last (p ∷ ps) ≡ some q
last-cons p q [] h = cc
last-cons p q (r ∷ rs) h = h

pub fuel-ne-done {ℓ} : {A : Type ℓ} {a : A} → ◌≡◌ {A = Outcome A} out_of_fuel (done a) → ⊥
fuel-ne-done h = cc

reached-From :
    (items : ℕ → ForkItem) (p end : ℕ) (pushed rest : List ℕ)
    → ◌≡◌ {A = Outcome (List ℕ × ℕ)} (done ([], p)) (done (pushed, end))
    → From items end rest
    → From items p (pushed ++ rest)
reached-From items p end pushed rest h f =
    let e : ◌≡◌ {A = List ℕ × ℕ} ([], p) (pushed, end) = eq_of_done h in
    subst (λ (r : List ℕ × ℕ). From items r.1 rest → From items p (r.0 ++ rest)) e (λ f'. f') f

-- What `climb` pushes leads on to any branch from where it ends.
climb-From :
    (db : ForkDb) (fuel p n end : ℕ) (pushed rest : List ℕ)
    → climb db fuel p n ≡ done (pushed, end)
    → From db.items end rest
    → From db.items p (pushed ++ rest)
unfolding climb
climb-From db zero p n end pushed rest h f = elim (Bool-cases (ltb n (db.items p).num)) [
  | inl above ↦ absurd (fuel-ne-done (sym (rw above refl) ∙ h))
  | inr there ↦ reached-From db.items p end pushed rest (sym (rw there refl) ∙ h) f
]
climb-From db (suc fuel) p n end pushed rest h f = elim (Bool-cases (ltb n (db.items p).num)) [
  | inl above ↦
      let round : climb db (suc fuel) p n
          ≡ (expect (prev_of db p) >>= λ q. climb db fuel q n >>= push_front p) =
        rw above refl in
      let (q, up, h') =
        >>=-eq-done (expect (prev_of db p)) (λ q. climb db fuel q n >>= push_front p)
          (sym round ∙ h) in
      let ((pushed', end'), below, h'') = >>=-eq-done (climb db fuel q n) (push_front p) h' in
      let link = lock-some db (db.items p).prev q (expect-eq-done (prev_of db p) up) in
      let e : (p ∷ pushed', end') ≡ (pushed, end) = eq_of_done h'' in
      subst (λ (r : List ℕ × ℕ). From db.items r.1 rest → From db.items p (r.0 ++ rest)) e
        (λ f'.
          From-cons db.items p q (pushed' ++ rest) link
            (climb-From db fuel q n end' pushed' rest below f'))
        f
  | inr there ↦ reached-From db.items p end pushed rest (sym (rw there refl) ∙ h) f
]

abbrev Met : (ℕ → ForkItem) → ℕ → ℕ → List ℕ × List ℕ → Type 0
Met items p q r = From items p r.0 × From items q r.1 × ShareParent items r.0 r.1

Met-here :
    (items : ℕ → ForkItem) (p q : ℕ)
    → ((items p).block.previous == (items q).block.previous) ≡ true
    → Met items p q (p ∷ [], q ∷ [])
Met-here items p q h = ((refl, tt), (refl, tt), (p, q, refl, refl, (==_iff _ _).0 h))

Met-end :
    (items : ℕ → ForkItem) (p q : ℕ) (r : List ℕ × List ℕ)
    → ((items p).block.previous == (items q).block.previous) ≡ true
    → ◌≡◌ {A = Outcome (List ℕ × List ℕ)} (done (p ∷ [], q ∷ [])) (done r)
    → Met items p q r
Met-end items p q r same h =
    let e : ◌≡◌ {A = List ℕ × List ℕ} (p ∷ [], q ∷ []) r = eq_of_done h in
    subst (Met items p q) e (Met-here items p q same)

Met-both :
    (db : ForkDb) (p q p' q' : ℕ) (r : List ℕ × List ℕ)
    → prev_of db p ≡ some p'
    → prev_of db q ≡ some q'
    → Met db.items p' q' r
    → Met db.items p q (p ∷ r.0, q ∷ r.1)
Met-both db p q p' q' (ps, qs) hp hq (fp, fq, (a, b, la, lb, same)) = (
  From-cons db.items p p' ps (lock-some db (db.items p).prev p' hp) fp,
  From-cons db.items q q' qs (lock-some db (db.items q).prev q' hq) fq,
  (a, b, last-cons p a ps la, last-cons q b qs lb, same),
)

-- The loop over both branches pushes two linked branches, up to blocks with the same parent.
meet-Met :
    (db : ForkDb) (fuel p q : ℕ) (r : List ℕ × List ℕ)
    → meet db fuel p q ≡ done r
    → Met db.items p q r
unfolding meet
meet-Met db zero p q r h =
    elim (Bool-cases ((db.items p).block.previous == (db.items q).block.previous)) [
      | inl same ↦ Met-end db.items p q r same (sym (rw same refl) ∙ h)
      | inr apart ↦ absurd (fuel-ne-done (sym (rw apart refl) ∙ h))
    ]
meet-Met db (suc fuel) p q r h =
    elim (Bool-cases ((db.items p).block.previous == (db.items q).block.previous)) [
      | inl same ↦ Met-end db.items p q r same (sym (rw same refl) ∙ h)
      | inr apart ↦
          let round : meet db (suc fuel) p q ≡ (
              expect (prev_of db p) >>= λ p'.
              expect (prev_of db q) >>= λ q'. meet db fuel p' q' >>= push_both p q) =
            rw apart refl in
          let (p', up, h1) =
            >>=-eq-done (expect (prev_of db p))
              (λ p'. expect (prev_of db q) >>= λ q'. meet db fuel p' q' >>= push_both p q)
              (sym round ∙ h) in
          let (q', up', h2) =
            >>=-eq-done (expect (prev_of db q)) (λ q'. meet db fuel p' q' >>= push_both p q) h1 in
          let (r', rest, h3) = >>=-eq-done (meet db fuel p' q') (push_both p q) h2 in
          subst (Met db.items p q) (eq_of_done h3) (
            Met-both db p q p' q' r' (expect-eq-done (prev_of db p) up)
              (expect-eq-done (prev_of db q) up') (meet-Met db fuel p' q' r' rest))
    ]

last-append : (ps qs : List ℕ) (q : ℕ) → last qs ≡ some q → last (ps ++ qs) ≡ some q
last-append [] qs q h = h
last-append (p ∷ ps) qs q h = last-cons p q (ps ++ qs) (last-append ps qs q h)

-- In a well-formed database, branches that are fetched begin at items with the two ids, each item of
-- a branch is linked to the one after it, and the last items of both name the same previous block.
pub fetch_branch_from-From :
    (hash : Hash) (db : ForkDb) (first second : ℕ) (firsts seconds : List ℕ)
    → IsForkDb hash db
    → fetch_branch_from db first second ≡ done (firsts, seconds)
    → (p q : ℕ) × ((db.items p).id ≡ first)
      × ((db.items q).id ≡ second)
      × From db.items p firsts
      × From db.items q seconds
      × ShareParent db.items firsts seconds
unfolding fetch_branch_from
fetch_branch_from-From hash db first second firsts seconds v h =
    let (p, found, h1) = >>=-eq-done (expect (find_id db.items first db.index)) _ h in
    let (q, found', h2) = >>=-eq-done (expect (find_id db.items second db.index)) _ h1 in
    let ((pushed, p'), climbed, h3) = >>=-eq-done (climb db db.next p (db.items q).num) _ h2 in
    let ((pushed', q'), climbed', h4) = >>=-eq-done (climb db db.next q (db.items p').num) _ h3 in
    let ((rest, rest'), met, h5) = >>=-eq-done (meet db db.next p' q') _ h4 in
    let (from, from', (a, b, la, lb, same)) = meet-Met db db.next p' q' (rest, rest') met in
    let both : (pushed ++ rest, pushed' ++ rest') ≡ (firsts, seconds) = eq_of_done h5 in
    subst
      (λ (r : List ℕ × List ℕ).
        (p q : ℕ) × ((db.items p).id ≡ first)
        × ((db.items q).id ≡ second)
        × From db.items p r.0
        × From db.items q r.1
        × ShareParent db.items r.0 r.1)
      both
      (
        p,
        q,
        (find_id-found db.items first db.next p db.index v.index_below (expect-eq-done _ found)).1,
        (find_id-found db.items second db.next q db.index v.index_below
            (expect-eq-done _ found')).1,
        climb-From db db.next p (db.items q).num p' pushed rest climbed from,
        climb-From db db.next q (db.items p').num q' pushed' rest' climbed' from',
        (a, b, last-append pushed rest a la, last-append pushed' rest' b lb, same),
      )
