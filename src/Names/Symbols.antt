-- ===== src/Names/Symbols.antt =====
-- What `is_valid_symbol` accepts, as a grammar.
use bitshares_toolkit.Common.{
  ℕ, ◌+◌, ◌≤◌, ◌≡◌, refl, ◌↔◌, ◌⊎◌, ◌≢◌, inl, inr, true, false, some, List, [], ◌∷◌, ◌++◌, length,
  ◌==◌, arith, Option-cases, Bool-cases, ap, ◌∙◌,
}
use bitshares_toolkit.Names.{dot, is_upper, back, count_dots, is_valid_symbol}

abbrev pub Upper : List ℕ → Type 0
Upper [] = Unit
Upper (c ∷ s) = (is_upper c ≡ true) × Upper s

-- The words of a symbol, without their lengths.
abbrev pub TwoWords : List ℕ → Type 0
TwoWords s =
    (u : List ℕ) × (v : List ℕ) × (s ≡ u ++ dot ∷ v) × Upper u × Upper v × (u ≢ []) × (v ≢ [])

pub record IsSymbol (s : List ℕ) : Type 0 where
  pub long : 3 ≤ length s
  pub short : length s ≤ 17
  pub words : Upper s ⊎ TwoWords s

upper-dot : (c : ℕ) → is_upper c ≡ true → (c == dot) ≡ false
unfolding is_upper
upper-dot c u = ground arith

eq_dot : (c : ℕ) → (c == dot) ≡ true → c ≡ dot
eq_dot c e = ground arith

count_dots-ge : (s : List ℕ) (n m : ℕ) → count_dots s n ≡ some m → n ≤ m
unfolding count_dots
count_dots-ge [] n m e = ground arith
count_dots-ge (c ∷ s) n m e = ground (arith, count_dots-ge s n m, count_dots-ge s (n + 1) m)

-- No dot counted: all upper case.
count_dots-Upper : (s : List ℕ) (n : ℕ) → count_dots s n ≡ some n → Upper s
unfolding count_dots
count_dots-Upper [] n e = tt
count_dots-Upper (c ∷ s) n e = ground (arith, count_dots-Upper s n, count_dots-ge s (n + 1) n)

Upper-count_dots : (s : List ℕ) (n : ℕ) → Upper s → count_dots s n ≡ some n
unfolding count_dots
Upper-count_dots [] n u = refl
Upper-count_dots (c ∷ s) n u = ground (arith, Upper-count_dots s n, upper-dot c)

-- One dot counted: it parts two words.
count_dots-words :
    (s : List ℕ) (n : ℕ)
    → count_dots s n ≡ some (n + 1)
    → (u : List ℕ) × (v : List ℕ) × (s ≡ u ++ dot ∷ v) × Upper u × Upper v
unfolding count_dots
count_dots-words [] n e = ground arith
count_dots-words (c ∷ s) n e = elim (Bool-cases (c == dot)) [
  | inl is ↦
      ([], s, ap (λ d. d ∷ s) (eq_dot c is), tt, count_dots-Upper s (n + 1) (ground (arith, is)))
  | inr differs ↦
      let upper : is_upper c ≡ true = ground (arith, differs) in
      let (u, v, parts, hu, hv) = count_dots-words s n (ground (arith, differs, upper)) in
      (c ∷ u, v, ap (λ r. c ∷ r) parts, (upper, hu), hv)
]

words-count_dots :
    (u v : List ℕ) (n : ℕ) → Upper u → Upper v → count_dots (u ++ dot ∷ v) n ≡ some (n + 1)
unfolding count_dots
words-count_dots [] v n hu hv = Upper-count_dots v (n + 1) hv
words-count_dots (c ∷ u) v n hu hv =
    rw (upper-dot c hu.0, hu.0, count_dots) (words-count_dots u v n hu.1 hv)

back-Upper : (c : ℕ) (s : List ℕ) → is_upper c ≡ true → Upper s → is_upper (back c s) ≡ true
back-Upper c [] hc h = hc
back-Upper c (d ∷ s) hc h = back-Upper d s h.0 h.1

back-append : (c d : ℕ) (u v : List ℕ) → back c (u ++ d ∷ v) ≡ back d v
back-append c d [] v = refl
back-append c d (b ∷ u) v = back-append b d u v

two_words :
    (c : ℕ) (s u v : List ℕ)
    → c ∷ s ≡ u ++ dot ∷ v
    → (c == dot) ≡ false
    → (back c s == dot) ≡ false
    → (u ≢ []) × (v ≢ [])
two_words c s [] v parts first last = let same : c ≡ dot = cc parts in ground (arith, same, first)
two_words c s (a ∷ u) [] parts first last =
    let ends : back c s ≡ dot =
      ap (λ r. elim r [ [] ↦ dot | b ∷ t ↦ back b t ]) parts ∙ back-append a dot u [] in
    ground (arith, ends, last)
two_words c s (a ∷ u) (d ∷ v) parts first last = (λ e. cc, λ e. cc)

last-Upper :
    (c : ℕ) (s u v : List ℕ)
    → c ∷ s ≡ u ++ dot ∷ v
    → Upper u
    → Upper v
    → (u ≢ [])
    → (v ≢ [])
    → (is_upper c ≡ true) × (is_upper (back c s) ≡ true)
last-Upper c s [] v parts hu hv nu nv = absurd (nu refl)
last-Upper c s (a ∷ u) [] parts hu hv nu nv = absurd (nv refl)
last-Upper c s (a ∷ u) (d ∷ v) parts hu hv nu nv =
    let ends : back c s ≡ back d v =
      ap (λ r. elim r [ [] ↦ dot | b ∷ t ↦ back b t ]) parts ∙ back-append a dot u (d ∷ v) in
    let same : c ≡ a = cc parts in (rw same hu.0, rw ends (back-Upper d v hv.0 hv.1))

valid→IsSymbol : (s : List ℕ) → is_valid_symbol s ≡ true → IsSymbol s
unfolding is_valid_symbol
valid→IsSymbol [] e = ground arith
valid→IsSymbol (c ∷ s) e = elim (Option-cases (count_dots (c ∷ s) 0)) [
  | inl rejected ↦ ground (arith, rejected)
  | inr (n, counted) ↦
      let few : (n ≡ 0) ⊎ (n ≡ 1) = ground (arith, counted) in
      let first : (c == dot) ≡ false = ground (arith, counted) in
      let last : (back c s == dot) ≡ false = ground (arith, counted) in
      record {
        long = ground (arith, counted);
        short = ground (arith, counted);
        words = elim few [
          | inl zero_dots ↦ inl (count_dots-Upper (c ∷ s) 0 (cc (counted, zero_dots)))
          | inr one_dot ↦
              let (u, v, parts, hu, hv) = count_dots-words (c ∷ s) 0 (cc (counted, one_dot)) in
              let (nu, nv) = two_words c s u v parts first last in inr (u, v, parts, hu, hv, nu, nv)
        ];
      }
]

IsSymbol→valid : (s : List ℕ) → IsSymbol s → is_valid_symbol s ≡ true
unfolding is_valid_symbol
IsSymbol→valid [] h = ground (arith, h.long)
IsSymbol→valid (c ∷ s) h = elim h.words [
  | inl upper ↦
      let counted = Upper-count_dots (c ∷ s) 0 upper in
      let last = upper-dot (back c s) (back-Upper c s upper.0 upper.1) in
      ground (arith, counted, upper-dot c upper.0, last, h.long, h.short)
  | inr (u, v, parts, hu, hv, nu, nv) ↦
      let counted : count_dots (c ∷ s) 0 ≡ some 1 = rw parts (words-count_dots u v 0 hu hv) in
      let (first, last) = last-Upper c s u v parts hu hv nu nv in
      ground (arith, counted, upper-dot c first, upper-dot (back c s) last, h.long, h.short)
]

-- A string is a valid symbol exactly if it has 3 to 17 characters and is one word of upper case
-- letters, or two such words, neither of them empty, with a dot between them.
pub is_valid_symbol-IsSymbol : (s : List ℕ) → (is_valid_symbol s ≡ true) ↔ IsSymbol s
is_valid_symbol-IsSymbol s = (valid→IsSymbol s, IsSymbol→valid s)
