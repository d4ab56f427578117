-- ===== src/Names/Labels.antt =====
-- What `is_valid_name` accepts, as a grammar, and what `is_cheap_name` decides.
use bitshares_toolkit.Common.{
  ℕ, ◌+◌, ◌≤◌, ◌<◌, ◌≡◌, refl, ◌∙◌, ◌↔◌, ◌⊎◌, ◌≢◌, inl, inr, Bool, true, false, ◌||◌, not, List, [],
  ◌∷◌, length, ltb, if◌then◌else◌, arith,
}
use bitshares_toolkit.Names.{
  space, is_lower, is_digit, is_slash, is_dot_or_dash, starts_label, is_separator, is_vowel, back,
  scan_name, is_valid_name, scan_cheap, is_cheap_name,
}

-- Labels of lower case letters and digits that begin with a letter, with one separator between two
-- labels; `Labels true` where a label begins, `Labels false` inside one.
abbrev pub Labels : Bool → List ℕ → Type 0
Labels true [] = ⊥
Labels true (c ∷ s) = (is_lower c ≡ true) × Labels false s
Labels false [] = Unit
Labels false (c ∷ s) =
    (((is_lower c || is_digit c) ≡ true) × Labels false s)
    ⊎ ((is_separator c ≡ true) × Labels true s)

abbrev pub count_slashes : List ℕ → ℕ
count_slashes [] = 0
count_slashes (c ∷ s) = (if is_slash c then 1 else 0) + count_slashes s

-- A digit or a separator occurs; a vowel occurs.
abbrev pub any_marked : List ℕ → Bool
any_marked [] = false
any_marked (c ∷ s) = is_digit c || is_separator c || any_marked s

abbrev pub any_vowel : List ℕ → Bool
any_vowel [] = false
any_vowel (c ∷ s) = is_vowel c || any_vowel s

pub record IsName (s : List ℕ) : Type 0 where
  pub short : length s < 64
  pub long : 2 ≤ length s
  pub labels : Labels true s
  pub slashes : count_slashes s ≤ 1

-- The kinds of characters.
Kind : ℕ → Type 0
Kind c =
    (c ≡ space)
    ⊎ ((c ≢ space)
        × (starts_label c ≡ is_separator c)
        × (((is_lower c ≡ true)
              × (is_digit c ≡ false)
              × (is_slash c ≡ false)
              × (is_dot_or_dash c ≡ false))
            ⊎ ((is_lower c ≡ false)
                × (is_digit c ≡ true)
                × (is_slash c ≡ false)
                × (is_dot_or_dash c ≡ false))
            ⊎ ((is_lower c ≡ false)
                × (is_digit c ≡ false)
                × (is_slash c ≡ true)
                × (is_dot_or_dash c ≡ false))
            ⊎ ((is_lower c ≡ false) × (is_digit c ≡ false) × (is_slash c ≡ false))))

kinds : (c : ℕ) → Kind c
unfolding Kind is_lower is_digit is_slash is_dot_or_dash starts_label
kinds c = ground arith

space_lem :
    (c : ℕ)
    → c ≡ space
    → (is_lower c ≡ false)
      × (is_digit c ≡ false)
      × (is_slash c ≡ false)
      × (is_dot_or_dash c ≡ false)
unfolding is_lower is_digit is_slash is_dot_or_dash
space_lem c e = ground arith

-- One round of the loop, for each kind of character.
module _ (c : ℕ) (s : List ℕ) (n prev : ℕ) where
  scan_letter : is_lower c ≡ true → scan_name (c ∷ s) n prev ≡ scan_name s n c
  unfolding scan_name
  scan_letter l = rw l refl

  scan_digit :
      is_lower c ≡ false
      → is_digit c ≡ true
      → scan_name (c ∷ s) n prev ≡ (if starts_label prev then false else scan_name s n c)
  unfolding scan_name
  scan_digit l d = rw (l, d) refl

  scan_slash :
      is_lower c ≡ false
      → is_digit c ≡ false
      → is_slash c ≡ true
      → scan_name (c ∷ s) n prev ≡ (
          if ltb 1 (n + 1)
          then false
          else if starts_label prev
          then false
          else scan_name s (n + 1) c)
  unfolding scan_name
  scan_slash l d k = rw (l, d, k) refl

  scan_other :
      is_lower c ≡ false
      → is_digit c ≡ false
      → is_slash c ≡ false
      → scan_name (c ∷ s) n prev ≡ (
          if is_dot_or_dash c
          then (if starts_label prev then false else scan_name s n c)
          else false)
  unfolding scan_name
  scan_other l d k = rw (l, d, k) refl

  scan_space : c ≡ space → scan_name (c ∷ s) n prev ≡ false
  scan_space e = let (l, d, k, o) = space_lem c e in scan_other l d k ∙ rw o refl

slash_passes :
    (c : ℕ) (s : List ℕ) (n prev : ℕ)
    → is_lower c ≡ false
    → is_digit c ≡ false
    → is_slash c ≡ true
    → scan_name (c ∷ s) n prev ≡ true
    → (n ≡ 0) × (starts_label prev ≡ false) × (scan_name s (n + 1) c ≡ true)
slash_passes c s n prev l d k e = ground (arith, scan_slash c s n prev l d k)

scan_name-Labels :
    (s : List ℕ) (n prev : ℕ)
    → starts_label prev ≡ is_separator prev
    → n ≤ 1
    → scan_name s n prev ≡ true
    → is_separator (back prev s) ≡ false
    → Labels (is_separator prev) s × (n + count_slashes s ≤ 1)
unfolding Kind
scan_name-Labels [] n prev h k e b = ground arith
scan_name-Labels (c ∷ s) n prev h k e b = elim (kinds c) [
  | inl sp ↦ ground (arith, scan_space c s n prev sp)
  | inr (_, start, inl (l, d, sl, dd)) ↦
      ground (arith, scan_letter c s n prev l, scan_name-Labels s n c start k)
  | inr (_, start, inr (inl (l, d, sl, dd))) ↦
      ground (arith, scan_digit c s n prev l d, scan_name-Labels s n c start k)
  | inr (_, start, inr (inr (inl (l, d, sl, dd)))) ↦
      let (first, inside, rest) = slash_passes c s n prev l d sl e in
      let (labels, few) = scan_name-Labels s (n + 1) c start (omega (arith, first)) rest b in
      ground (arith, labels, few, inside)
  | inr (_, start, inr (inr (inr (l, d, sl)))) ↦
      ground (arith, scan_other c s n prev l d sl, scan_name-Labels s n c start k)
]

Labels-scan_name :
    (s : List ℕ) (n prev : ℕ)
    → starts_label prev ≡ is_separator prev
    → Labels (is_separator prev) s
    → n + count_slashes s ≤ 1
    → (scan_name s n prev ≡ true) × (is_separator (back prev s) ≡ false)
unfolding Kind scan_name
Labels-scan_name [] n prev h labels k = ground arith
Labels-scan_name (c ∷ s) n prev h labels k = elim (kinds c) [
  | inl sp ↦ ground (arith, space_lem c sp)
  | inr (_, start, inl (l, d, sl, dd)) ↦
      ground (arith, scan_letter c s n prev l, Labels-scan_name s n c start)
  | inr (_, start, inr (inl (l, d, sl, dd))) ↦
      ground (arith, scan_digit c s n prev l d, Labels-scan_name s n c start)
  | inr (_, start, inr (inr (inl (l, d, sl, dd)))) ↦
      ground (arith, scan_slash c s n prev l d sl, Labels-scan_name s (n + 1) c start)
  | inr (_, start, inr (inr (inr (l, d, sl)))) ↦
      ground (arith, scan_other c s n prev l d sl, Labels-scan_name s n c start)
]

letter_lem :
    (c : ℕ)
    → is_lower c ≡ true
    → (is_slash c ≡ false) × (is_dot_or_dash c ≡ false) × (starts_label c ≡ is_separator c)
unfolding is_lower is_slash is_dot_or_dash starts_label
letter_lem c l = ground arith

-- The first character is a letter.
scan_first :
    (c : ℕ) (r : List ℕ)
    → scan_name (c ∷ r) 0 space ≡ (if is_lower c then scan_name r 0 c else false)
unfolding scan_name starts_label
scan_first c r = ground arith

valid→IsName : (s : List ℕ) → is_valid_name s ≡ true → IsName s
unfolding is_valid_name
valid→IsName [] e = ground arith
valid→IsName (c ∷ r) e =
    let first = scan_first c r in
    let l : is_lower c ≡ true = ground arith in
    let (k, o, start) = letter_lem c l in
    let ends : is_separator (back c r) ≡ false = ground arith in
    let (labels, few) = scan_name-Labels r 0 c start (omega arith) (ground arith) ends in
    record {
      short = ground arith;
      long = ground arith;
      labels = ground (arith, labels);
      slashes = ground (arith, few);
    }

IsName→valid : (s : List ℕ) → IsName s → is_valid_name s ≡ true
unfolding is_valid_name
IsName→valid [] h = absurd h.labels
IsName→valid (c ∷ r) h =
    let (k, o, start) = letter_lem c h.labels.0 in
    let (scanned, ends) =
      Labels-scan_name r 0 c start (ground (arith, h.labels)) (ground (arith, h.slashes)) in
    ground (arith, scan_first c r, scanned, ends, h.labels, h.short, h.long)

-- A string is a valid name exactly if it has 2 to 63 characters, reads as labels of lower case
-- letters and digits, each beginning with a letter, with one separator (slash, dot or dash) between
-- two labels, and has at most one slash.
pub is_valid_name-IsName : (s : List ℕ) → (is_valid_name s ≡ true) ↔ IsName s
is_valid_name-IsName s = (valid→IsName s, IsName→valid s)

scan_cheap_lem : (s : List ℕ) (v : Bool) → scan_cheap s v ≡ (any_marked s || not (v || any_vowel s))
unfolding scan_cheap
scan_cheap_lem [] v = ground arith
scan_cheap_lem (c ∷ s) v = ground (arith, scan_cheap_lem s v, scan_cheap_lem s true)

-- A name is cheap exactly if it has a digit or a separator, or no vowel (y counts as a vowel).
pub is_cheap_name_lem : (s : List ℕ) → is_cheap_name s ≡ (any_marked s || not (any_vowel s))
unfolding is_cheap_name
is_cheap_name_lem s = scan_cheap_lem s false
