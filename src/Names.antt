-- ===== src/Names.antt =====
-- The names and symbols of libraries/chain/operations.cpp: `is_valid_symbol`, `is_valid_name` and
-- `is_cheap_name`. A character is its code, a string the list of its characters; `return false`
-- out of a loop is `none`.
pub mod Symbols
pub mod Labels
mod Examples
use bitshares_toolkit.Common.{
  ℕ, ◌+◌, ◌==◌, Bool, true, false, ◌&&◌, ◌||◌, Option, some, none, List, [], ◌∷◌, length, ltb, leb,
  if◌then◌else◌,
}

abbrev pub dot : ℕ
dot = 46

abbrev pub dash : ℕ
dash = 45

abbrev pub slash : ℕ
slash = 47

abbrev pub space : ℕ
space = 32

-- `c >= 'A' && c <= 'Z'` and so on
unfoldable pub is_upper : ℕ → Bool
is_upper c = leb 65 c && leb c 90

unfoldable pub is_lower : ℕ → Bool
is_lower c = leb 97 c && leb c 122

unfoldable pub is_digit : ℕ → Bool
is_digit c = leb 48 c && leb c 57

-- The cases of the inner `switch`.
unfoldable pub is_slash : ℕ → Bool
is_slash c = c == slash

unfoldable pub is_dot_or_dash : ℕ → Bool
is_dot_or_dash c = c == dot || c == dash

abbrev pub is_separator : ℕ → Bool
is_separator c = is_slash c || is_dot_or_dash c

-- `prev == ' ' || prev == '.' || prev == '-' || prev == '/'`
unfoldable pub starts_label : ℕ → Bool
starts_label prev = prev == space || is_separator prev

unfoldable pub is_vowel : ℕ → Bool
is_vowel c = c == 97 || c == 101 || c == 105 || c == 111 || c == 117 || c == 121

-- `s.back()` of the string `c s`
abbrev pub back : ℕ → List ℕ → ℕ
back c [] = c
back c (d ∷ s) = back d s

-- The loop of `is_valid_symbol`, with the dots that it has counted.
unfoldable pub count_dots : List ℕ → ℕ → Option ℕ
count_dots [] n = some n
count_dots (c ∷ s) n =
    if c == dot then count_dots s (n + 1) else if is_upper c then count_dots s n else none

unfoldable pub is_valid_symbol : List ℕ → Bool
is_valid_symbol symbol =
    if ltb 17 (length symbol)
    then false
    else if ltb (length symbol) 3
    then false
    else elim (count_dots symbol 0) [
      | none ↦ false
      | some dot_count ↦ elim symbol [
        | [] ↦ false
        | c ∷ s ↦ if c == dot || back c s == dot then false else leb dot_count 1
      ]
    ]

-- The loop of `is_valid_name`, with the slashes that it has counted and the previous character: a
-- slash falls through to the test of the other separators.
unfoldable pub scan_name : List ℕ → ℕ → ℕ → Bool
scan_name [] num_slash prev = true
scan_name (c ∷ s) num_slash prev =
    let after = starts_label prev in
    let rest = scan_name s num_slash c in
    let rest_after_slash = scan_name s (num_slash + 1) c in
    if is_lower c
    then rest
    else if is_digit c
    then (if after then false else rest)
    else if is_slash c
    then (if ltb 1 (num_slash + 1) then false else if after then false else rest_after_slash)
    else if is_dot_or_dash c
    then (if after then false else rest)
    else false

unfoldable pub is_valid_name : List ℕ → Bool
is_valid_name s =
    if ltb (length s) 2
    then false
    else if leb 64 (length s)
    then false
    else if scan_name s 0 space
    then elim s [ [] ↦ true | c ∷ r ↦ if is_separator (back c r) then false else true ]
    else false

-- The loop of `is_cheap_name` with its flag `v`.
unfoldable pub scan_cheap : List ℕ → Bool → Bool
scan_cheap [] v = if v then false else true
scan_cheap (c ∷ s) v =
    let rest = scan_cheap s (if is_vowel c then true else v) in
    if is_digit c then true else if is_separator c then true else rest

unfoldable pub is_cheap_name : List ℕ → Bool
unfolding scan_cheap
is_cheap_name n = scan_cheap n false
