-- ===== src/Names/Examples.antt =====
-- Names and symbols as the functions read them, with the theorems of the modules applied to some.
use bitshares_toolkit.Common.{ℕ, ◌≡◌, refl, ◌↔◌, true, false, List, [], ◌∷◌}
use bitshares_toolkit.Names.{
  is_valid_name, scan_name, is_lower, is_digit, is_slash, is_dot_or_dash, starts_label,
}
use bitshares_toolkit.Names.Labels.{IsName, is_valid_name-IsName}

-- "ab/c"
abbrev ab_c : List ℕ
ab_c = 97 ∷ 98 ∷ 47 ∷ 99 ∷ []

-- "a/4"
abbrev a_4 : List ℕ
a_4 = 97 ∷ 47 ∷ 52 ∷ []

-- "A.B"
abbrev dotted : List ℕ
dotted = 65 ∷ 46 ∷ 66 ∷ []

name_accepted : is_valid_name ab_c ≡ true
unfolding is_valid_name scan_name is_lower is_digit is_slash is_dot_or_dash starts_label
name_accepted = refl

name_rejected : is_valid_name a_4 ≡ false
unfolding is_valid_name scan_name is_lower is_digit is_slash is_dot_or_dash starts_label
name_rejected = refl

is_valid_name-IsName_example : (is_valid_name ab_c ≡ true) ↔ IsName ab_c
is_valid_name-IsName_example = is_valid_name-IsName ab_c
