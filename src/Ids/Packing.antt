-- ===== src/Ids/Packing.antt =====
-- Packing and unpacking of ids.
use bitshares_toolkit.Common.{
  ℕ, ◌+◌, ◌*◌, ◌/◌, ◌%◌, ◌^◌, ◌==◌, ◌≤◌, ◌<◌, ◌≡◌, ◌⊎◌, refl, some, none, arith, true, Bool-cases,
  inl, inr, ap, ==_iff,
}
use bitshares_toolkit.Ids.{
  object_id, space, type, instance_of, vote_type, vote_instance, set_type, set_instance,
}

-- An object id made of a space and a type of 8 bits and any instance: an instance of more than 48
-- bits throws, and any other gives a 64-bit number from which the three parts are read back.
pub object_id-parts :
    (s t i : ℕ)
    → s < 2 ^ 8
    → t < 2 ^ 8
    → ((2 ^ 48 ≤ i) × (object_id s t i ≡ none))
      ⊎ ((number : ℕ) × (object_id s t i ≡ some number)
          × (number < 2 ^ 64)
          × (space number ≡ s)
          × (type number ≡ t)
          × (instance_of number ≡ i))
unfolding object_id space type instance_of
object_id-parts s t i hs ht = elim (Bool-cases (i / 2 ^ 48 == 0)) [
  | inl small ↦
      let fits : i < 2 ^ 48 = ground (arith, small) in
      inr (
        s * 2 ^ 56 + t * 2 ^ 48 + i,
        rw small refl,
        omega (arith, hs, ht, fits),
        omega (arith, hs, ht, fits),
        omega (arith, hs, ht, fits),
        omega (arith, hs, ht, fits),
      )
  | inr large ↦ inl (ground (arith, large), rw large refl)
]

-- Every 64-bit number is the object id of its own parts.
pub object_id-of_parts :
    (number : ℕ)
    → number < 2 ^ 64
    → object_id (space number) (type number) (instance_of number) ≡ some number
unfolding object_id space type instance_of
object_id-of_parts number h =
    let fits : (number % 2 ^ 48 / 2 ^ 48 == 0) ≡ true = (==_iff _ _).1 (omega arith) in
    rw fits (ap some (omega (arith, h)))

-- Setting the type or the instance of a 32-bit vote id sets that part, if it fits 8 or 24 bits, leaves
-- the other part as it was, and gives a 32-bit vote id.
pub vote_id-setters :
    (content t i : ℕ)
    → content < 2 ^ 32
    → t < 2 ^ 8
    → i < 2 ^ 24
    → (vote_type (set_type content t) ≡ t)
      × (vote_instance (set_type content t) ≡ vote_instance content)
      × (vote_instance (set_instance content i) ≡ i)
      × (vote_type (set_instance content i) ≡ vote_type content)
      × (set_type content t < 2 ^ 32)
      × (set_instance content i < 2 ^ 32)
unfolding set_type set_instance vote_type vote_instance
vote_id-setters content t i h ht hi = omega (arith, h, ht, hi)
