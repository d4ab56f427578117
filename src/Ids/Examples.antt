-- ===== src/Ids/Examples.antt =====
-- Packed ids at concrete values.
use bitshares_toolkit.Common.{ℕ, ◌+◌, ◌*◌, ◌^◌, ◌≤◌, ◌<◌, ◌≡◌, ◌⊎◌, none, some, arith}
use bitshares_toolkit.Ids.{object_id, space, type, instance_of}
use bitshares_toolkit.Ids.Packing.{object_id-parts}

-- The object 1.3.17.
object_id-parts_example :
    ((2 ^ 48 ≤ 17) × (object_id 1 3 17 ≡ none))
    ⊎ ((number : ℕ) × (object_id 1 3 17 ≡ some number)
        × (number < 2 ^ 64)
        × (space number ≡ 1)
        × (type number ≡ 3)
        × (instance_of number ≡ 17))
object_id-parts_example = object_id-parts 1 3 17 (omega arith) (omega arith)

abbrev asset_3 : ℕ
asset_3 = 2 ^ 56 + 4 * 2 ^ 48 + 3
