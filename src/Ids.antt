-- ===== src/Ids.antt =====
-- The packed ids: `object_id_type` of libraries/db/include/bts/db/object_id.hpp and `vote_id_type` of
-- libraries/chain/include/bts/chain/types.hpp. A shift is a product or a quotient by a power of two, a
-- mask of low bits a remainder, and `|` of values without a common bit a sum.
pub mod Packing
mod Examples
use bitshares_toolkit.Common.{
  ℕ, ◌+◌, ◌-◌, ◌*◌, ◌/◌, ◌%◌, ◌^◌, ◌==◌, Bool, Option, some, ◌>>=◌, ◌>>◌, fc_assert,
}

-- `object_id_type( uint8_t s, uint8_t t, uint64_t i )`, giving `number`.
unfoldable pub object_id : ℕ → ℕ → ℕ → Option ℕ
object_id s t i = do fc_assert (i / 2 ^ 48 == 0); some (s * 2 ^ 56 + t * 2 ^ 48 + i)

unfoldable pub space : ℕ → ℕ
space number = number / 2 ^ 56 % 2 ^ 8

unfoldable pub type : ℕ → ℕ
type number = number / 2 ^ 48 % 2 ^ 8

unfoldable pub space_type : ℕ → ℕ
space_type number = number / 2 ^ 48 % 2 ^ 16

unfoldable pub instance_of : ℕ → ℕ
instance_of number = number % 2 ^ 48

-- `vote_id_type( vote_type type, uint32_t instance )`, giving `content`; a type is below 2^8.
unfoldable pub vote_id : ℕ → ℕ → ℕ
vote_id t i = i * 2 ^ 8 % 2 ^ 32 + t

unfoldable pub vote_type : ℕ → ℕ
vote_type content = content % 2 ^ 8

unfoldable pub vote_instance : ℕ → ℕ
vote_instance content = content / 2 ^ 8

unfoldable pub set_type : ℕ → ℕ → ℕ
set_type content t = content - content % 2 ^ 8 + t % 2 ^ 8

unfoldable pub set_instance : ℕ → ℕ → ℕ
set_instance content i = content % 2 ^ 8 + i * 2 ^ 8 % 2 ^ 32
