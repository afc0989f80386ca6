-- ===== src/Utils/TokensBucket.antt =====
-- src/utils/tokens_bucket.hpp. The callback, which the owner of the bucket gives, is the parameter
-- `callback` of `add_token`: it acts on the owner's state and says whether a token may be added.
pub mod Bounds
use biboumi.Base.{ℕ, ◌+◌, ◌-◌, Bool, true, false, not, ◌&&◌, ltb, ◌==◌, if◌then◌else◌}

-- The `long int` limit: none when it is negative.
pub data Limit : Type 0 where
  negative : Limit
  at_most : ℕ → Limit

pub record TokensBucket : Type 0 where
  pub limit : Limit
  pub tokens : ℕ

-- `static_cast<std::size_t>(limit)` of the constructor: a negative limit wraps around.
unfoldable pub create : Limit → ℕ → TokensBucket
create negative wrapped = record { limit = negative; tokens = wrapped }
create (at_most n) wrapped = record { limit = at_most n; tokens = n }

unfoldable pub take_token : TokensBucket → TokensBucket × Bool
take_token b = if ltb 0 b.tokens then (record b { tokens = b.tokens - 1 }, true) else (b, false)

use_token_at : Limit → TokensBucket → TokensBucket × Bool
unfolding take_token
use_token_at negative b = (b, true)
use_token_at (at_most n) b = take_token b

unfoldable pub use_token : TokensBucket → TokensBucket × Bool
unfolding use_token_at
use_token b = use_token_at b.limit b

unfoldable pub set_limit : Limit → TokensBucket → TokensBucket
set_limit limit b = record b { limit = limit }

unfoldable pub refill : Bool → ℕ → TokensBucket → TokensBucket
refill allowed n b =
    if allowed && not (b.tokens == n) then record b { tokens = b.tokens + 1 } else b

-- With a negative limit the callback is not called.
add_token_at : {S : Type 0} → Limit → (S → S × Bool) → TokensBucket → S → TokensBucket × S
unfolding refill
add_token_at negative callback b s = (b, s)
add_token_at (at_most n) callback b s = let (s', allowed) = callback s in (refill allowed n b, s')

unfoldable pub add_token : {S : Type 0} → (S → S × Bool) → TokensBucket → S → TokensBucket × S
unfolding add_token_at
add_token callback b s = add_token_at b.limit callback b s
