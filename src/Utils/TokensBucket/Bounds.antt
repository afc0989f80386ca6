-- ===== src/Utils/TokensBucket/Bounds.antt =====
-- How many tokens the bucket holds.
use biboumi.Base.{ℕ, ◌+◌, ◌≤◌, ◌<◌, ◌≡◌, Bool, true, arith}
use biboumi.Utils.TokensBucket.{
  Limit, negative, at_most, TokensBucket, use_token, set_limit, add_token,
}

-- The tokens are no more than the limit, if there is one.
abbrev pub WithinAt : Limit → ℕ → Type 0
WithinAt negative t = Unit
WithinAt (at_most n) t = t ≤ n

abbrev pub Within : TokensBucket → Type 0
Within b = WithinAt b.limit b.tokens

use_token-WithinAt :
    (l : Limit) (t : ℕ) → WithinAt l t → Within (use_token (record { limit = l; tokens = t })).0
unfolding use_token
use_token-WithinAt negative t h = tt
use_token-WithinAt (at_most n) t h = ground arith

add_token-WithinAt :
    {S : Type 0} (callback : S → S × Bool) (l : Limit) (t : ℕ) (s : S)
    → WithinAt l t
    → Within (add_token callback (record { limit = l; tokens = t }) s).0
unfolding add_token
add_token-WithinAt callback negative t s h = tt
add_token-WithinAt callback (at_most n) t s h = ground arith

-- Taking a token, or running the timer with any callback, keeps the tokens within the limit.
pub tokens_bucket-Within :
    {S : Type 0} (callback : S → S × Bool) (b : TokensBucket) (s : S)
    → Within b
    → Within (use_token b).0 × Within (add_token callback b s).0
tokens_bucket-Within callback b s h =
    (use_token-WithinAt b.limit b.tokens h, add_token-WithinAt callback b.limit b.tokens s h)

-- A limit that is lowered below the tokens that are there bounds nothing any more: every run of
-- the timer that is allowed adds a token, for ever.
pub add_token_above :
    {S : Type 0} (callback : S → S × Bool) (n : ℕ) (b : TokensBucket) (s : S)
    → n < b.tokens
    → (callback s).1 ≡ true
    → (add_token callback (set_limit (at_most n) b) s).0.tokens ≡ b.tokens + 1
unfolding add_token set_limit
add_token_above callback n b s above allowed = ground arith
