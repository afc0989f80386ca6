-- ===== src/Xmpp/Jid/Domain.antt =====
-- The host names that `jidprep` (xmpp/jid.cpp) makes.
use biboumi.Base.{
  ℕ, true, false, ◌&&◌, [], ◌∷◌, ◌≡◌, refl, inl, inr, arith, Bytes, codes, is_empty, All,
  Bool-cases,
}
use biboumi.Xmpp.Jid.{
  is_domain_char, is_special, replace_chars, unique, unique_after, trim_end, trim_start,
  clean_domain,
}

IsDomainChar : ℕ → Type 0
IsDomainChar c = is_domain_char c ≡ true

-- No two special characters in a row.
Spaced : ℕ → Bytes → Type 0
Spaced a [] = Unit
Spaced a (b ∷ s) = (is_special a && is_special b ≡ false) × Spaced b s

-- The same, and the last character is not special.
EndsWell : Bytes → Type 0
EndsWell [] = Unit
EndsWell (a ∷ []) = is_special a ≡ false
EndsWell (a ∷ b ∷ s) = (is_special a && is_special b ≡ false) × EndsWell (b ∷ s)

StartsWell : Bytes → Type 0
StartsWell [] = Unit
StartsWell (a ∷ s) = is_special a ≡ false

-- A host name: it is not empty, it has lower case letters, digits, dashes and dots only, it neither
-- starts nor ends with a dash or a dot, and no two of them are next to each other.
pub record IsHostname (s : Bytes) : Type 0 where
  chars : All IsDomainChar s
  start : StartsWell s
  spaced_and_end : EndsWell s
  some_char : is_empty s ≡ false

replace_chars-IsDomainChar : (s : Bytes) → All IsDomainChar (replace_chars s)
unfolding replace_chars IsDomainChar is_domain_char
replace_chars-IsDomainChar [] = tt
replace_chars-IsDomainChar (c ∷ s) = (ground arith, replace_chars-IsDomainChar s)

unique_after-IsDomainChar :
    (a : ℕ) (s : Bytes) → All IsDomainChar s → All IsDomainChar (unique_after a s)
unfolding unique_after
unique_after-IsDomainChar a [] h = tt
unique_after-IsDomainChar a (b ∷ s) h =
    ground (arith, unique_after-IsDomainChar a s h.1, unique_after-IsDomainChar b s h.1)

unique_after-Spaced : (a : ℕ) (s : Bytes) → Spaced a (unique_after a s)
unfolding unique_after Spaced
unique_after-Spaced a [] = tt
unique_after-Spaced a (b ∷ s) = elim (Bool-cases (is_special a && is_special b)) [
  | inl h ↦ rw h (unique_after-Spaced a s)
  | inr h ↦ rw h (h, unique_after-Spaced b s)
]

trim_end-IsDomainChar : (s : Bytes) → All IsDomainChar s → All IsDomainChar (trim_end s)
unfolding trim_end
trim_end-IsDomainChar [] h = tt
trim_end-IsDomainChar (c ∷ []) h = ground arith
trim_end-IsDomainChar (c ∷ d ∷ s) h = (h.0, trim_end-IsDomainChar (d ∷ s) h.1)

trim_end-EndsWell : (a : ℕ) (s : Bytes) → Spaced a s → EndsWell (trim_end (a ∷ s))
unfolding trim_end Spaced EndsWell
trim_end-EndsWell a [] h = ground arith
trim_end-EndsWell a (b ∷ []) h = ground arith
trim_end-EndsWell a (b ∷ c ∷ s) h = (h.0, trim_end-EndsWell b (c ∷ s) h.1)

trim_start-IsHostname :
    (s : Bytes)
    → All IsDomainChar s
    → EndsWell s
    → is_empty (trim_start s) ≡ false
    → IsHostname (trim_start s)
unfolding trim_start EndsWell StartsWell
trim_start-IsHostname [] h e n = ground arith
trim_start-IsHostname (a ∷ []) h e n =
    rw e (record { chars = h; start = e; spaced_and_end = e; some_char = refl })
trim_start-IsHostname (a ∷ b ∷ s) h e n = elim (Bool-cases (is_special a)) [
  | inl p ↦
      rw p (record { chars = h.1; start = ground arith; spaced_and_end = e.1; some_char = refl })
  | inr p ↦ rw p (record { chars = h; start = p; spaced_and_end = e; some_char = refl })
]

unique-IsDomainChar : (s : Bytes) → All IsDomainChar s → All IsDomainChar (unique s)
unfolding unique
unique-IsDomainChar [] h = tt
unique-IsDomainChar (a ∷ s) h = (h.0, unique_after-IsDomainChar a s h.1)

trimmed-EndsWell : (s : Bytes) → EndsWell (trim_end (unique s))
unfolding unique EndsWell trim_end
trimmed-EndsWell [] = tt
trimmed-EndsWell (a ∷ s) = trim_end-EndsWell a (unique_after a s) (unique_after-Spaced a s)

empty-IsHostname : IsHostname (codes "empty")
unfolding IsDomainChar is_domain_char is_special StartsWell EndsWell
empty-IsHostname = record {
  chars = (refl, (refl, (refl, (refl, (refl, tt)))));
  start = refl;
  spaced_and_end = (refl, (refl, (refl, (refl, refl))));
  some_char = refl;
}

-- Whatever nameprep leaves of a domain name, what `jidprep` makes of it is a host name.
pub clean_domain-IsHostname : (domain : Bytes) → IsHostname (clean_domain domain)
unfolding clean_domain
clean_domain-IsHostname domain =
    elim (Bool-cases (is_empty (trim_start (trim_end (unique (replace_chars domain)))))) [
      | inl h ↦ rw h empty-IsHostname
      | inr h ↦ rw h (
          trim_start-IsHostname (trim_end (unique (replace_chars domain)))
            (trim_end-IsDomainChar _ (unique-IsDomainChar _ (replace_chars-IsDomainChar domain)))
            (trimmed-EndsWell (replace_chars domain)) h)
    ]
