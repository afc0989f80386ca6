-- ===== src/Xmpp/Jid.antt =====
-- src/xmpp/jid.cpp and the class `Jid` of src/xmpp/jid.hpp.
pub mod Domain
pub mod RoundTrip
use biboumi.Base.{
  ℕ, zero, suc, ◌-◌, Bool, true, false, not, ◌&&◌, ◌||◌, Option, none, some, List, [], ◌∷◌, ◌++◌,
  map, ltb, leb, ◌==◌, if◌then◌else◌, Bytes, codes, cut_at, has_char, is_empty, length, take,
  bytes_eq, lookup, insert,
}

pub record Jid : Type 0 where
  pub local : Bytes
  pub domain : Bytes
  pub resource : Bytes

abbrev pub with_resource : Bytes → Bytes → Jid
with_resource resource rest = elim (cut_at b'@' rest) [
  | none ↦ record { local = []; domain = rest; resource = resource }
  | some (local, domain) ↦ record { local = local; domain = domain; resource = resource }
]

-- `Jid(jid)`: the resource is what stands behind the first slash, and the local part what stands
-- before the first `@`, if that is in front of the slash.
unfoldable pub to_jid : Bytes → Jid
to_jid jid = elim (cut_at b'/' jid) [
  | none ↦ with_resource [] jid
  | some (rest, resource) ↦ with_resource resource rest
]

unfoldable pub bare : Jid → Bytes
bare j = j.local ++ b'@' ∷ j.domain

unfoldable pub full : Jid → Bytes
full j =
    (if is_empty j.local then j.domain else j.local ++ b'@' ∷ j.domain)
    ++ (if is_empty j.resource then [] else b'/' ∷ j.resource)

abbrev pub max_jid_part_len : ℕ
max_jid_part_len = 1023

-- The text of a buffer, up to the first null byte.
unfoldable pub c_string : Bytes → Bytes
c_string [] = []
c_string (c ∷ s) = let rest = c_string s in if c == 0 then [] else c ∷ rest

-- A part copied into a buffer of `max_jid_part_len` zeroes, read as a C string: `none` is a read
-- past the end of the buffer.
unfoldable pub part_buffer : Bytes → Option Bytes
unfolding c_string
part_buffer part =
    if ltb (length part) max_jid_part_len || has_char 0 (take max_jid_part_len part)
    then some (c_string part)
    else none

unfoldable pub is_domain_char : ℕ → Bool
is_domain_char c =
    (leb b'a' c && leb c b'z') || c == b'-' || (leb b'0' c && leb c b'9') || c == b'.'

-- `special_chars`
unfoldable pub is_special : ℕ → Bool
is_special c = c == b'-' || c == b'.'

unfoldable pub replace_chars : Bytes → Bytes
unfolding is_domain_char
replace_chars domain = map (λ c. if is_domain_char c then c else b'-') domain

-- `std::unique`, behind the character that was kept last.
unfoldable pub unique_after : ℕ → Bytes → Bytes
unfolding is_special
unique_after a [] = []
unique_after a (b ∷ s) =
    if is_special a && is_special b then unique_after a s else b ∷ unique_after b s

unfoldable pub unique : Bytes → Bytes
unfolding unique_after
unique [] = []
unique (a ∷ s) = a ∷ unique_after a s

unfoldable pub trim_end : Bytes → Bytes
unfolding is_special
trim_end [] = []
trim_end (c ∷ []) = if is_special c then [] else c ∷ []
trim_end (c ∷ d ∷ s) = c ∷ trim_end (d ∷ s)

unfoldable pub trim_start : Bytes → Bytes
unfolding is_special
trim_start [] = []
trim_start (c ∷ s) = if is_special c then s else c ∷ s

-- What `jidprep` does to a domain name after nameprep.
unfoldable pub clean_domain : Bytes → Bytes
unfolding replace_chars unique trim_end trim_start
clean_domain domain =
    let d = trim_start (trim_end (unique (replace_chars domain))) in
    if is_empty d then codes "empty" else d

-- The family of the address that `getaddrinfo` reads in a text, if it is a numeric one.
pub data Address : Type 0 where
  no_address ipv4 ipv6 : Address

-- libidn's `stringprep` with its three profiles, `none` an error, and `getaddrinfo`.
module _ (nodeprep nameprep resourceprep : Bytes → Option Bytes) (address : Bytes → Address) where
  -- `none` outside is memory that the code must not touch; `none` inside, an error of nameprep.
  unfoldable pub prepare_domain : Bytes → Option (Option Bytes)
  unfolding part_buffer clean_domain
  prepare_domain domain = elim (part_buffer domain) [
    | none ↦ none
    | some name ↦ elim (address name) [
      | no_address ↦ elim (nameprep name) [
        | none ↦ some none
        | some prepared ↦ some (some (clean_domain prepared))
      ]
      | ipv4 ↦ some (some name)
      | ipv6 ↦
          if ltb (length domain) (max_jid_part_len - 2)
            || (length domain == max_jid_part_len - 2 && has_char 0 domain)
          then some (some (c_string (b'[' ∷ domain ++ b']' ∷ [])))
          else none
    ]
  ]

  -- `none` inside is an error of stringprep.
  unfoldable pub prepare_resource : Bytes → Bytes → Bytes → Option (Option Bytes)
  unfolding part_buffer
  prepare_resource local domain resource = elim (part_buffer resource) [
    | none ↦ none
    | some text ↦ elim (resourceprep text) [
      | none ↦ some none
      | some prepared ↦ some (some (local ++ b'@' ∷ domain ++ b'/' ∷ prepared))
    ]
  ]

  unfoldable pub prepare : Jid → Option (Option Bytes)
  unfolding prepare_domain prepare_resource
  prepare jid = elim (part_buffer jid.local) [
    | none ↦ none
    | some text ↦ elim (nodeprep text) [
      | none ↦ some none
      | some local ↦ elim (prepare_domain jid.domain) [
        | none ↦ none
        | some none ↦ some none
        | some (some domain) ↦
            if is_empty jid.resource
            then some (some (local ++ b'@' ∷ domain))
            else prepare_resource local domain jid.resource
      ]
    ]
  ]

  -- The result and the cache, where a failure is the empty text.
  unfoldable pub jidprep : Bytes → List (Bytes × Bytes) → Option (Bytes × List (Bytes × Bytes))
  unfolding prepare to_jid
  jidprep original cache = elim (lookup original cache) [
    | some result ↦ some (result, cache)
    | none ↦ elim (prepare (to_jid original)) [
      | none ↦ none
      | some none ↦ some ([], insert original [] cache)
      | some (some result) ↦ some (result, insert original result cache)
    ]
  ]
