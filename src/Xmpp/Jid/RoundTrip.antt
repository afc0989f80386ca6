-- ===== src/Xmpp/Jid/RoundTrip.antt =====
-- Writing a `Jid` (xmpp/jid.hpp) and reading it.
use mathlib.Core.List.{append-nil}
use biboumi.Base.{
  false, ◌&&◌, [], ◌∷◌, ◌++◌, ◌≡◌, refl, ap, ◌∙◌, arith, if◌then◌else◌, Bytes, has_char,
  cut_at-append, cut_at-none, has_char-append, is_empty,
}
use biboumi.Xmpp.Jid.{Jid, to_jid, with_resource, full}

-- What reading can give back: no separator stands where it would be taken for another.
pub record IsPlain (j : Jid) : Type 0 where
  pub local_at : has_char b'@' j.local ≡ false
  pub local_slash : has_char b'/' j.local ≡ false
  pub domain_slash : has_char b'/' j.domain ≡ false
  pub domain_at : (is_empty j.local && has_char b'@' j.domain) ≡ false

address_of : Bytes → Bytes → Bytes
address_of local domain = if is_empty local then domain else local ++ b'@' ∷ domain

address_of-slash :
    (local domain : Bytes)
    → has_char b'/' local ≡ false
    → has_char b'/' domain ≡ false
    → has_char b'/' (address_of local domain) ≡ false
unfolding address_of has_char
address_of-slash local domain h k = ground (arith, has_char-append b'/' local (b'@' ∷ domain))

read_address :
    (local domain resource : Bytes)
    → has_char b'@' local ≡ false
    → (is_empty local && has_char b'@' domain) ≡ false
    → with_resource resource (address_of local domain)
      ≡ record { local = local; domain = domain; resource = resource }
unfolding address_of
read_address [] domain resource h k = rw (with_resource, cut_at-none b'@' domain k) refl
read_address (c ∷ local) domain resource h k =
    rw (with_resource, cut_at-append b'@' (c ∷ local) domain h) refl

no_slash : (s : Bytes) → has_char b'/' s ≡ false → to_jid s ≡ with_resource [] s
unfolding to_jid
no_slash s h = rw (to_jid, cut_at-none b'/' s h) refl

one_slash :
    (s resource : Bytes)
    → has_char b'/' s ≡ false
    → to_jid (s ++ b'/' ∷ resource) ≡ with_resource resource s
unfolding to_jid
one_slash s resource h = rw (to_jid, cut_at-append b'/' s resource h) refl

read_full :
    (local domain resource : Bytes)
    → IsPlain (record { local = local; domain = domain; resource = resource })
    → to_jid (full (record { local = local; domain = domain; resource = resource }))
      ≡ record { local = local; domain = domain; resource = resource }
unfolding to_jid full address_of
read_full local domain [] p =
    ap to_jid (append-nil (address_of local domain))
    ∙ no_slash (address_of local domain)
        (address_of-slash local domain p.local_slash p.domain_slash)
    ∙ read_address local domain [] p.local_at p.domain_at
read_full local domain (c ∷ resource) p =
    one_slash (address_of local domain) (c ∷ resource)
      (address_of-slash local domain p.local_slash p.domain_slash)
    ∙ read_address local domain (c ∷ resource) p.local_at p.domain_at

-- An address that is written in full is read back, if no separator stands in a part where it is
-- taken for the one of the address.
pub to_jid-full : (j : Jid) → IsPlain j → to_jid (full j) ≡ j
to_jid-full j p = read_full j.local j.domain j.resource p
