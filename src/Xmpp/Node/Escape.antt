-- ===== src/Xmpp/Node/Escape.antt =====
-- What `xml_escape` promises.
use biboumi.Base.{
  ℕ, true, false, ◌||◌, [], ◌∷◌, ◌++◌, ◌==◌, ◌≡◌, arith, Bytes, codes, Bool-cases, inl, inr,
}
use biboumi.Xmpp.Node.{xml_escape}

-- How an XML reader takes the five predefined entities back: an `&` starts one of them.
pub data Unescapes : Bytes → Bytes → Type 0 where
  done : Unescapes [] []
  amp : {s t : Bytes} → Unescapes s t → Unescapes (codes "&amp;" ++ s) (b'&' ∷ t)
  lt : {s t : Bytes} → Unescapes s t → Unescapes (codes "&lt;" ++ s) (b'<' ∷ t)
  gt : {s t : Bytes} → Unescapes s t → Unescapes (codes "&gt;" ++ s) (b'>' ∷ t)
  quot : {s t : Bytes} → Unescapes s t → Unescapes (codes "&quot;" ++ s) (b'"' ∷ t)
  apos : {s t : Bytes} → Unescapes s t → Unescapes (codes "&apos;" ++ s) (b'\'' ∷ t)
  plain :
      {c : ℕ} {s t : Bytes}
      → (c == b'&' || c == b'<' || c == b'>' || c == b'"' || c == b'\'') ≡ false
      → Unescapes s t
      → Unescapes (c ∷ s) (c ∷ t)

eq_of_test : (c k : ℕ) → (c == k) ≡ true → c ≡ k
eq_of_test c k h = ground arith

-- An XML reader takes what `xml_escape` writes back to the text that was given; and none of the
-- five special characters is read as itself, so the text stays a text.
pub xml_escape-Unescapes : (s : Bytes) → Unescapes (xml_escape s) s
unfolding xml_escape
xml_escape-Unescapes [] = done
xml_escape-Unescapes (c ∷ s) = elim (Bool-cases (c == b'&')) [
  | inl e ↦ rw (eq_of_test c b'&' e) (amp (xml_escape-Unescapes s))
  | inr n1 ↦ elim (Bool-cases (c == b'<')) [
    | inl e ↦ rw (eq_of_test c b'<' e) (lt (xml_escape-Unescapes s))
    | inr n2 ↦ elim (Bool-cases (c == b'>')) [
      | inl e ↦ rw (eq_of_test c b'>' e) (gt (xml_escape-Unescapes s))
      | inr n3 ↦ elim (Bool-cases (c == b'"')) [
        | inl e ↦ rw (eq_of_test c b'"' e) (quot (xml_escape-Unescapes s))
        | inr n4 ↦ elim (Bool-cases (c == b'\'')) [
          | inl e ↦ rw (eq_of_test c b'\'' e) (apos (xml_escape-Unescapes s))
          | inr n5 ↦
              rw (n1, n2, n3, n4, n5) (plain (rw (n1, n2, n3, n4, n5)) (xml_escape-Unescapes s))
        ]
      ]
    ]
  ]
]
