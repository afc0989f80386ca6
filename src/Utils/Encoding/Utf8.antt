-- ===== src/Utils/Encoding/Utf8.antt =====
-- What `remove_invalid_xml_chars` keeps.
use biboumi.Base.{◌≡◌, refl, true, some, [], ◌∷◌, arith, Bytes}
use biboumi.Utils.Encoding.{keeps4, remove_invalid_xml_chars}

-- Every sequence of four bytes is kept: twenty bits hold no codepoint above 0x10FFFF, so the test
-- that should remove those never fails.
pub keeps4-eq-true : (str : Bytes) → keeps4 str ≡ true
unfolding keeps4
keeps4-eq-true str = ground arith

-- So a codepoint out of the range of Unicode passes: U+110000 does.
keeps_above_unicode :
    remove_invalid_xml_chars (0xF4 ∷ 0x90 ∷ 0x80 ∷ 0x80 ∷ [])
    ≡ some (0xF4 ∷ 0x90 ∷ 0x80 ∷ 0x80 ∷ [])
unfolding remove_invalid_xml_chars
keeps_above_unicode = refl
