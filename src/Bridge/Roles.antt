-- ===== src/Bridge/Roles.antt =====
-- `get_role_affiliation_from_irc_mode` of src/bridge/bridge.cpp.
use biboumi.Base.{ℕ, ◌||◌, ◌==◌, if◌then◌else◌, Bytes, codes}

-- The role and the affiliation.
unfoldable pub get_role_affiliation_from_irc_mode : ℕ → Bytes × Bytes
get_role_affiliation_from_irc_mode mode =
    if mode == b'a' || mode == b'q'
    then (codes "moderator", codes "owner")
    else if mode == b'o'
    then (codes "moderator", codes "admin")
    else if mode == b'h'
    then (codes "moderator", codes "member")
    else if mode == b'v'
    then (codes "participant", codes "member")
    else (codes "participant", codes "none")
