-- ===== src/Irc/Iid.antt =====
-- src/irc/iid.hpp and iid.cpp. `fixed` is the configuration's `fixed_irc_server`, empty if unset.
use biboumi.Base.{
  ℕ, Bool, true, false, not, ◌&&◌, ◌||◌, none, some, List, [], ◌∷◌, ◌++◌, if◌then◌else◌, Bytes,
  is_empty, has_char, cut_at,
}
use biboumi.Utils.Strings.{tolower}
use biboumi.Utils.Encoding.{encode, decode}

pub data IidType : Type 0 where
  channel user server no_type : IidType

pub record Iid : Type 0 where
  pub local : Bytes
  pub server_name : Bytes
  pub type : IidType

unfoldable pub empty_iid : Iid
empty_iid = record { local = []; server_name = []; type = server }

unfoldable pub set_local : Bytes → Iid → Iid
set_local loc iid = record iid { local = decode (tolower loc) }

unfoldable pub set_server : Bytes → Iid → Iid
set_server serv iid = record iid { server_name = tolower serv }

abbrev set_iid_type : IidType → Iid → Iid
set_iid_type t iid = record iid { type = t }

unfoldable pub init : Bytes → Bytes → Iid
unfolding set_local set_server
init fixed iid =
    if is_empty fixed
    then elim (cut_at b'%' iid) [
      | none ↦ set_iid_type server (set_server iid empty_iid)
      | some (loc, serv) ↦ set_iid_type channel (set_server serv (set_local loc empty_iid))
    ]
    else set_local iid (set_server fixed empty_iid)

abbrev local_type : List ℕ → Bytes → IidType → IidType
local_type chantypes [] t = t
local_type chantypes (c ∷ s) t = if has_char c chantypes then channel else user

unfoldable pub set_type : Bytes → List ℕ → Iid → Iid
set_type fixed chantypes iid =
    let t =
      if is_empty iid.local && (not (is_empty fixed) || is_empty iid.server_name)
      then no_type
      else iid.type in
    record iid { type = local_type chantypes iid.local t }

-- `Iid(iid, chantypes)`
unfoldable pub make_iid : Bytes → Bytes → List ℕ → Iid
unfolding init set_type
make_iid fixed iid chantypes = set_type fixed chantypes (init fixed iid)

unfoldable pub get_encoded_local : Iid → Bytes
get_encoded_local iid = encode iid.local

abbrev is_server : IidType → Bool
is_server server = true
is_server _ = false

-- `std::to_string(iid)`
unfoldable pub to_string : Bytes → Iid → Bytes
unfolding get_encoded_local
to_string fixed iid =
    if is_empty fixed
    then (if is_server iid.type
        then iid.server_name
        else if is_empty iid.local && is_empty iid.server_name
        then []
        else get_encoded_local iid ++ (b'%' ∷ iid.server_name))
    else get_encoded_local iid

abbrev pub to_tuple : Iid → Bytes × Bytes
to_tuple iid = (iid.local, iid.server_name)

-- An `Iid` that is given its two parts and the type of a channel, as the handlers do.
unfoldable pub channel_iid : Bytes → Bytes → Iid
unfolding set_local set_server empty_iid
channel_iid loc serv = set_iid_type channel (set_server serv (set_local loc empty_iid))
