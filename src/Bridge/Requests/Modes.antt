-- ===== src/Bridge/Requests/Modes.antt =====
-- The mode command of a change of affiliation or role (bridge/bridge.cpp).
use mathlib.Core.Path.{subst}
use biboumi.Base.{
  ℕ, zero, suc, ◌+◌, ◌<◌, length, is_empty, sym, ◌∙◌, Bool, true, false, ◌&&◌, ◌||◌, Option, none,
  some, List, [], ◌∷◌, ◌++◌, ◌≡◌, refl, ap, arith, ◌==◌, if◌then◌else◌, Bytes, codes, eq_bytes,
  has_char, Bool-cases, inl, inr, All,
}
use mathlib.Core.List.{append_assoc, append-nil}
use biboumi.Irc.Iid.{Iid}
use biboumi.Client.Send.{send_mode_command}
use biboumi.Bridge.Roles.{get_role_affiliation_from_irc_mode}
use biboumi.Bridge.Waiting.{Waiting, add_waiting_irc}
use biboumi.Bridge.Requests.{wanted_modes, remove_modes, repeat_nick, change_modes}

abbrev is_sign : ℕ → Bool
is_sign c = c == b'+' || c == b'-'

-- How many modes a mode string has: those are the arguments that it takes.
letters : Bytes → ℕ
letters [] = 0
letters (c ∷ s) = if is_sign c then letters s else suc (letters s)

starts_with_mode : ℕ → Bytes → Bool
starts_with_mode mode [] = false
starts_with_mode mode (c ∷ s) = c == mode

-- Whether a mode string takes a mode away.
takes_away : ℕ → Bytes → Bool
takes_away mode [] = false
takes_away mode (c ∷ s) = (c == b'-' && starts_with_mode mode s) || takes_away mode s

letters-append : (s t : Bytes) → letters (s ++ t) ≡ letters s + letters t
unfolding letters
letters-append [] t = omega arith
letters-append (c ∷ s) t = ground (arith, letters-append s t)

IsLetter : ℕ → Type 0
IsLetter c = is_sign c ≡ false

remove_modes-letters :
    (to_remove : Bytes) (has : List ℕ) (modes : Bytes) (nb : ℕ)
    → All IsLetter to_remove
    → letters modes ≡ nb
    → letters (remove_modes to_remove has (modes, nb)).0
      ≡ (remove_modes to_remove has (modes, nb)).1
unfolding remove_modes IsLetter letters
remove_modes-letters [] has modes nb h e = e
remove_modes-letters (mode ∷ to_remove) has modes nb h e = elim (Bool-cases (has_char mode has)) [
  | inl b ↦
      rw (b, remove_modes)
        (remove_modes-letters to_remove has (modes ++ b'-' ∷ mode ∷ []) (suc nb) h.1
          (ground (arith, letters-append modes (b'-' ∷ mode ∷ []), h.0)))
  | inr b ↦ rw (b, remove_modes) (remove_modes-letters to_remove has modes nb h.1 e)
]

starts_with_mode-append :
    (mode : ℕ) (s t : Bytes)
    → starts_with_mode mode s ≡ true
    → starts_with_mode mode (s ++ t) ≡ true
unfolding starts_with_mode
starts_with_mode-append mode [] t h = ground arith
starts_with_mode-append mode (c ∷ s) t h = h

takes_away-append :
    (mode : ℕ) (s t : Bytes) → takes_away mode s ≡ true → takes_away mode (s ++ t) ≡ true
unfolding takes_away
takes_away-append mode [] t h = ground arith
takes_away-append mode (c ∷ s) t h =
    ground (arith, takes_away-append mode s t, starts_with_mode-append mode s t)

takes_away-behind :
    (mode : ℕ) (s t : Bytes) → takes_away mode t ≡ true → takes_away mode (s ++ t) ≡ true
unfolding takes_away
takes_away-behind mode [] t h = h
takes_away-behind mode (c ∷ s) t h = ground (arith, takes_away-behind mode s t h)

remove_modes-keeps :
    (mode : ℕ) (to_remove : Bytes) (has : List ℕ) (modes : Bytes) (nb : ℕ)
    → takes_away mode modes ≡ true
    → takes_away mode (remove_modes to_remove has (modes, nb)).0 ≡ true
unfolding remove_modes
remove_modes-keeps mode [] has modes nb h = h
remove_modes-keeps mode (m ∷ to_remove) has modes nb h = elim (Bool-cases (has_char m has)) [
  | inl b ↦
      rw (b, remove_modes)
        (remove_modes-keeps mode to_remove has (modes ++ b'-' ∷ m ∷ []) (suc nb)
          (takes_away-append mode modes (b'-' ∷ m ∷ []) h))
  | inr b ↦ rw (b, remove_modes) (remove_modes-keeps mode to_remove has modes nb h)
]

same_char : (m mode : ℕ) (has : List ℕ) → (m == mode) ≡ true → has_char m has ≡ has_char mode has
same_char m mode has e = ap (λ z. has_char z has) (ground arith)

taken : (m mode : ℕ) → (m == mode) ≡ true → takes_away mode (b'-' ∷ m ∷ []) ≡ true
unfolding takes_away starts_with_mode
taken m mode e = rw e refl

other_mode :
    (m mode : ℕ) (to_remove : Bytes) (has : List ℕ)
    → has_char m has ≡ false
    → has_char mode (m ∷ to_remove) ≡ true
    → has_char mode has ≡ true
    → has_char mode to_remove ≡ true
unfolding has_char
other_mode m mode to_remove has b h k = elim (Bool-cases (m == mode)) [
  | inl e ↦ ground (arith, same_char m mode has e)
  | inr e ↦ ground arith
]

remove_modes-takes_away :
    (mode : ℕ) (to_remove : Bytes) (has : List ℕ) (modes : Bytes) (nb : ℕ)
    → has_char mode to_remove ≡ true
    → has_char mode has ≡ true
    → takes_away mode (remove_modes to_remove has (modes, nb)).0 ≡ true
unfolding remove_modes has_char
remove_modes-takes_away mode [] has modes nb h k = ground arith
remove_modes-takes_away mode (m ∷ to_remove) has modes nb h k = elim (Bool-cases (has_char m has)) [
  | inl b ↦
      rw (b, remove_modes)
        (elim (Bool-cases (m == mode)) [
          | inl e ↦
              remove_modes-keeps mode to_remove has (modes ++ b'-' ∷ m ∷ []) (suc nb)
                (takes_away-behind mode modes (b'-' ∷ m ∷ []) (taken m mode e))
          | inr e ↦
              remove_modes-takes_away mode to_remove has (modes ++ b'-' ∷ m ∷ []) (suc nb)
                (ground arith) k
        ])
  | inr b ↦
      rw (b, remove_modes)
        (remove_modes-takes_away mode to_remove has modes nb (other_mode m mode to_remove has b h k)
          k)
]

-- The modes of a user in a channel, from voice to owner.
mode_rank : ℕ → ℕ
mode_rank mode =
    if mode == b'v'
    then 1
    else if mode == b'h'
    then 2
    else if mode == b'o'
    then 3
    else if mode == b'a'
    then 4
    else if mode == b'q'
    then 5
    else 0

-- The rank of the mode that a mode string starts to give, 0 where it gives none.
given_rank : Bytes → ℕ
given_rank [] = 0
given_rank (sign ∷ []) = 0
given_rank (sign ∷ mode ∷ s) = if sign == b'+' then mode_rank mode else 0

-- The mode that a mode string starts to give, 0 where it gives none.
pub given_mode : Bytes → ℕ
given_mode [] = 0
given_mode (sign ∷ []) = 0
given_mode (sign ∷ mode ∷ s) = if sign == b'+' then mode else 0

-- A user with that mode is shown with the affiliation, or with the role.
pub IsShown : Bytes → Bytes → ℕ → Type 0
IsShown affiliation role mode =
    let (shown_role, shown_affiliation) = get_role_affiliation_from_irc_mode mode in
    (eq_bytes affiliation shown_affiliation || eq_bytes role shown_role) ≡ true

-- The arguments of a MODE command for a user who has some modes, where `start` is what is wanted.
pub record IsModeString (nick has start modes : Bytes) (nicks : List Bytes) : Type 0 where
  gives : (removed : Bytes) × (modes ≡ start ++ removed)
  repeated : letters modes ≡ length nicks
  is_nick : All (λ n. n ≡ nick) nicks
  superior_gone :
      (mode : ℕ)
      → given_rank start < mode_rank mode
      → has_char mode has ≡ true
      → takes_away mode modes ≡ true

remove_modes-gives :
    (to_remove : Bytes) (has : List ℕ) (start modes : Bytes) (nb : ℕ)
    → (removed : Bytes) × (modes ≡ start ++ removed)
    → (removed : Bytes) × ((remove_modes to_remove has (modes, nb)).0 ≡ start ++ removed)
unfolding remove_modes
remove_modes-gives [] has start modes nb h = h
remove_modes-gives (m ∷ to_remove) has start modes nb (removed, e) =
    elim (Bool-cases (has_char m has)) [
      | inl b ↦
          rw (b, remove_modes)
            (remove_modes-gives to_remove has start (modes ++ b'-' ∷ m ∷ []) (suc nb)
              (removed ++ b'-' ∷ m ∷ [], rw e (append_assoc start removed (b'-' ∷ m ∷ []))))
      | inr b ↦ rw (b, remove_modes) (remove_modes-gives to_remove has start modes nb (removed, e))
    ]

length-repeat_nick : (n : ℕ) (nick : Bytes) → length (repeat_nick n nick) ≡ n
unfolding repeat_nick
length-repeat_nick zero nick = refl
length-repeat_nick (suc n) nick = omega (arith, length-repeat_nick n nick)

repeat_nick-All : (n : ℕ) (nick : Bytes) → All (λ m. m ≡ nick) (repeat_nick n nick)
unfolding repeat_nick
repeat_nick-All zero nick = tt
repeat_nick-All (suc n) nick = (refl, repeat_nick-All n nick)

-- What is wanted for an affiliation or role, with the modes that are looked for.
record IsBalanced (wanted : Bytes × ℕ × Bytes) : Type 0 where
  are_letters : All IsLetter wanted.2
  start : letters wanted.0 ≡ wanted.1
  superior : (mode : ℕ) → given_rank wanted.0 < mode_rank mode → has_char mode wanted.2 ≡ true

-- The affiliations and roles that are known.
IsAllBalanced : Option (Bytes × ℕ × Bytes) → Type 0
IsAllBalanced none = Unit
IsAllBalanced (some wanted) = IsBalanced wanted

if-IsAllBalanced :
    (b : Bool) (x y : Option (Bytes × ℕ × Bytes))
    → IsAllBalanced x
    → IsAllBalanced y
    → IsAllBalanced (if b then x else y)
if-IsAllBalanced true x y p q = p
if-IsAllBalanced false x y p q = q

none-IsAllBalanced : IsAllBalanced none
unfolding IsAllBalanced
none-IsAllBalanced = tt

none_modes : IsAllBalanced (some ([], 0, codes "vhoaq"))
unfolding IsAllBalanced IsLetter letters mode_rank given_rank has_char
none_modes = record {
  are_letters = (refl, (refl, (refl, (refl, (refl, tt)))));
  start = refl;
  superior = λ mode h. ground arith;
}

member_modes : IsAllBalanced (some (codes "+v", 1, codes "hoaq"))
unfolding IsAllBalanced IsLetter letters mode_rank given_rank has_char
member_modes = record {
  are_letters = (refl, (refl, (refl, (refl, tt))));
  start = refl;
  superior = λ mode h. ground arith;
}

moderator_modes : IsAllBalanced (some (codes "+h", 1, codes "oaq"))
unfolding IsAllBalanced IsLetter letters mode_rank given_rank has_char
moderator_modes = record {
  are_letters = (refl, (refl, (refl, tt)));
  start = refl;
  superior = λ mode h. ground arith;
}

admin_modes : IsAllBalanced (some (codes "+o", 1, codes "aq"))
unfolding IsAllBalanced IsLetter letters mode_rank given_rank has_char
admin_modes = record {
  are_letters = (refl, (refl, tt));
  start = refl;
  superior = λ mode h. ground arith;
}

owner_modes : IsAllBalanced (some (codes "+a", 1, codes "q"))
unfolding IsAllBalanced IsLetter letters mode_rank given_rank has_char
owner_modes = record { are_letters = (refl, tt); start = refl; superior = λ mode h. ground arith }

wanted_modes-IsAllBalanced :
    (affiliation role : Bytes) → IsAllBalanced (wanted_modes affiliation role)
unfolding wanted_modes
wanted_modes-IsAllBalanced affiliation role =
    search
      (
        if-IsAllBalanced, none-IsAllBalanced, none_modes, member_modes, moderator_modes,
        admin_modes, owner_modes,
      )
      depth 12

Shows : Bytes → Bytes → Option (Bytes × ℕ × Bytes) → Type 0
Shows affiliation role none = Unit
Shows affiliation role (some wanted) = IsShown affiliation role (given_mode wanted.0)

if-Shows :
    (affiliation role : Bytes) (b : Bool) (x y : Option (Bytes × ℕ × Bytes))
    → (b ≡ true → Shows affiliation role x)
    → Shows affiliation role y
    → Shows affiliation role (if b then x else y)
if-Shows affiliation role true x y p q = p refl
if-Shows affiliation role false x y p q = q

wanted_modes-Shows :
    (affiliation role : Bytes) → Shows affiliation role (wanted_modes affiliation role)
unfolding wanted_modes Shows IsShown given_mode get_role_affiliation_from_irc_mode
wanted_modes-Shows affiliation role =
    if-Shows affiliation role (eq_bytes affiliation (codes "none")) (some ([], 0, codes "vhoaq")) _
      (λ e. ground arith)
      (if-Shows affiliation role (eq_bytes affiliation (codes "member"))
        (some (codes "+v", 1, codes "hoaq")) _ (λ e. ground arith)
        (if-Shows affiliation role (eq_bytes role (codes "moderator"))
          (some (codes "+h", 1, codes "oaq")) _ (λ e. ground arith)
          (if-Shows affiliation role (eq_bytes affiliation (codes "admin"))
            (some (codes "+o", 1, codes "aq")) _ (λ e. ground arith)
            (if-Shows affiliation role (eq_bytes affiliation (codes "owner"))
              (some (codes "+a", 1, codes "q")) _ (λ e. ground arith) tt))))

remove_modes-IsModeString :
    (nick : Bytes) (has : List ℕ) (wanted : Bytes × ℕ × Bytes)
    → IsBalanced wanted
    → let (modes, nb) = remove_modes wanted.2 has (wanted.0, wanted.1) in
      IsModeString nick has wanted.0 modes (repeat_nick nb nick)
remove_modes-IsModeString nick has (start, nb, to_remove) good = record {
  gives = remove_modes-gives to_remove has start start nb ([], sym (append-nil start));
  repeated =
      remove_modes-letters to_remove has start nb good.are_letters good.start
      ∙ sym (length-repeat_nick _ nick);
  is_nick = repeat_nick-All _ nick;
  superior_gone =
      λ mode h k. remove_modes-takes_away mode to_remove has start nb (good.superior mode h) k;
}

-- The MODE command of a change to an affiliation or role that is known: it starts with the mode
-- that is wanted, and a user who has that mode is shown with the affiliation or with the role. It
-- has as many modes as the nick is repeated behind it, and it takes away each mode of the user that
-- ranks above the wanted one, in the order voice, half-operator, operator, admin, owner. Nothing is
-- sent if there is no mode to give or to take away.
pub change_modes-IsModeString :
    (iid : Iid) (from nick id affiliation role : Bytes) (has : List ℕ) (wanted : Bytes × ℕ × Bytes)
    (s : Waiting)
    → wanted_modes affiliation role ≡ some wanted
    → (modes : Bytes) × (nicks : List Bytes) × IsModeString nick has wanted.0 modes nicks
      × IsShown affiliation role (given_mode wanted.0)
      × ((change_modes iid from nick id has (wanted_modes affiliation role) s).world ≡ (
          if is_empty modes then s.world else send_mode_command iid.local (modes ∷ nicks) s.world))
unfolding change_modes add_waiting_irc IsAllBalanced Shows
change_modes-IsModeString iid from nick id affiliation role has wanted s e =
    let good = subst IsAllBalanced e (wanted_modes-IsAllBalanced affiliation role) in
    let (modes, nb) = remove_modes wanted.2 has (wanted.0, wanted.1) in
    (
      modes,
      repeat_nick nb nick,
      remove_modes-IsModeString nick has wanted good,
      subst (Shows affiliation role) e (wanted_modes-Shows affiliation role),
      rw (e, change_modes)
          (elim (Bool-cases (is_empty modes)) [
            | inl none_left ↦ rw none_left refl
            | inr some_left ↦ rw some_left refl
          ]),
    )
