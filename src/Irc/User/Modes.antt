-- ===== src/Irc/User/Modes.antt =====
-- The modes of a user.
use biboumi.Base.{
  ℕ, true, false, ◌||◌, ◌&&◌, not, List, [], ◌∷◌, ◌≡◌, refl, arith, ◌==◌, has_char, Bool-cases, inl,
  inr,
}
use biboumi.Irc.User.{
  IrcUser, insert_mode, erase_mode, add_mode, remove_mode, get_most_significant_mode,
}

has_char-insert_mode :
    (m c : ℕ) (modes : List ℕ) → has_char c (insert_mode m modes) ≡ (m == c || has_char c modes)
unfolding insert_mode has_char
has_char-insert_mode m c modes = elim (Bool-cases (has_char m modes)) [
  | inl old ↦ elim (Bool-cases (m == c)) [
    | inl same ↦ let e : m ≡ c = ground arith in rw (old, same) (rw (← e) old)
    | inr other ↦ rw (old, other)
  ]
  | inr new ↦ rw new
]

has_char-erase_mode :
    (m c : ℕ) (modes : List ℕ)
    → has_char c (erase_mode m modes) ≡ (not (m == c) && has_char c modes)
unfolding erase_mode has_char
has_char-erase_mode m c [] = ground arith
has_char-erase_mode m c (x ∷ modes) = ground (arith, has_char-erase_mode m c modes)

-- Adding a mode and removing it change that mode and no other.
pub has_char-modes :
    (m c : ℕ) (user : IrcUser)
    → (has_char c (add_mode m user).modes ≡ (m == c || has_char c user.modes))
      × (has_char c (remove_mode m user).modes ≡ (not (m == c) && has_char c user.modes))
unfolding add_mode remove_mode
has_char-modes m c user = (has_char-insert_mode m c user.modes, has_char-erase_mode m c user.modes)

-- The mode found is one of the list that the user has, and the user has none of those before it; if
-- it is the NUL character, then the user has none of the list.
pub data IsFirst (user : IrcUser) : ℕ → List ℕ → Type 0 where
  absent : {m : ℕ} → m ≡ 0 → IsFirst user m []
  first : {m : ℕ} {modes : List ℕ} → has_char m user.modes ≡ true → IsFirst user m (m ∷ modes)
  later :
      {m n : ℕ} {modes : List ℕ}
      → has_char n user.modes ≡ false
      → IsFirst user m modes
      → IsFirst user m (n ∷ modes)

-- The most significant mode of a user is the first one of the sorted list that the user has.
pub get_most_significant_mode-IsFirst :
    (user : IrcUser) (modes : List ℕ) → IsFirst user (get_most_significant_mode user modes) modes
unfolding get_most_significant_mode
get_most_significant_mode-IsFirst user [] = absent refl
get_most_significant_mode-IsFirst user (m ∷ modes) = elim (Bool-cases (has_char m user.modes)) [
  | inl has ↦ simp has (first has)
  | inr lacks ↦ simp lacks (later lacks (get_most_significant_mode-IsFirst user modes))
]
