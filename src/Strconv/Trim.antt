-- ===== src/Strconv/Trim.antt =====
-- strings.TrimSuffix and strings.TrimSpace on the bytes of a string.
use volnix_protocol.Base.{
  ℕ, zero, suc, Option, none, some, List, [], ◌∷◌, ◌++◌, Text, codes, nat_eq, if◌then◌else◌, length,
  ◌≡◌, refl,
}

unfoldable reversed : Text → Text
reversed [] = []
reversed (c ∷ s) = reversed s ++ c ∷ []

-- What follows a prefix.
unfoldable after : Text → Text → Option Text
after [] s = some s
after (c ∷ p) [] = none
after (c ∷ p) (d ∷ s) = let rest = after p s in if nat_eq c d then rest else none

unfoldable pub trim_suffix : Text → Text → Text
unfolding reversed after
trim_suffix suffix s = elim (after (reversed suffix) (reversed s)) [
  | none ↦ s
  | some rest ↦ reversed rest
]

-- The white space of Unicode in UTF-8.
abbrev white_space : List Text
white_space =
    (9 ∷ [])
    ∷ (10 ∷ [])
    ∷ (11 ∷ [])
    ∷ (12 ∷ [])
    ∷ (13 ∷ [])
    ∷ (32 ∷ [])
    ∷ (194 ∷ 133 ∷ [])
    ∷ (194 ∷ 160 ∷ [])
    ∷ (225 ∷ 154 ∷ 128 ∷ [])
    ∷ (226 ∷ 128 ∷ 128 ∷ [])
    ∷ (226 ∷ 128 ∷ 129 ∷ [])
    ∷ (226 ∷ 128 ∷ 130 ∷ [])
    ∷ (226 ∷ 128 ∷ 131 ∷ [])
    ∷ (226 ∷ 128 ∷ 132 ∷ [])
    ∷ (226 ∷ 128 ∷ 133 ∷ [])
    ∷ (226 ∷ 128 ∷ 134 ∷ [])
    ∷ (226 ∷ 128 ∷ 135 ∷ [])
    ∷ (226 ∷ 128 ∷ 136 ∷ [])
    ∷ (226 ∷ 128 ∷ 137 ∷ [])
    ∷ (226 ∷ 128 ∷ 138 ∷ [])
    ∷ (226 ∷ 128 ∷ 168 ∷ [])
    ∷ (226 ∷ 128 ∷ 169 ∷ [])
    ∷ (226 ∷ 128 ∷ 175 ∷ [])
    ∷ (226 ∷ 129 ∷ 159 ∷ [])
    ∷ (227 ∷ 128 ∷ 128 ∷ [])
    ∷ []

unfoldable map_reversed : List Text → List Text
map_reversed [] = []
map_reversed (t ∷ ts) = reversed t ∷ map_reversed ts

unfoldable after_any : List Text → Text → Option Text
after_any [] s = none
after_any (p ∷ ps) s =
    let later = after_any ps s in elim (after p s) [ none ↦ later | some rest ↦ some rest ]

-- Every round takes a byte at least, so the length of the text is fuel enough.
unfoldable trim_left : ℕ → List Text → Text → Text
trim_left zero spaces s = s
trim_left (suc fuel) spaces s = elim (after_any spaces s) [
  | none ↦ s
  | some rest ↦ trim_left fuel spaces rest
]

unfoldable pub trim_space : Text → Text
unfolding reversed map_reversed trim_left after_any after
trim_space s =
    let front = trim_left (length s) white_space s in
    reversed (trim_left (length front) (map_reversed white_space) (reversed front))

trimmed : trim_space (trim_suffix (codes "uwrt") (codes " 50 uwrt")) ≡ codes "50"
unfolding trim_space trim_suffix
trimmed = refl
