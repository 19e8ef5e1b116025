-- ===== src/Strconv.antt =====
-- The conversions of Go's package strconv that the keepers call, in base 10: ParseUint, ParseInt,
-- FormatUint (and Sprintf's %d) and FormatInt.
pub mod RoundTrip
pub mod Width
pub mod Range
pub mod Trim
use mathlib.Core.Logic.{dite}
use mathlib.Core.WellFounded.{Acc, WellFounded}
use native.Mathlib.Decide.{dec_lt}
use volnix_protocol.Base.{
  ℕ, zero, suc, ◌+◌, ◌-◌, ◌*◌, ◌/◌, ◌%◌, ◌^◌, ◌<◌, ◌≤◌, Bool, true, false, ◌||◌, [], ◌∷◌, ◌++◌, ◌≡◌,
  refl, arith, Text, codes, is_empty, ltb, leb, nat_eq, if◌then◌else◌, Outcome, ok, err, ℤ, pos,
  negsuc,
}

-- `ErrSyntax` and `ErrRange`.
pub data NumError : Type 0 where
  syntax out_of_range : NumError

abbrev pub max_uint64 : ℕ
max_uint64 = 2 ^ 64 - 1

unfoldable pub scan : ℕ → Text → ℕ → Outcome NumError ℕ
scan top [] n = ok n
scan top (c ∷ s) n =
    let more = scan top s (n * 10 + (c - b'0')) in
    if ltb c b'0' || ltb b'9' c
    then err syntax
    else if ltb top (n * 10 + (c - b'0'))
    then err out_of_range
    else more

-- ParseUint(s, 10, bits) where `top` is 2 ^ bits - 1.
unfoldable pub parse_uint : ℕ → Text → Outcome NumError ℕ
unfolding scan
parse_uint top s = if is_empty s then err syntax else scan top s 0

-- The value that ParseUint returns beside an error: 0, or the greatest value.
abbrev pub value_of : ℕ → Outcome NumError ℕ → ℕ
value_of top (ok n) = n
value_of top (err syntax) = 0
value_of top (err out_of_range) = top

abbrev pub int64_limit : ℕ
int64_limit = 2 ^ 63

-- The integers of 64 bits.
abbrev pub InInt64 : ℤ → Type 0
InInt64 (pos n) = n < int64_limit
InInt64 (negsuc n) = suc n ≤ int64_limit

abbrev pub signed : Bool → ℕ → Outcome NumError ℤ
signed false n = if leb int64_limit n then err out_of_range else ok (pos n)
signed true zero = ok (pos 0)
signed true (suc n) = if ltb int64_limit (suc n) then err out_of_range else ok (negsuc n)

abbrev pub with_sign : Bool → Outcome NumError ℕ → Outcome NumError ℤ
with_sign neg (ok n) = signed neg n
with_sign neg (err e) = err e

-- ParseInt(s, 10, 64).
unfoldable pub parse_int : Text → Outcome NumError ℤ
parse_int [] = err syntax
parse_int (c ∷ s) =
    if nat_eq c b'-'
    then with_sign true (parse_uint max_uint64 s)
    else if nat_eq c b'+'
    then with_sign false (parse_uint max_uint64 s)
    else with_sign false (parse_uint max_uint64 (c ∷ s))

below : (k n : ℕ) → n < k → Acc ◌<◌ n
below zero n h = absurd (omega arith)
below (suc k) n h = Acc.intro n λ m lt. below k m (omega arith)

lt_wf : WellFounded ◌<◌
unfolding below
lt_wf = record { apply = λ n. below (suc n) n (omega arith) }

tenth_lt : {n : ℕ} → ¬ (n < 10) → n / 10 < n
tenth_lt h = omega arith

print : (n : ℕ) → Acc ◌<◌ n → Text
print n (Acc.intro _ smaller) =
    dite (dec_lt n 10) (λ _. (b'0' + n) ∷ [])
      λ h. print (n / 10) (smaller (n / 10) (tenth_lt h)) ++ (b'0' + n % 10) ∷ []

unfoldable pub format_uint : ℕ → Text
unfolding print lt_wf dec_lt tenth_lt
format_uint n = print n (lt_wf.apply n)

unfoldable pub format_int : ℤ → Text
format_int (pos n) = format_uint n
format_int (negsuc n) = b'-' ∷ format_uint (suc n)

format_largest : format_uint max_uint64 ≡ codes "18446744073709551615"
unfolding format_uint
format_largest = refl

parse_too_large : parse_uint max_uint64 (codes "18446744073709551616") ≡ err out_of_range
unfolding parse_uint
parse_too_large = refl

parse_signed : parse_int (codes "-9223372036854775808") ≡ ok (negsuc 9223372036854775807)
unfolding parse_int parse_uint
parse_signed = refl

parse_bad : parse_int (codes "12a") ≡ err syntax
unfolding parse_int parse_uint
parse_bad = refl
