-- ===== src/Strconv/RoundTrip.antt =====
-- Printing a number with strconv and parsing the text.
use mathlib.Core.Logic.{dif_pos, dif_neg}
use mathlib.Core.List.{append_assoc, append-nil}
use mathlib.Core.WellFounded.{Acc}
use native.Mathlib.Decide.{dec_lt}
use native.Mathlib.Bridge.{le_prop}
use volnix_protocol.Base.{
  ℕ, suc, ◌+◌, ◌*◌, ◌-◌, ◌∙◌, ap, ◌/◌, ◌%◌, ◌≤◌, ◌<◌, false, [], ◌∷◌, ◌++◌, ◌≡◌, refl, sym, arith,
  Text, is_empty, ok, pos, negsuc, ℤ,
}
use volnix_protocol.Strconv.{
  scan, parse_uint, parse_int, print, format_uint, format_int, lt_wf, tenth_lt, max_uint64,
  with_sign, InInt64,
}

is_empty-append : (s : Text) (c : ℕ) (t : Text) → is_empty (s ++ c ∷ t) ≡ false
is_empty-append [] c t = refl
is_empty-append (d ∷ s) c t = refl

is_empty-print : (n : ℕ) (w : Acc ◌<◌ n) → is_empty (print n w) ≡ false
unfolding print
is_empty-print n (Acc.intro _ smaller) = elim (dec_lt n 10) [
  | yes h ↦ rw (dif_pos _ le_prop h)
  | no h ↦ rw (dif_neg _ h) (is_empty-append (print (n / 10) (smaller (n / 10) (tenth_lt h))) _ [])
]

back : (d : ℕ) → b'0' + d - b'0' ≡ d
back d = omega arith

scan_digit :
    (top n d : ℕ) (rest : Text)
    → d < 10
    → n * 10 + d ≤ top
    → scan top ((b'0' + d) ∷ rest) n ≡ scan top rest (n * 10 + d)
unfolding scan
scan_digit top n d rest small fits = ground (arith, back d)

scan-print :
    (top n : ℕ) (w : Acc ◌<◌ n) (rest : Text)
    → n ≤ top
    → scan top (print n w ++ rest) 0 ≡ scan top rest n
unfolding print
scan-print top n (Acc.intro _ smaller) rest fits = elim (dec_lt n 10) [
  | yes h ↦
      rw (dif_pos _ le_prop h)
        (scan_digit top 0 n rest h (omega arith) ∙ ap (scan top rest) (omega arith))
  | no h ↦
      rw (dif_neg _ h, append_assoc)
        (scan-print top (n / 10) (smaller (n / 10) (tenth_lt h)) _ (omega arith)
          ∙ scan_digit top (n / 10) (n % 10) rest (omega arith) (omega arith)
          ∙ ap (scan top rest) (omega arith))
]

printed : (n : ℕ) → format_uint n ≡ print n (lt_wf.apply n)
unfolding format_uint
printed n = refl

scan-format_uint : (top n : ℕ) → n ≤ top → scan top (format_uint n) 0 ≡ ok n
scan-format_uint top n fits =
    let all = lt_wf.apply n in
    ap (λ t. scan top t 0) (printed n ∙ sym (append-nil (print n all)))
    ∙ scan-print top n all [] fits
    ∙ unfold scan in refl

is_empty-format_uint : (n : ℕ) → is_empty (format_uint n) ≡ false
is_empty-format_uint n = rw printed (is_empty-print n (lt_wf.apply n))

-- Whatever number fits the width, parsing its decimal text gives the number back.
pub parse_uint-format_uint : (top n : ℕ) → n ≤ top → parse_uint top (format_uint n) ≡ ok n
unfolding parse_uint
parse_uint-format_uint top n fits = rw is_empty-format_uint (scan-format_uint top n fits)

-- A text that ParseUint accepts starts with no sign.
unsigned :
    (s : Text) (n : ℕ) → parse_uint max_uint64 s ≡ ok n → parse_int s ≡ with_sign false (ok n)
unfolding parse_int parse_uint scan
unsigned [] n h = cc
unsigned (c ∷ s) n h = ground arith

-- The same for int64, both signs.
pub parse_int-format_int : (z : ℤ) → InInt64 z → parse_int (format_int z) ≡ ok z
unfolding parse_int format_int
parse_int-format_int (pos n) fits =
    ground (arith, unsigned (format_uint n) n, parse_uint-format_uint max_uint64 n)
parse_int-format_int (negsuc n) fits = ground (arith, parse_uint-format_uint max_uint64 (suc n))
