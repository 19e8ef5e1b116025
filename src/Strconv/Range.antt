-- ===== src/Strconv/Range.antt =====
-- What ParseUint accepts fits into its bits.
use volnix_protocol.Base.{ℕ, ◌+◌, ◌-◌, ◌*◌, ◌≤◌, ◌≡◌, [], ◌∷◌, Text, ok, arith}
use volnix_protocol.Strconv.{scan, parse_uint}

scan_le : (top : ℕ) (s : Text) (acc n : ℕ) → acc ≤ top → scan top s acc ≡ ok n → n ≤ top
unfolding scan
scan_le top [] acc n fits r = ground arith
scan_le top (c ∷ s) acc n fits r = ground (arith, scan_le top s (acc * 10 + (c - b'0')) n)

pub parse_uint_le : (top : ℕ) (s : Text) (n : ℕ) → parse_uint top s ≡ ok n → n ≤ top
unfolding parse_uint
parse_uint_le top s n r = ground (arith, scan_le top s 0 n)
