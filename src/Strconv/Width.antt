-- ===== src/Strconv/Width.antt =====
-- ParseUint at two widths.
use volnix_protocol.Base.{ℕ, ◌*◌, ◌+◌, ◌-◌, ◌≤◌, ◌≡◌, arith, ok, [], ◌∷◌, Text}
use volnix_protocol.Strconv.{scan, parse_uint}

scan_wider :
    (top top' : ℕ) → top ≤ top' → (s : Text) (k n : ℕ) → scan top s k ≡ ok n → scan top' s k ≡ ok n
unfolding scan
scan_wider top top' wide [] k n r = ground arith
scan_wider top top' wide (c ∷ s) k n r =
    ground (arith, scan_wider top top' wide s (k * 10 + (c - b'0')) n)

pub parse_uint_wider :
    (top top' : ℕ)
    → top ≤ top'
    → (s : Text) (n : ℕ) → parse_uint top s ≡ ok n
    → parse_uint top' s ≡ ok n
unfolding parse_uint
parse_uint_wider top top' wide s n r = ground (arith, scan_wider top top' wide s 0 n)
