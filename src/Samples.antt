-- ===== src/Samples.antt =====
-- A fixed-point host and a sample of what a call finds around it, for the tests.
use volnix_protocol.Base.{
  ℕ, ◌+◌, ◌-◌, ◌*◌, ◌/◌, Bool, true, false, Option, none, some, Text, codes, text_eq, ℤ, pos,
  negsuc, ltb, leb, nat_eq, if◌then◌else◌, ok, err,
}
use volnix_protocol.Strconv.{parse_uint, max_uint64, format_uint}
use volnix_protocol.Host.{Host, Bank, Env, hours}

-- A float is a number of thousandths.
abbrev pub read_float : Text → ℕ × Bool
read_float s =
    if text_eq s (codes "0.4")
    then (400, true)
    else if text_eq s (codes "0.5")
    then (500, true)
    else if text_eq s (codes "0.33")
    then (330, true)
    else elim (parse_uint max_uint64 s) [ ok n ↦ (n * 1000, true) | err e ↦ (0, false) ]

abbrev pub read_duration : Text → Option ℤ
read_duration s = if text_eq s (codes "24h") then some (hours 24) else none

abbrev pub magnitude : ℤ → ℕ
magnitude (pos n) = n
magnitude (negsuc n) = 0

abbrev pub host : Host
host = record {
  Float = ℕ;
  parse_float = read_float;
  of_uint64 = λ n. n * 1000;
  of_int64 = λ z. magnitude z * 1000;
  plus = λ a b. a + b;
  minus = λ a b. a - b;
  times = λ a b. a * b / 1000;
  over = λ a b. a * 1000 / b;
  opposite = λ a. 0;
  less = ltb;
  at_most = leb;
  same = nat_eq;
  fixed = λ d a. format_uint (a / 1000);
  to_uint64 = λ f. f / 1000;
  to_int64 = λ f. pos (f / 1000);
  parse_duration = read_duration;
}

abbrev pub bank : Bank
bank = record { balance = λ a d. 10000000000000; supply = λ d. 21000000000000 }

abbrev pub at_hour : ℕ → Env
at_hour n = record {
  block_time = hours n;
  block_height = pos n;
  now = hours n;
  account = λ a. some a;
  bank = some bank;
}
