-- ===== src/Host.antt =====
-- What the modules take from outside: float64 arithmetic with the conversions of strconv and time
-- that go through it, and what a call finds around it (the block, the clock, the bank).
use volnix_protocol.Base.{ℕ, ◌*◌, ◌^◌, Bool, Option, Text, ℤ, pos}

-- float64: `parse_float` is ParseFloat(s, 64) with its value beside the test that there was no
-- error; `to_uint64` and `to_int64` are the conversions of a float; `less`, `at_most` and `same` are `<`,
-- `<=` and `==`, which a NaN all fails.
pub record Host : Type 1 where
  pub Float : Type 0
  pub parse_float : Text → Float × Bool
  pub of_uint64 : ℕ → Float
  pub of_int64 : ℤ → Float
  pub plus : Float → Float → Float
  pub minus : Float → Float → Float
  pub times : Float → Float → Float
  pub over : Float → Float → Float
  pub opposite : Float → Float
  pub less : Float → Float → Bool
  pub at_most : Float → Float → Bool
  pub same : Float → Float → Bool
  -- Sprintf of a float with that many decimals
  pub fixed : ℕ → Float → Text
  pub to_uint64 : Float → ℕ
  pub to_int64 : Float → ℤ
  -- time.ParseDuration, in nanoseconds
  pub parse_duration : Text → Option ℤ

-- The bank module: the balance of an address and the supply of a denomination.
pub record Bank : Type 0 where
  pub balance : Text → Text → ℕ
  pub supply : Text → ℕ

-- The context of a call. `account` is AccAddressFromBech32, `now` is time.Now, and `bank` is
-- `none` while no bank keeper is set.
pub record Env : Type 0 where
  pub block_time : ℤ
  pub block_height : ℤ
  pub now : ℤ
  pub account : Text → Option Text
  pub bank : Option Bank

-- Durations in nanoseconds.
abbrev pub hours : ℕ → ℤ
hours n = pos (n * (3600 * 10 ^ 9))
