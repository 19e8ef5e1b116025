-- ===== src/Anteil/Distribution/Balances.antt =====
-- x/anteil/keeper/keeper.go: the distribution to citizens on the balances alone.
use volnix_protocol.Base.{
  ℕ, ◌+◌, ◌≤◌, ◌≡◌, inl, inr, refl, sym, ap, ◌∙◌, true, false, ◌&&◌, Option, none, some, List, [],
  ◌∷◌, Text, codes, text_eq, ℤ, ltb, leb, if◌then◌else◌, arith, Option-cases, Bool-cases,
  text_eq_iff,
}
use volnix_protocol.Strconv.{parse_uint, max_uint64, format_uint}
use volnix_protocol.Strconv.RoundTrip.{parse_uint-format_uint}
use volnix_protocol.KvStore.{KvStore, text_key}
use volnix_protocol.KvStore
use volnix_protocol.Ident.Types.{VerifiedAccount}
use volnix_protocol.Anteil.Types.{UserPosition, parse_uint64, new_user_position}
use volnix_protocol.Anteil.Keeper.{State}
use volnix_protocol.Anteil.Distribution.{raised, pay, position_of, is_recipient, with_balance}

-- The abstract view of the positions: a balance for each user.
abbrev pub balance_in : Option UserPosition → ℕ
balance_in none = 0
balance_in (some p) = parse_uint64 p.ant_balance

unfoldable pub balance : State → Text → ℕ
balance s user = balance_in (KvStore.get user s.positions)

-- What a citizen with this balance should have then.
abbrev pub grant : ℕ → ℕ → ℕ → ℕ
grant rate limit b = if leb limit b then b else if ltb limit (b + rate) then limit else b + rate

-- The accounts in turn, on plain numbers.
unfoldable pub granted : ℕ → ℕ → List VerifiedAccount → (Text → ℕ) → Text → ℕ
granted rate limit [] balances = balances
granted rate limit (c ∷ cs) balances = granted rate limit cs λ user.
    if is_recipient c && text_eq c.address user
    then grant rate limit (balances user)
    else balances user

parse_zero : parse_uint64 (codes "0") ≡ 0
unfolding parse_uint
parse_zero = refl

position_of-balance :
    (now : ℤ) (user : Text) (s : State)
    → parse_uint64 (position_of now user s).ant_balance ≡ balance s user
unfolding position_of balance new_user_position
position_of-balance now user s = elim (Option-cases (KvStore.get user s.positions)) [
  | inl missing ↦ ground (arith, parse_zero)
  | inr (p, found) ↦ ground arith
]

parse_uint64-format_uint : (n : ℕ) → n ≤ max_uint64 → parse_uint64 (format_uint n) ≡ n
parse_uint64-format_uint n small = rw (parse_uint64, parse_uint-format_uint max_uint64 n small) refl

pub raised-eq-grant :
    (rate limit b : ℕ)
    → limit + rate ≤ max_uint64
    → leb limit b ≡ false
    → raised rate limit b ≡ grant rate limit b
unfolding raised
raised-eq-grant rate limit b room below = ground arith

pub raised_le : (rate limit b : ℕ) → raised rate limit b ≤ limit
unfolding raised
raised_le rate limit b = ground arith

set-balance :
    (now : ℤ) (address : Text) (n : ℕ) (p : UserPosition) (s : State) (user : Text)
    → n ≤ max_uint64
    → balance (record s { positions = KvStore.set address (with_balance now n p) s.positions }) user
      ≡ (if text_eq address user then n else balance s user)
unfolding balance
set-balance now address n p s user small = elim (Bool-cases (text_eq address user)) [
  | inl hit ↦ ground (
    arith,
    KvStore.get-set user address (with_balance now n p) s.positions,
    parse_uint64-format_uint n small,
  )
  | inr miss ↦ ground (arith, KvStore.get-set user address (with_balance now n p) s.positions)
]

-- The balance that an account is given, by the uint64 arithmetic of the code.
abbrev pub topped_up : ℕ → ℕ → ℕ → ℕ
topped_up rate limit b = if leb limit b then b else raised rate limit b

module _ (now : ℤ) (rate limit : ℕ) (c : VerifiedAccount) (s : State) where
  abbrev own_balance : ℕ
  own_balance = parse_uint64 (position_of now c.address s).ant_balance

  pay_skips : is_recipient c ≡ false → pay now rate limit c s ≡ s
  unfolding pay
  pay_skips out = ground arith

  pay_stops : is_recipient c ≡ true → leb limit own_balance ≡ true → pay now rate limit c s ≡ s
  unfolding pay
  pay_stops taken full = ground arith

  pay_raises :
      is_recipient c ≡ true
      → leb limit own_balance ≡ false
      → pay now rate limit c s ≡ record s {
        positions =
            KvStore.set c.address
              (with_balance now (raised rate limit own_balance) (position_of now c.address s))
              s.positions;
      }
  unfolding pay
  pay_raises taken below = ground arith

  same_balance : (user : Text) → text_eq c.address user ≡ true → balance s user ≡ own_balance
  same_balance user hit =
      ap (balance s) (sym ((text_eq_iff c.address user).0 hit))
      ∙ sym (position_of-balance now c.address s)

  abbrev topped : State
  topped = record s {
    positions =
        KvStore.set c.address
          (with_balance now (raised rate limit own_balance) (position_of now c.address s))
          s.positions;
  }

  topped-balance :
      (user : Text)
      → limit ≤ max_uint64
      → balance topped user
        ≡ (if text_eq c.address user then raised rate limit own_balance else balance s user)
  topped-balance user small =
      set-balance now c.address (raised rate limit own_balance) (position_of now c.address s) s user
        (ground (arith, raised_le rate limit own_balance))

  -- One account: only the balance under its address changes.
  pub pay-balance :
      (user : Text)
      → limit ≤ max_uint64
      → balance (pay now rate limit c s) user ≡ (
          if is_recipient c && text_eq c.address user
          then topped_up rate limit (balance s user)
          else balance s user)
  pay-balance user small = elim (Bool-cases (is_recipient c)) [
    | inr out ↦ rw (pay_skips out, out) refl
    | inl taken ↦ elim (Bool-cases (text_eq c.address user)) [
      | inr miss ↦ elim (Bool-cases (leb limit own_balance)) [
        | inl full ↦ rw (pay_stops taken full, taken, miss) refl
        | inr below ↦
            rw (pay_raises taken below, taken, miss) (topped-balance user small ∙ rw miss refl)
      ]
      | inl hit ↦ elim (Bool-cases (leb limit own_balance)) [
        | inl full ↦ rw (pay_stops taken full, taken, hit) (rw (same_balance user hit, full) refl)
        | inr below ↦
            rw (pay_raises taken below, taken, hit)
              (topped-balance user small ∙ rw (hit, same_balance user hit, below) refl)
      ]
    ]
  ]
