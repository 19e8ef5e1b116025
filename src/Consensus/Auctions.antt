-- ===== src/Consensus/Auctions.antt =====
-- x/consensus/keeper/keeper.go: the blind auction of a block, its commits and its reveals.
use volnix_protocol.Base.{
  ℕ, zero, suc, ◌+◌, ◌-◌, ◌/◌, ◌^◌, Bool, false, not, ◌||◌, Option, none, some, List, [], ◌∷◌, ◌++◌,
  Text, codes, is_empty, text_eq, ℤ, pos, negsuc, ◌-ℤ◌, ltb_ℤ, leb_ℤ, ltb, nat_eq, if◌then◌else◌,
  Outcome, ok, err, Action, gets, lift, or_raise, modify, raise_if, ◌>>=◌, ◌>>◌, length, wrap64,
}
use volnix_protocol.KvStore.{KvStore, nat_key, text_key}
use volnix_protocol.KvStore
use volnix_protocol.Host.{Host, Env}
use volnix_protocol.Strconv.{parse_uint, max_uint64}
use volnix_protocol.Strconv.Trim.{trim_suffix, trim_space}
use volnix_protocol.Consensus.Params.{Params}
use volnix_protocol.Consensus.Types.{
  EncryptedBid, BidReveal, BlindAuction, BidEntry, HalvingInfo, Error, AnteilKeeper, committing,
  is_committing, is_revealing, auction_not_found, not_in_commit_phase, already_committed,
  invalid_commit_hash, not_in_reveal_phase, bid_not_committed, bid_already_revealed,
  commit_hash_mismatch, invalid_bid_amount, no_position, insufficient_balance, bid_too_large,
  too_many_bids, unreadable_balance, panic,
}

-- The part of the store that auctions, bids and halvings use. Auctions stand under their heights;
-- the store never iterates over them. `W` is the state of the anteil keeper.
pub record State (W : Type 0) : Type 0 where
  pub params : Params
  pub auctions : KvStore ℕ BlindAuction
  pub bid_history : KvStore Text (List BidEntry)
  pub halving_info : Option HalvingInfo
  pub average_block_time : Option ℤ
  pub world : W

-- int(n) of a uint64.
abbrev pub int_of : ℕ → ℤ
int_of n = wrap64 (pos n)

-- Unix of an instant in nanoseconds: whole seconds, rounded down.
abbrev pub unix : ℤ → ℤ
unix (pos n) = pos (n / 10 ^ 9)
unix (negsuc n) = negsuc (n / 10 ^ 9)

unfoldable pub has_commit : Text → List EncryptedBid → Bool
has_commit v [] = false
has_commit v (c ∷ cs) = text_eq c.validator v || has_commit v cs

unfoldable pub find_commit : Text → List EncryptedBid → Option EncryptedBid
find_commit v [] = none
find_commit v (c ∷ cs) = if text_eq c.validator v then some c else find_commit v cs

unfoldable pub has_reveal : Text → List BidReveal → Bool
has_reveal v [] = false
has_reveal v (r ∷ rs) = text_eq r.validator v || has_reveal v rs

abbrev pub new_auction : ℤ → ℕ → BlindAuction
new_auction now height = record {
  block_height = height;
  phase = committing;
  commits = [];
  reveals = [];
  winner = [];
  winning_bid = codes "0";
  start_time = now;
  end_time = none;
}

-- `sha256_hex` is the hexadecimal SHA-256 of a text.
unfoldable pub hash_commit : (Text → Text) → Text → Text → Text
hash_commit sha256_hex nonce bid_amount = sha256_hex (nonce ++ b':' ∷ bid_amount)

unfoldable pub verify_commit : (Text → Text) → Text → Text → Text → Bool
verify_commit sha256_hex commit_hash nonce bid_amount =
    text_eq (hash_commit sha256_hex nonce bid_amount) commit_hash

-- The bids of the last hundred seconds. JSON gives the timestamps back as floats.
unfoldable pub count_recent : Host → ℤ → List BidEntry → ℕ
count_recent h now [] = 0
count_recent h now (b ∷ bs) =
    (if ltb_ℤ (wrap64 (now -ℤ h.to_int64 (h.of_int64 b.timestamp))) (pos 100) then 1 else 0)
    + count_recent h now bs

unfoldable pub drop_first : ℕ → List BidEntry → List BidEntry
drop_first zero bs = bs
drop_first (suc n) [] = []
drop_first (suc n) (b ∷ bs) = drop_first n bs

abbrev pub or_default : ℕ → ℕ → ℕ
or_default n fallback = if nat_eq n 0 then fallback else n

abbrev pub new_commit : ℤ → Text → Text → ℕ → EncryptedBid
new_commit now validator commit_hash height = record {
  validator = validator;
  commit_hash = commit_hash;
  block_height = height;
  commit_time = now;
}

abbrev pub add_commit : EncryptedBid → BlindAuction → BlindAuction
add_commit c a = record a { commits = a.commits ++ c ∷ [] }

-- ParseUint, where 0 is refused too.
unfoldable pub positive_bid : Text → Outcome Error ℕ
positive_bid bid_amount = elim (parse_uint max_uint64 bid_amount) [
  | err x ↦ err invalid_bid_amount
  | ok n ↦ if nat_eq n 0 then err invalid_bid_amount else ok n
]

-- The last entries. A limit that int() turns negative is a slice out of range.
unfoldable pub last_entries : ℤ → List BidEntry → Outcome Error (List BidEntry)
last_entries (pos limit) history = ok (drop_first (length history - limit) history)
last_entries (negsuc n) history = err panic

abbrev pub new_reveal : ℤ → Text → Text → Text → ℕ → BidReveal
new_reveal now validator nonce bid_amount height = record {
  validator = validator;
  nonce = nonce;
  bid_amount = bid_amount;
  block_height = height;
  reveal_time = now;
}

abbrev pub add_reveal : BidReveal → BlindAuction → BlindAuction
add_reveal r a = record a { reveals = a.reveals ++ r ∷ [] }

unfoldable pub check_maximum : ℕ → Params → Outcome Error (Unit {0})
check_maximum bid p =
    if is_empty p.max_burn_amount
    then ok tt
    else elim (parse_uint max_uint64 (trim_space (trim_suffix (codes "uvx") p.max_burn_amount))) [
      | err x ↦ ok tt
      | ok most ↦ if ltb most bid then err bid_too_large else ok tt
    ]

module _ (W : Type 0) where
  abbrev pub Handler : Type 0 → Type 0
  Handler = Action (State W) Error

  unfoldable pub get_blind_auction : ℕ → Handler BlindAuction
  get_blind_auction height s = or_raise (KvStore.get height s.auctions) auction_not_found s

  unfoldable pub set_blind_auction : BlindAuction → State W → State W
  set_blind_auction a s = record s { auctions = KvStore.set a.block_height a s.auctions }

  unfoldable pub create_blind_auction : ℤ → ℕ → State W → BlindAuction × State W
  create_blind_auction now height s = elim (KvStore.get height s.auctions) [
    | some a ↦ (a, s)
    | none ↦ (new_auction now height, set_blind_auction (new_auction now height) s)
  ]

  -- CommitBid on the auction that it got or created.
  unfoldable pub commit_to : ℤ → Text → Text → ℕ → BlindAuction → Handler (Unit {0})
  commit_to now validator commit_hash height a = do
    raise_if (not (is_committing a.phase)) not_in_commit_phase
    raise_if (has_commit validator a.commits) already_committed
    raise_if (is_empty commit_hash || not (nat_eq (length commit_hash) 64)) invalid_commit_hash
    modify (set_blind_auction (add_commit (new_commit now validator commit_hash height) a))

  unfoldable pub commit_bid : ℤ → Text → Text → ℕ → Handler (Unit {0})
  commit_bid now validator commit_hash height s =
      let made = create_blind_auction now height s in
      commit_to now validator commit_hash height made.0 made.1

  unfoldable pub check_rapid : Host → Env → Text → State W → Outcome Error (Unit {0})
  check_rapid h e validator s = elim (KvStore.get validator s.bid_history) [
    | none ↦ ok tt
    | some history ↦
        if leb_ℤ (int_of (or_default s.params.rapid_bid_limit 5))
          (pos (count_recent h (unix e.block_time) history))
        then err too_many_bids
        else ok tt
  ]

  unfoldable pub history_of : Text → State W → List BidEntry
  history_of validator s = elim (KvStore.get validator s.bid_history) [
    | none ↦ []
    | some history ↦ history
  ]

  unfoldable pub record_bid_history : Env → Text → Text → Handler (Unit {0})
  record_bid_history e validator bid_amount = do
    history ← gets (history_of validator)
    limit ← gets (λ s. int_of (or_default s.params.bid_history_limit 100))
    kept ← lift (
        last_entries limit (
          history
          ++ (record {
            bid_amount = bid_amount;
            timestamp = unix e.block_time;
            block_height = e.block_height;
          })
            ∷ []))
    modify λ s. record s { bid_history = KvStore.set validator kept s.bid_history }

  module _ (anteil : Option (AnteilKeeper W)) where
    unfoldable pub check_balance : Text → ℕ → State W → Outcome Error (Unit {0})
    check_balance validator bid s = elim anteil [
      | none ↦ ok tt
      | some k ↦ elim (k.ant_balance validator s.world) [
        | none ↦ err no_position
        | some text ↦ elim (parse_uint max_uint64 text) [
          | err x ↦ err (unreadable_balance x)
          | ok balance ↦ if ltb balance bid then err insufficient_balance else ok tt
        ]
      ]
    ]

    -- The second look at the balance, in RevealBid itself: what cannot be read counts as nothing.
    unfoldable pub check_funds : Text → ℕ → State W → Outcome Error (Unit {0})
    check_funds validator bid s = elim anteil [
      | none ↦ ok tt
      | some k ↦ elim (k.ant_balance validator s.world) [
        | none ↦ err no_position
        | some text ↦ elim (parse_uint max_uint64 text) [
          | err x ↦ if ltb 0 bid then err insufficient_balance else ok tt
          | ok balance ↦ if ltb balance bid then err insufficient_balance else ok tt
        ]
      ]
    ]

    unfoldable pub validate_auction_bid : Host → Env → Text → Text → Handler (Unit {0})
    validate_auction_bid h e validator bid_amount = do
      bid ← lift (positive_bid bid_amount)
      funded ← gets (check_balance validator bid)
      lift funded
      capped ← gets (λ s. check_maximum bid s.params)
      lift capped
      slow ← gets (check_rapid h e validator)
      lift slow

    -- RevealBid from the amount on.
    unfoldable pub accept_reveal : Env → Text → Text → Text → ℕ → BlindAuction → Handler (Unit {0})
    accept_reveal e validator nonce bid_amount height a = do
      bid ← lift (positive_bid bid_amount)
      record_bid_history e validator bid_amount
      funded ← gets (check_funds validator bid)
      lift funded
      modify (set_blind_auction (add_reveal (new_reveal e.now validator nonce bid_amount height) a))

    unfoldable pub reveal_bid :
        Host → (Text → Text) → Env → Text → Text → Text → ℕ → Handler (Unit {0})
    reveal_bid h sha256_hex e validator nonce bid_amount height = do
      a ← get_blind_auction height
      raise_if (not (is_revealing a.phase)) not_in_reveal_phase
      c ← or_raise (find_commit validator a.commits) bid_not_committed
      raise_if (has_reveal validator a.reveals) bid_already_revealed
      raise_if (not (verify_commit sha256_hex c.commit_hash nonce bid_amount)) commit_hash_mismatch
      validate_auction_bid h e validator bid_amount
      accept_reveal e validator nonce bid_amount height a
