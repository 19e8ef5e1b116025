-- ===== src/Consensus/Tests.antt =====
-- A blind auction with one bid, a draw and a halving, and what the theorems say of them.
use volnix_protocol.Base.{
  ℕ, ◌+◌, ◌*◌, ◌/◌, ◌^◌, ◌≤◌, ◌≡◌, refl, false, Option, none, some, List, [], ◌∷◌, Text, codes,
  text_eq, pos, nat_eq, if◌then◌else◌, arith, wrap64,
}
use volnix_protocol.KvStore.{KvStore, nat_key, text_key}
use volnix_protocol.KvStore
use volnix_protocol.Samples.{host, at_hour}
use volnix_protocol.Strconv.{parse_uint}
use volnix_protocol.Strconv.Trim.{trim_suffix, trim_space}
use volnix_protocol.Consensus.Params.{default_params}
use volnix_protocol.Consensus.Types.{BidReveal, BlindAuction, AnteilKeeper, revealing, is_complete}
use volnix_protocol.Consensus.Auctions.{
  State, set_blind_auction, get_blind_auction, create_blind_auction, commit_to, commit_bid,
  reveal_bid, accept_reveal, has_commit, has_reveal, find_commit, verify_commit, hash_commit,
  validate_auction_bid, record_bid_history, positive_bid, check_balance, check_funds, check_maximum,
  check_rapid, history_of, last_entries, drop_first, new_reveal, new_commit,
}
use volnix_protocol.Consensus.Selection.{
  advance, advance_current, transition_auction_phase, process_auctions, cleanup_old_auctions,
  weight_of, total_bid, drawn,
}
use volnix_protocol.Consensus.Messages.{MsgCommitBid, MsgRevealBid, submit_commit, submit_reveal}
use volnix_protocol.Consensus.Rewards.{
  calculate_base_reward, stated_reward, get_halving_count, halving_interval, get_halving_info,
  process_halving, halved,
}
use volnix_protocol.Consensus.Halving.{
  calculate_base_reward-eq-quotient, Halvings, halving_keeps_pace,
}
use volnix_protocol.Consensus.Distribution.{rewards_for, total_lzn}
use volnix_protocol.Consensus.Shares.{lzn_sum, base_sum, rewards_for-Bounded}
use volnix_protocol.Consensus.Lottery.{weights, drawn-Proportional}
use volnix_protocol.Consensus.Sealed.{NoTwice, NoSecond, AllOpen}
use volnix_protocol.Consensus.Sealed.Chain.{Chain, Chain-IsSealed, never_completed}

abbrev W : Type 0
W = Unit {0}

abbrev keeper : Option (AnteilKeeper W)
keeper = some (record {
  ant_balance = λ user w. some (codes "1000");
  update_user_position = λ user balance count w. w;
})

-- A digest of 64 characters.
abbrev digest : Text
digest = codes "0123456789abcdef0123456789abcdef0123456789abcdef0123456789abcdef"

abbrev sha256_hex : Text → Text
sha256_hex t = digest

abbrev quiet : State W
quiet = record {
  params = default_params;
  auctions = [];
  bid_history = [];
  halving_info = none;
  average_block_time = none;
  world = tt;
}

abbrev offer : MsgCommitBid
offer = record { validator = codes "val"; commit_hash = digest; block_height = 0 }

abbrev opening : MsgRevealBid
opening = record {
  validator = codes "val";
  nonce = codes "salt";
  bid_amount = codes "250";
  block_height = 1;
}

-- The bid of the first block is revealed in the second.
abbrev after_commit : State W
after_commit = (submit_commit W (at_hour 1) offer quiet).1

abbrev after_block : State W
after_block = process_auctions W keeper (pos 0) 7 1 after_commit

abbrev after_reveal : State W
after_reveal = (submit_reveal W keeper host sha256_hex (at_hour 2) opening after_block).1

abbrev shown : BlindAuction
shown = record {
  block_height = 1;
  phase = revealing;
  commits = (new_commit (at_hour 1).now (codes "val") digest 1) ∷ [];
  reveals = (new_reveal (at_hour 2).now (codes "val") (codes "salt") (codes "250") 1) ∷ [];
  winner = [];
  winning_bid = codes "0";
  start_time = (at_hour 1).now;
  end_time = none;
}

found_shown : KvStore.get 1 after_reveal.auctions ≡ some shown
unfolding submit_commit submit_reveal process_auctions commit_bid commit_to create_blind_auction
    set_blind_auction get_blind_auction advance advance_current transition_auction_phase
    cleanup_old_auctions reveal_bid accept_reveal validate_auction_bid record_bid_history
    positive_bid check_balance check_funds check_maximum check_rapid history_of last_entries
    drop_first has_commit has_reveal find_commit verify_commit hash_commit parse_uint trim_suffix
    trim_space KvStore.get KvStore.set text_eq wrap64
found_shown = refl

run : Chain W keeper host sha256_hex 2 after_reveal
run =
    Chain.revealed (at_hour 2) opening
      (Chain.ended (pos 0) 7 (Chain.committed (at_hour 1) offer (Chain.start {n = 1} refl)))

Chain-IsSealed_example :
    NoTwice shown.commits × NoSecond shown.reveals × AllOpen sha256_hex shown.commits shown.reveals
Chain-IsSealed_example =
    Chain-IsSealed W keeper host sha256_hex 2 after_reveal 1 shown run found_shown

never_completed_example :
    ((k : ℕ) (a : BlindAuction)
      → KvStore.get k after_reveal.auctions ≡ some a
      → (is_complete a.phase ≡ false) × (a.winner ≡ []))
    × ((height : ℕ) → cleanup_old_auctions W height after_reveal ≡ after_reveal)
never_completed_example = never_completed W keeper host sha256_hex 2 after_reveal run

abbrev low : BidReveal
low = new_reveal (pos 0) (codes "ann") (codes "a") (codes "100") 1

abbrev high : BidReveal
high = new_reveal (pos 0) (codes "bob") (codes "b") (codes "300") 1

sum_low : weights (low ∷ []) ≡ 100
unfolding weights weight_of parse_uint
sum_low = refl

sum_both : weights (low ∷ high ∷ []) ≡ 400
unfolding weights weight_of parse_uint
sum_both = refl

bid_high : weight_of high ≡ 300
unfolding weight_of parse_uint
bid_high = refl

drawn-Proportional_example :
    (total_bid 0 (low ∷ high ∷ []) ≡ weights (low ∷ high ∷ []))
    × (drawn 150 0 (low ∷ high ∷ []) ≡ some high)
drawn-Proportional_example =
    drawn-Proportional 150 (low ∷ []) high [] (rw sum_both (omega arith)) (rw sum_low (omega arith))
      (rw (sum_low, bid_high) (omega arith))

calculate_base_reward-eq-quotient_example : calculate_base_reward default_params 420001 ≡ (
    if nat_eq (stated_reward default_params / 2 ^ get_halving_count 420001) 0
    then 1
    else stated_reward default_params / 2 ^ get_halving_count 420001)
calculate_base_reward-eq-quotient_example = calculate_base_reward-eq-quotient default_params 420001

-- Two halvings make a quarter.
quarter : calculate_base_reward default_params 420001 ≡ 12500000
unfolding calculate_base_reward stated_reward halved parse_uint trim_suffix trim_space
quarter = refl

-- Two licences of 10 and 30 share 100.
abbrev licences : List (Text × ℕ)
licences = (codes "ann", 10) ∷ (codes "bob", 30) ∷ []

all_licences : lzn_sum licences ≡ 40
unfolding lzn_sum
all_licences = refl

rewards_for-Bounded_example :
    base_sum host
      (rewards_for host default_params (λ v. none) 100 (total_lzn host licences) licences)
    ≤ 100
rewards_for-Bounded_example =
    rewards_for-Bounded host default_params (λ v. none) 100 licences (rw all_licences (omega arith))
      (rw all_licences (omega arith)) (rw all_licences (omega arith))

abbrev first_halving : State W
first_halving = process_halving W 1 quiet

halving_keeps_pace_example :
    ((get_halving_info W first_halving).halving_interval ≡ halving_interval)
    × ((get_halving_info W first_halving).next_halving_height
        ≡ (get_halving_count 1 + 1) * halving_interval)
    × ((get_halving_info W first_halving).last_halving_height
        ≡ get_halving_count 1 * halving_interval)
halving_keeps_pace_example =
    halving_keeps_pace W 1 first_halving (omega arith)
      (Halvings.block quiet (Halvings.start {s = quiet} refl) refl)
