-- ===== src/Consensus/Lottery.antt =====
-- The draw of the winner among the reveals.
use volnix_protocol.Base.{ℕ, ◌+◌, ◌%◌, ◌^◌, ◌≤◌, ◌<◌, ◌≡◌, ◌∙◌, some, List, [], ◌∷◌, ◌++◌, arith}
use volnix_protocol.Consensus.Types.{BidReveal}
use volnix_protocol.Consensus.Selection.{weight_of, total_bid, drawn}

-- The sum of the weights, unbounded.
unfoldable pub weights : List BidReveal → ℕ
weights [] = 0
weights (r ∷ rs) = weight_of r + weights rs

pub unwrapped : (n : ℕ) → n < 2 ^ 64 → n % 2 ^ 64 ≡ n
unwrapped n fits = omega arith

total_bid-from :
    (sum : ℕ) (rs : List BidReveal)
    → sum + weights rs < 2 ^ 64
    → total_bid sum rs ≡ sum + weights rs
unfolding total_bid weights
total_bid-from sum [] fits = omega arith
total_bid-from sum (r ∷ rs) fits =
    rw (unwrapped (sum + weight_of r) (omega arith))
      (total_bid-from (sum + weight_of r) rs (omega arith) ∙ omega arith)

drawn-from :
    (ticket sum : ℕ) (before : List BidReveal) (r : BidReveal) (later : List BidReveal)
    → sum + weights (before ++ r ∷ later) < 2 ^ 64
    → sum + weights before ≤ ticket
    → ticket < sum + weights before + weight_of r
    → drawn ticket sum (before ++ r ∷ later) ≡ some r
unfolding drawn weights
drawn-from ticket sum [] r later fits above below = ground (arith, unwrapped (sum + weight_of r))
drawn-from ticket sum (b ∷ before) r later fits above below =
    ground
      (arith, unwrapped (sum + weight_of b), drawn-from ticket (sum + weight_of b) before r later)

-- While the revealed bids add up to a uint64, the total of the lottery is their sum, and a ticket
-- below it is won by the reveal in whose stretch it lies: each reveal has as many tickets as it
-- bids.
pub drawn-Proportional :
    (ticket : ℕ) (before : List BidReveal) (r : BidReveal) (later : List BidReveal)
    → weights (before ++ r ∷ later) < 2 ^ 64
    → weights before ≤ ticket
    → ticket < weights before + weight_of r
    → (total_bid 0 (before ++ r ∷ later) ≡ weights (before ++ r ∷ later))
      × (drawn ticket 0 (before ++ r ∷ later) ≡ some r)
drawn-Proportional ticket before r later fits above below = (
  total_bid-from 0 (before ++ r ∷ later) (omega arith) ∙ omega arith,
  drawn-from ticket 0 before r later (omega arith) (omega arith) (omega arith),
)
