-- ===== src/Consensus/Shares.antt =====
-- The shares of the base reward add up to no more than the reward.
use volnix_protocol.Base.{
  ℕ, ◌+◌, ◌*◌, ◌/◌, ◌^◌, ◌≤◌, ◌<◌, ◌≡◌, inl, inr, refl, sym, subst, true, Option, List, [], ◌∷◌,
  Text, nat_eq, arith, Bool-cases,
}
use native.Mathlib.Nat.{le-div_iff_mul-le, add-mul, mul-add, div-mul-le_self, mul-div_cancel}
use volnix_protocol.Host.{Host}
use volnix_protocol.Consensus.Params.{Params}
use volnix_protocol.Consensus.Lottery.{unwrapped}
use volnix_protocol.Consensus.Distribution.{
  ValidatorRewardInfo, total_lzn, base_share, reward_for, rewards_for,
}

-- The sum of the licences, unbounded.
unfoldable pub lzn_sum : List (Text × ℕ) → ℕ
lzn_sum [] = 0
lzn_sum ((v, lzn) ∷ rest) = lzn + lzn_sum rest

unfoldable pub base_sum : (h : Host) → List (ValidatorRewardInfo h) → ℕ
base_sum h [] = 0
base_sum h (r ∷ rs) = r.base_reward_amount + base_sum h rs

total_lzn-eq-sum :
    (h : Host) (lzns : List (Text × ℕ)) → lzn_sum lzns < 2 ^ 64 → total_lzn h lzns ≡ lzn_sum lzns
unfolding total_lzn lzn_sum
total_lzn-eq-sum h [] fits = refl
total_lzn-eq-sum h ((v, lzn) ∷ rest) fits = rw (total_lzn-eq-sum h rest (omega arith)) (omega arith)

-- Rounding down twice gives no more than rounding down once.
div_sum : (a b t : ℕ) → 0 < t → a / t + b / t ≤ (a + b) / t
div_sum a b t positive =
    (le-div_iff_mul-le positive).1
      (rw (add-mul (a / t) (b / t) t) (omega (arith, div-mul-le_self a t, div-mul-le_self b t)))

add_below : (a b c d : ℕ) → d ≤ b → a + b ≤ c → a + d ≤ c
add_below a b c d less sum = omega arith

share-below :
    (h : Host) (reward total lzn sum more : ℕ)
    → 0 < total
    → reward * (lzn + sum) < 2 ^ 64
    → more ≤ (reward * sum) / total
    → base_share h reward total lzn + more ≤ (reward * (lzn + sum)) / total
unfolding base_share
share-below h reward total lzn sum more positive fits below =
    let small = subst (λ x. x < 2 ^ 64) (mul-add reward lzn sum) fits in
    rw (mul-add reward lzn sum, unwrapped (reward * lzn) (omega arith))
      (add_below (reward * lzn / total) (reward * sum / total) _ more below
        (div_sum (reward * lzn) (reward * sum) total positive))

none_added : (lzn sum : ℕ) → nat_eq lzn 0 ≡ true → lzn + sum ≡ sum
none_added lzn sum none_left = ground arith

base_sum-below :
    (h : Host) (p : Params) (compliance_of : Text → Option h.Float) (reward total : ℕ)
    (lzns : List (Text × ℕ))
    → 0 < total
    → reward * lzn_sum lzns < 2 ^ 64
    → base_sum h (rewards_for h p compliance_of reward total lzns) ≤ (reward * lzn_sum lzns) / total
unfolding base_sum rewards_for lzn_sum reward_for
base_sum-below h p compliance_of reward total [] positive fits = omega arith
base_sum-below h p compliance_of reward total ((v, lzn) ∷ rest) positive fits =
    let small = subst (λ x. x < 2 ^ 64) (mul-add reward lzn (lzn_sum rest)) fits in
    let later = base_sum-below h p compliance_of reward total rest positive (omega arith) in
    elim (Bool-cases (nat_eq lzn 0)) [
      | inl none_left ↦ rw none_left (
          subst
            (λ x. base_sum h (rewards_for h p compliance_of reward total rest) ≤ reward * x / total)
            (sym (none_added lzn (lzn_sum rest) none_left)) later)
      | inr some_left ↦
          rw some_left (share-below h reward total lzn (lzn_sum rest) _ positive fits later)
    ]

-- While the licences add up to a uint64 that is not zero, and the base reward times that sum is a
-- uint64 too, the base amounts of all validators add up to no more than the base reward.
pub rewards_for-Bounded :
    (h : Host) (p : Params) (compliance_of : Text → Option h.Float) (reward : ℕ)
    (lzns : List (Text × ℕ))
    → 0 < lzn_sum lzns
    → lzn_sum lzns < 2 ^ 64
    → reward * lzn_sum lzns < 2 ^ 64
    → base_sum h (rewards_for h p compliance_of reward (total_lzn h lzns) lzns) ≤ reward
rewards_for-Bounded h p compliance_of reward lzns some_left fits small =
    rw (total_lzn-eq-sum h lzns fits) (
      subst (λ x. base_sum h (rewards_for h p compliance_of reward (lzn_sum lzns) lzns) ≤ x)
        (mul-div_cancel reward some_left)
        (base_sum-below h p compliance_of reward (lzn_sum lzns) lzns some_left small))
