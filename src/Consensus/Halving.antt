-- ===== src/Consensus/Halving.antt =====
-- What the halving amounts to: the base reward in closed form, and the record of the next halving.
use volnix_protocol.Base.{
  ℕ, zero, suc, ◌+◌, ◌*◌, ◌/◌, ◌^◌, ◌<◌, ◌≡◌, refl, sym, ◌∙◌, none, nat_eq, if◌then◌else◌, arith,
  ℕ_discrete,
}
use native.Mathlib.Nat.{div-div-eq-div-mul, zero-div}
use volnix_protocol.Consensus.Params.{Params}
use volnix_protocol.Consensus.Types.{HalvingInfo}
use volnix_protocol.Consensus.Auctions.{State}
use volnix_protocol.Consensus.Rewards.{
  halving_interval, get_halving_count, stated_reward, halved, calculate_base_reward,
  get_halving_info, info_or_default, process_halving, set_halving_info,
}

halves_none : (n : ℕ) → 0 ≡ 0 / 2 ^ n
halves_none n = sym (zero-div (2 ^ n))

halved-eq-quotient : (n r : ℕ) → halved n r ≡ r / 2 ^ n
unfolding halved
halved-eq-quotient zero r = omega arith
halved-eq-quotient (suc n) r = elim (ℕ_discrete r 0) [
  | yes none_left ↦ rw none_left (halves_none (suc n))
  | no some_left ↦ ground (arith, halved-eq-quotient n (r / 2) ∙ div-div-eq-div-mul r 2 (2 ^ n))
]

-- The base reward is the stated one divided by two to the number of halvings, and never less than
-- one.
pub calculate_base_reward-eq-quotient :
    (p : Params) (height : ℕ)
    → calculate_base_reward p height ≡ (
        if nat_eq (stated_reward p / 2 ^ get_halving_count height) 0
        then 1
        else stated_reward p / 2 ^ get_halving_count height)
unfolding calculate_base_reward get_halving_count
calculate_base_reward-eq-quotient p height =
    rw (halved-eq-quotient (height / halving_interval) (stated_reward p)) refl

module _ (W : Type 0) where
  -- The height of a chain and its state after ProcessHalving of that height, called once or more
  -- often for each block; between the calls anything but the halving record may change.
  pub data Halvings : ℕ → State W → Type 0 where
    start : {s : State W} → s.halving_info ≡ none → Halvings 0 s
    block :
        {n : ℕ} {s : State W} (t : State W)
        → Halvings n s
        → t.halving_info ≡ s.halving_info
        → Halvings (suc n) (process_halving W (suc n) t)
    again :
        {n : ℕ} {s : State W} (t : State W)
        → Halvings n s
        → t.halving_info ≡ s.halving_info
        → Halvings n (process_halving W n t)

  -- The record names the first multiple of the interval after the height, and the last one before.
  IsOnPace : ℕ → HalvingInfo → Type 0
  IsOnPace n i =
      (i.halving_interval ≡ halving_interval)
      × (i.next_halving_height ≡ (get_halving_count n + 1) * halving_interval)
      × (i.last_halving_height ≡ get_halving_count n * halving_interval)

  -- ProcessHalving keeps the record on pace, and brings it on pace from the block before.
  process_halving-again :
      (n : ℕ) (s : State W)
      → IsOnPace n (get_halving_info W s)
      → IsOnPace n (get_halving_info W (process_halving W n s))
  unfolding process_halving get_halving_info set_halving_info info_or_default get_halving_count
      IsOnPace
  process_halving-again n s paced = ground arith

  process_halving-next :
      (n : ℕ) (s : State W)
      → n < 2 ^ 63
      → IsOnPace n (get_halving_info W s)
      → IsOnPace (suc n) (get_halving_info W (process_halving W (suc n) s))
  unfolding process_halving get_halving_info set_halving_info info_or_default get_halving_count
      IsOnPace
  process_halving-next n s small paced = ground arith

  same_info :
      (n : ℕ) (s t : State W)
      → t.halving_info ≡ s.halving_info
      → IsOnPace n (get_halving_info W s)
      → IsOnPace n (get_halving_info W t)
  unfolding get_halving_info
  same_info n s t same paced = rw same paced

  -- On a chain that began with no halving record and has processed every block, once or more
  -- often, the next halving is at the next multiple of the interval after the height and the last
  -- one at the multiple before, as long as the height is below 2^63.
  pub halving_keeps_pace :
      (n : ℕ) (s : State W)
      → n < 2 ^ 63
      → Halvings n s
      → ((get_halving_info W s).halving_interval ≡ halving_interval)
        × ((get_halving_info W s).next_halving_height
            ≡ (get_halving_count n + 1) * halving_interval)
        × ((get_halving_info W s).last_halving_height ≡ get_halving_count n * halving_interval)
  unfolding IsOnPace get_halving_info info_or_default get_halving_count
  halving_keeps_pace n s small (start fresh) = ground arith
  halving_keeps_pace n s small (block {n = m} {s = r} t before same) =
      process_halving-next m t (omega arith)
        (same_info m r t same (halving_keeps_pace m r (omega arith) before))
  halving_keeps_pace n s small (again {n = m} {s = r} t before same) =
      process_halving-again n t (same_info n r t same (halving_keeps_pace n r small before))
