-- ===== src/Lizenz/Release.antt =====
-- ProcessDeactivatingLizenz of x/lizenz/keeper/keeper.go: which licences in deactivation a block
-- releases.

use volnix_protocol.Base.{
  subst, Text, ℤ, ◌≡◌, ok, Option, none, some, List, [], ◌∷◌, true, false, sym, ◌∙◌, ap, arith,
  refl, text_eq, text_eq_iff, if◌then◌else◌, Bool-cases, inl, inr, ltb_ℤ, ◌-ℤ◌,
}
use volnix_protocol.KvStore.{KvStore, text_key}
use volnix_protocol.KvStore
use volnix_protocol.KvStore.Sorted.{AllAfter, IsSorted, get-AllAfter, text_order}
use volnix_protocol.Host.{Env}
use volnix_protocol.Lizenz.Types.{DeactivatingLizenz}
use volnix_protocol.Lizenz.Neighbours.{Neighbours}
use volnix_protocol.Lizenz.Keeper.{State}
use volnix_protocol.Lizenz.Blocks.{
  delete_deactivating_lizenz, release_ended, process_deactivating_lizenz,
}

-- Every entry stands under its own validator.
unfoldable pub IsLabelled : KvStore Text DeactivatingLizenz → Type 0
IsLabelled [] = Unit
IsLabelled ((k, d) ∷ m) = (d.validator ≡ k) × IsLabelled m

-- What is left of an entry when the period is over at the threshold.
abbrev pub unless_ended : ℤ → Option DeactivatingLizenz → Option DeactivatingLizenz
unless_ended threshold none = none
unless_ended threshold (some d) = if ltb_ℤ d.deactivation_end threshold then none else some d

-- The entry among those still to come, or the one that stands now if there is none.
abbrev left_of :
    ℤ → Option DeactivatingLizenz → Option DeactivatingLizenz → Option DeactivatingLizenz
left_of threshold none now = now
left_of threshold (some d) now = if ltb_ℤ d.deactivation_end threshold then none else now

module _ (n : Neighbours) (threshold : ℤ) (v : Text) where
  release-ok :
      (w : Text) (s : State n)
      → (delete_deactivating_lizenz n w s).0 ≡ ok tt
      → (KvStore.get v (delete_deactivating_lizenz n w s).1.deactivating
          ≡ (if text_eq w v then none else KvStore.get v s.deactivating))
        × ((delete_deactivating_lizenz n w s).1
            ≡ record s { deactivating = (delete_deactivating_lizenz n w s).1.deactivating })
  unfolding delete_deactivating_lizenz
  release-ok w s r = ground (arith, KvStore.get-delete v w s.deactivating)

  release_step :
      (d : DeactivatingLizenz) (ds : List DeactivatingLizenz) (s : State n)
      → ltb_ℤ d.deactivation_end threshold ≡ true
      → (release_ended n threshold (d ∷ ds) s).0 ≡ ok tt
      → ((delete_deactivating_lizenz n d.validator s).0 ≡ ok tt)
        × (release_ended n threshold (d ∷ ds) s
            ≡ release_ended n threshold ds (delete_deactivating_lizenz n d.validator s).1)
  unfolding release_ended
  release_step d ds s over r = ground arith

  keep_step :
      (d : DeactivatingLizenz) (ds : List DeactivatingLizenz) (s : State n)
      → ltb_ℤ d.deactivation_end threshold ≡ false
      → release_ended n threshold (d ∷ ds) s ≡ release_ended n threshold ds s
  unfolding release_ended
  keep_step d ds s running = rw running

  module _ (k : Text) (d : DeactivatingLizenz) (m : KvStore Text DeactivatingLizenz)
      (after : AllAfter k m) (now : Option DeactivatingLizenz) where
    gone : k ≡ v → KvStore.get v m ≡ none
    gone same = subst (λ w. KvStore.get w m ≡ none) same (get-AllAfter k m after)

    left_of_ended :
        d.validator ≡ k
        → ltb_ℤ d.deactivation_end threshold ≡ true
        → left_of threshold (KvStore.get v ((k, d) ∷ m)) now
          ≡ left_of threshold (KvStore.get v m) (if text_eq d.validator v then none else now)
    unfolding KvStore.get
    left_of_ended own over = elim (Bool-cases (text_eq k v)) [
      | inl hit ↦ rw (own, hit, gone ((text_eq_iff k v).0 hit), over) refl
      | inr miss ↦ rw (own, miss) refl
    ]

    left_of_running :
        ltb_ℤ d.deactivation_end threshold ≡ false
        → left_of threshold (KvStore.get v ((k, d) ∷ m)) now
          ≡ left_of threshold (KvStore.get v m) now
    unfolding KvStore.get
    left_of_running running = elim (Bool-cases (text_eq k v)) [
      | inl hit ↦ rw (hit, gone ((text_eq_iff k v).0 hit), running) refl
      | inr miss ↦ rw miss refl
    ]

  release :
      (m : KvStore Text DeactivatingLizenz) (s : State n)
      → IsSorted m
      → IsLabelled m
      → (release_ended n threshold (KvStore.values m) s).0 ≡ ok tt
      → (KvStore.get v (release_ended n threshold (KvStore.values m) s).1.deactivating
          ≡ left_of threshold (KvStore.get v m) (KvStore.get v s.deactivating))
        × ((release_ended n threshold (KvStore.values m) s).1.activated ≡ s.activated)
  unfolding IsSorted IsLabelled KvStore.values
  release [] s sorted labelled r = unfold release_ended KvStore.get in (refl, refl)
  release ((k, d) ∷ m) s (after, sorted) (own, labelled) r =
      elim (Bool-cases (ltb_ℤ d.deactivation_end threshold)) [
        | inl over ↦
            let (released, goes_on) = release_step d (KvStore.values m) s over r in
            let (left, frame) = release-ok d.validator s released in
            let (rest, kept) =
              release m (delete_deactivating_lizenz n d.validator s).1 sorted labelled
                (sym (ap (λ o. o.0) goes_on) ∙ r) in
            rw goes_on (
              cc (rest, left, left_of_ended k d m after (KvStore.get v s.deactivating) own over),
              kept ∙ ap (λ (t : State n). t.activated) frame,
            )
        | inr running ↦
            let goes_on = keep_step d (KvStore.values m) s running in
            let (rest, kept) = release m s sorted labelled (sym (ap (λ o. o.0) goes_on) ∙ r) in
            rw goes_on (
              rest ∙ sym (left_of_running k d m after (KvStore.get v s.deactivating) running),
              kept,
            )
      ]

left_of_self :
    (threshold : ℤ) (o : Option DeactivatingLizenz)
    → left_of threshold o o ≡ unless_ended threshold o
left_of_self threshold none = refl
left_of_self threshold (some d) = refl

-- Where the store of licences in deactivation is sorted and every entry stands under its own
-- validator, an accepted ProcessDeactivatingLizenz removes exactly the entries that ended before
-- the block time less the deactivation period, keeps the others, and leaves the activated
-- licences alone.
pub process_deactivating_lizenz_lem :
    (n : Neighbours) (e : Env) (s : State n) (v : Text)
    → IsSorted s.deactivating
    → IsLabelled s.deactivating
    → (process_deactivating_lizenz n e s).0 ≡ ok tt
    → (KvStore.get v (process_deactivating_lizenz n e s).1.deactivating
        ≡ unless_ended
            (e.block_time -ℤ s.params.deactivation_period)
            (KvStore.get v s.deactivating))
      × ((process_deactivating_lizenz n e s).1.activated ≡ s.activated)
unfolding process_deactivating_lizenz
process_deactivating_lizenz_lem n e s v sorted labelled r =
    let threshold = e.block_time -ℤ s.params.deactivation_period in
    let (left, kept) = release n threshold v s.deactivating s sorted labelled r in
    (left ∙ left_of_self threshold (KvStore.get v s.deactivating), kept)
