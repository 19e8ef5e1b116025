-- ===== src/Lizenz/Invariant/Blocks.antt =====
-- BeginBlocker of x/lizenz/keeper/keeper.go against the invariant.
use volnix_protocol.Base.{
  inl, inr, List, [], ◌∷◌, Text, ℤ, ◌-ℤ◌, ltb_ℤ, ◌>>=◌, Outcome-cases, Bool-cases,
}
use volnix_protocol.KvStore.{KvStore, text_key}
use volnix_protocol.KvStore
use volnix_protocol.Host.{Env}
use volnix_protocol.Lizenz.Types.{ActivatedLizenz, DeactivatingLizenz}
use volnix_protocol.Lizenz.Neighbours.{Neighbours}
use volnix_protocol.Lizenz.Keeper.{State, Handler}
use volnix_protocol.Lizenz.Blocks.{
  delete_deactivating_lizenz, retire, retire_inactive, check_inactive_lizenz, release_ended,
  process_deactivating_lizenz, begin_blocker,
}
use volnix_protocol.Lizenz.Params.{Params}
use volnix_protocol.Lizenz.Invariant.{IsSound, IsWithin, IsLicensed, Every}
use volnix_protocol.Lizenz.Invariant.Operations.{delete-IsSound, aside-IsSound, release-IsSound}

-- A handler that keeps the stores sound, whatever it answers.
abbrev pub Keeps : (n : Neighbours) (p : Params) {A : Type 0} → Handler n A → Type 0
Keeps n p m = (s : State n) → IsSound n p s → IsSound n p (m s).1

pub Keeps-bind :
    (n : Neighbours) (p : Params) {A B : Type 0} (m : Handler n A) (f : A → Handler n B)
    → Keeps n p m
    → ((a : A) → Keeps n p (f a))
    → Keeps n p (m >>= f)
Keeps-bind n p m f first then_next s sound = elim (Outcome-cases (m s).0) [
  | inl (a, done) ↦ rw done (then_next a (m s).1 (first s sound))
  | inr (x, failed) ↦ rw failed (first s sound)
]

-- The licences of a list are within the limits.
unfoldable AllWithin : Params → List ActivatedLizenz → Type 0
AllWithin p [] = Unit
AllWithin p (l ∷ ls) = IsWithin p l.amount × AllWithin p ls

values-AllWithin :
    (p : Params) (m : KvStore Text ActivatedLizenz)
    → Every (IsLicensed p) m
    → AllWithin p (KvStore.values m)
unfolding AllWithin Every KvStore.values
values-AllWithin p [] all = tt
values-AllWithin p ((k, l) ∷ m) (first, all) = (first.within, values-AllWithin p m all)

module _ (n : Neighbours) (p : Params) where
  retire-Keeps : (e : Env) (l : ActivatedLizenz) → IsWithin p l.amount → Keeps n p (retire n e l)
  unfolding retire
  retire-Keeps e l within =
      Keeps-bind n p _ _ (aside-IsSound n p _ within) λ _. delete-IsSound n p e l.validator

  retire_inactive-Keeps :
      (e : Env) (threshold : ℤ) (ls : List ActivatedLizenz)
      → AllWithin p ls
      → Keeps n p (retire_inactive n e threshold ls)
  unfolding retire_inactive AllWithin
  retire_inactive-Keeps e threshold [] all s sound = sound
  retire_inactive-Keeps e threshold (l ∷ ls) (within, all) s sound =
      elim (Bool-cases (ltb_ℤ l.last_activity threshold)) [
        | inl idle ↦ rw idle (
            Keeps-bind n p (retire n e l) (λ _. retire_inactive n e threshold ls)
              (retire-Keeps e l within) (λ _. retire_inactive-Keeps e threshold ls all) s sound)
        | inr busy ↦ rw busy (retire_inactive-Keeps e threshold ls all s sound)
      ]

  release_ended-Keeps :
      (threshold : ℤ) (ls : List DeactivatingLizenz) → Keeps n p (release_ended n threshold ls)
  unfolding release_ended
  release_ended-Keeps threshold [] s sound = sound
  release_ended-Keeps threshold (l ∷ ls) s sound =
      elim (Bool-cases (ltb_ℤ l.deactivation_end threshold)) [
        | inl over ↦ rw over (
            Keeps-bind n p (delete_deactivating_lizenz n l.validator)
              (λ _. release_ended n threshold ls) (release-IsSound n p l.validator)
              (λ _. release_ended-Keeps threshold ls) s sound)
        | inr running ↦ rw running (release_ended-Keeps threshold ls s sound)
      ]

  pub begin_blocker-Keeps : (e : Env) → Keeps n p (begin_blocker n e)
  unfolding begin_blocker check_inactive_lizenz process_deactivating_lizenz
  begin_blocker-Keeps e =
      Keeps-bind n p _ _
        (λ s sound.
          retire_inactive-Keeps e (e.block_time -ℤ s.params.inactivity_period)
            (KvStore.values s.activated) (values-AllWithin p s.activated sound.licensed) s sound)
        (λ _ s.
          release_ended-Keeps (e.block_time -ℤ s.params.deactivation_period)
            (KvStore.values s.deactivating) s)
