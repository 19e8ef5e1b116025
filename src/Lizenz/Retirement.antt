-- ===== src/Lizenz/Retirement.antt =====
-- CheckInactiveLizenz of x/lizenz/keeper/keeper.go: one licence retired.
pub mod Sweep
use mathlib.Core.Bool.{false≢true}
use volnix_protocol.Base.{
  ◌∙◌, sym, refl, ◌≢◌, ◌≡◌, none, some, Option, List, [], ◌∷◌, Text, codes, text_eq, if◌then◌else◌,
  arith, ok, ℤ, ltb_ℤ, text_is_eq, text_eq_iff, false, true, Bool-cases, inl, inr, ap, ◌-ℤ◌,
}
use volnix_protocol.KvStore.{KvStore, text_key}
use volnix_protocol.KvStore
use volnix_protocol.KvStore.Sorted.{text_order, IsSorted, AllAfter, get-AllAfter}
use volnix_protocol.Host.{Env}
use volnix_protocol.Lizenz.Types.{ActivatedLizenz, DeactivatingLizenz, new_deactivating_lizenz}
use volnix_protocol.Lizenz.Neighbours.{Neighbours}
use volnix_protocol.Lizenz.Keeper.{State, delete_activated_lizenz}
use volnix_protocol.Lizenz.Blocks.{
  set_deactivating_lizenz, retire, retire_inactive, check_inactive_lizenz,
}

-- Every licence stands under its own validator.
unfoldable pub IsNamed : KvStore Text ActivatedLizenz → Type 0
IsNamed [] = Unit
IsNamed ((k, l) ∷ m) = (l.validator ≡ k) × IsNamed m

-- The licence of a validator, if it is inactive since before the threshold.
unfoldable pub inactive_at : Text → ℤ → KvStore Text ActivatedLizenz → Option ActivatedLizenz
inactive_at v threshold m = elim (KvStore.get v m) [
  | none ↦ none
  | some l ↦ if ltb_ℤ l.last_activity threshold then some l else none
]

-- The entry that a retired licence gets.
abbrev pub retired_as : ℤ → ActivatedLizenz → DeactivatingLizenz
retired_as now l = new_deactivating_lizenz now l.validator l.amount (codes "inactivity")

module _ (n : Neighbours) where
  delete-ok :
      (e : Env) (v : Text) (s : State n)
      → (delete_activated_lizenz n e v s).0 ≡ ok tt
      → ((delete_activated_lizenz n e v s).1.activated ≡ KvStore.delete v s.activated)
        × ((delete_activated_lizenz n e v s).1.deactivating ≡ s.deactivating)
        × ((delete_activated_lizenz n e v s).1.params ≡ s.params)
  unfolding delete_activated_lizenz
  delete-ok e v s r = ground arith

  set_deactivating-ok :
      (l : DeactivatingLizenz) (s : State n)
      → (set_deactivating_lizenz n l s).0 ≡ ok tt
      → (KvStore.get l.validator s.deactivating ≡ none)
        × ((set_deactivating_lizenz n l s).1
            ≡ record s { deactivating = KvStore.set l.validator l s.deactivating })
  unfolding set_deactivating_lizenz
  set_deactivating-ok l s r = ground arith

  -- One licence retired: what the two stores hold for a validator then.
  pub retire-ok :
      (e : Env) (l : ActivatedLizenz) (s : State n) (v : Text)
      → (retire n e l s).0 ≡ ok tt
      → (KvStore.get v (retire n e l s).1.activated
          ≡ (if text_eq l.validator v then none else KvStore.get v s.activated))
        × (KvStore.get v (retire n e l s).1.deactivating ≡ (
            if text_eq l.validator v
            then some (retired_as e.now l)
            else KvStore.get v s.deactivating))
        × (KvStore.get l.validator s.deactivating ≡ none)
        × ((retire n e l s).1.params ≡ s.params)
  unfolding retire
  retire-ok e l s v r =
      let d = retired_as e.now l in
      ground (
        arith,
        set_deactivating-ok d s,
        delete-ok e l.validator (set_deactivating_lizenz n d s).1,
        KvStore.get-delete v l.validator s.activated,
        KvStore.get-set v l.validator d s.deactivating,
      )

-- What retiring leaves of a validator in the two stores.
abbrev pub after_retirement :
    Option ActivatedLizenz → Option ActivatedLizenz → Option ActivatedLizenz
after_retirement none before = before
after_retirement (some l) before = none

abbrev pub retired_entry :
    ℤ → Option ActivatedLizenz → Option DeactivatingLizenz → Option DeactivatingLizenz
retired_entry now none before = before
retired_entry now (some l) before = some (retired_as now l)

-- The entry at the head of a sorted store is the one of its key.
pub inactive_at_head :
    (v : Text) (threshold : ℤ) (k : Text) (l : ActivatedLizenz) (m : KvStore Text ActivatedLizenz)
    → AllAfter k m
    → k ≡ v
    → (inactive_at v threshold m ≡ none)
      × (inactive_at v threshold ((k, l) ∷ m)
          ≡ (if ltb_ℤ l.last_activity threshold then some l else none))
unfolding inactive_at KvStore.get
inactive_at_head v threshold k l m after same =
    (ground (arith, get-AllAfter k m after, same), ground (arith, text_eq_iff k v, same))

pub inactive_at_tail :
    (v : Text) (threshold : ℤ) (k : Text) (l : ActivatedLizenz) (m : KvStore Text ActivatedLizenz)
    → k ≢ v
    → inactive_at v threshold ((k, l) ∷ m) ≡ inactive_at v threshold m
unfolding inactive_at KvStore.get
inactive_at_tail v threshold k l m other = ground (arith, text_eq_iff k v)

-- What a sweep did to the validator `v`, whose inactive licence, if it had one, is `o`.
pub record Swept (n : Neighbours) (now : ℤ) (v : Text) (o : Option ActivatedLizenz) (s s' : State n)
    : Type 0 where
  pub activated_left : KvStore.get v s'.activated ≡ after_retirement o (KvStore.get v s.activated)
  pub deactivating_now :
      KvStore.get v s'.deactivating ≡ retired_entry now o (KvStore.get v s.deactivating)
  pub was_free : (l : ActivatedLizenz) → o ≡ some l → KvStore.get v s.deactivating ≡ none
  pub params_same : s'.params ≡ s.params
