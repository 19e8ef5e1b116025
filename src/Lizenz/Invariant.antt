-- ===== src/Lizenz/Invariant.antt =====
-- The invariant of the stores of x/lizenz/keeper/keeper.go.
pub mod Operations
pub mod Blocks
pub mod Steps
use volnix_protocol.Base.{
  ℕ, zero, suc, ◌+◌, ◌-◌, ◌*◌, ◌/◌, ◌%◌, ◌^◌, ◌≤◌, ◌<◌, ◌≡◌, ◌≢◌, ◌↔◌, ◌⊎◌, inl, inr, refl, sym, ap,
  ◌∙◌, subst, fun_ext, Bool, true, false, not, ◌&&◌, ◌||◌, Option, none, some, List, [], ◌∷◌, ◌++◌,
  map, Text, codes, is_empty, text_eq, text_lt, ℤ, pos, negsuc, ◌+ℤ◌, ◌-ℤ◌, ltb_ℤ, leb_ℤ, ltb, leb,
  nat_eq, if◌then◌else◌, Outcome, ok, err, Action, pure, raise, gets, lift, or_raise, modify,
  raise_if, ◌>>=◌, ◌>>◌, is_some, length, arith, Outcome-cases, Option-cases, Bool-cases,
  text_eq_iff, text_eq_refl,
}
use volnix_protocol.KvStore.{KvStore, text_key}
use volnix_protocol.KvStore
use volnix_protocol.KvStore.Sorted.{text_order, IsSorted, set-IsSorted, delete-IsSorted}
use volnix_protocol.Lizenz.Types.{
  ActivatedLizenz, DeactivatingLizenz, is_activated_lizenz_valid, is_deactivating_lizenz_valid,
}
use volnix_protocol.Host.{Host, Env}
use volnix_protocol.Lizenz.Params.{Params}
use volnix_protocol.Lizenz.Neighbours.{Neighbours}
use volnix_protocol.Lizenz.Keeper.{
  State, set_activated_lizenz, update_activated_lizenz, delete_activated_lizenz, store_lizenz,
  validate_lizenz_amount,
}
use volnix_protocol.Lizenz.Retirement.{IsNamed}
use volnix_protocol.Lizenz.Activation.{AmountInBounds}
use volnix_protocol.Lizenz.Blocks.{delete_deactivating_lizenz, set_deactivating_lizenz}

IsNamed-set :
    (l : ActivatedLizenz) (m : KvStore Text ActivatedLizenz)
    → IsNamed m
    → IsNamed (KvStore.set l.validator l m)
unfolding IsNamed KvStore.set
IsNamed-set l [] named = ground arith
IsNamed-set l ((k, w) ∷ m) (own, named) = ground (arith, IsNamed-set l m named)

IsNamed-delete :
    (v : Text) (m : KvStore Text ActivatedLizenz) → IsNamed m → IsNamed (KvStore.delete v m)
unfolding IsNamed KvStore.delete
IsNamed-delete v [] named = named
IsNamed-delete v ((k, w) ∷ m) (own, named) = ground (arith, IsNamed-delete v m named)

-- All that is stored has a property.
unfoldable pub Every {ℓ} : {V : Type 0} → (V → Type ℓ) → KvStore Text V → Type ℓ
Every P [] = Unit
Every P ((k, v) ∷ m) = P v × Every P m

Every-set :
    {V : Type 0} (P : V → Type 0) (k : Text) (v : V) (m : KvStore Text V)
    → P v
    → Every P m
    → Every P (KvStore.set k v m)
unfolding Every KvStore.set
Every-set P k v [] fits all = (fits, tt)
Every-set P k v ((j, w) ∷ m) fits (first, all) = elim (Bool-cases (text_eq j k)) [
  | inl same ↦ rw same (fits, all)
  | inr other ↦ elim (Bool-cases (text_lt k j)) [
    | inl ahead ↦ rw (other, ahead) (fits, (first, all))
    | inr behind ↦ rw (other, behind) (first, Every-set P k v m fits all)
  ]
]

Every-delete :
    {V : Type 0} (P : V → Type 0) (k : Text) (m : KvStore Text V)
    → Every P m
    → Every P (KvStore.delete k m)
unfolding Every KvStore.delete
Every-delete P k [] all = all
Every-delete P k ((j, w) ∷ m) (first, all) = elim (Bool-cases (text_eq j k)) [
  | inl same ↦ rw same (Every-delete P k m all)
  | inr other ↦ rw other (first, Every-delete P k m all)
]

pub Every-get :
    {V : Type 0} (P : V → Type 0) (k : Text) (v : V) (m : KvStore Text V)
    → Every P m
    → KvStore.get k m ≡ some v
    → P v
unfolding Every KvStore.get
Every-get P k v [] all found = absurd (ground arith)
Every-get P k v ((j, w) ∷ m) (first, all) found = elim (Bool-cases (text_eq j k)) [
  | inl same ↦ subst P (ground arith) first
  | inr other ↦ Every-get P k v m all (ground arith)
]

-- The amount is a number within the limits of the parameters.
abbrev pub IsWithin : Params → Text → Type 0
IsWithin p amount = (value : ℤ) × AmountInBounds amount p value

pub record IsLicensed (p : Params) (l : ActivatedLizenz) : Type 0 where
  pub has_validator : is_empty l.validator ≡ false
  pub has_identity_hash : is_empty l.identity_hash ≡ false
  pub within : IsWithin p l.amount

pub record IsLeaving (p : Params) (d : DeactivatingLizenz) : Type 0 where
  pub has_validator : is_empty d.validator ≡ false
  pub has_reason : is_empty d.reason ≡ false
  pub within : IsWithin p d.amount

-- Under parameters `p` every licence and every entry in deactivation has its texts and an amount
-- within the limits; both stores are sorted, and every licence stands under its own validator.
pub record IsSound (n : Neighbours) (p : Params) (s : State n) : Type 0 where
  pub params_same : s.params ≡ p
  pub licensed : Every (IsLicensed p) s.activated
  pub leaving : Every (IsLeaving p) s.deactivating
  pub activated_sorted : IsSorted s.activated
  pub activated_named : IsNamed s.activated
  pub deactivating_sorted : IsSorted s.deactivating

-- What an operation may do to the licences.
pub data Edit (n : Neighbours) (p : Params) (s s' : State n) : Type 0 where
  untouched :
      s'.params ≡ s.params
      → s'.activated ≡ s.activated
      → s'.deactivating ≡ s.deactivating
      → Edit n p s s'
  stored :
      (l : ActivatedLizenz)
      → IsLicensed p l
      → s'.params ≡ s.params
      → s'.activated ≡ KvStore.set l.validator l s.activated
      → s'.deactivating ≡ s.deactivating
      → Edit n p s s'
  removed :
      (v : Text)
      → s'.params ≡ s.params
      → s'.activated ≡ KvStore.delete v s.activated
      → s'.deactivating ≡ s.deactivating
      → Edit n p s s'
  set_aside :
      (d : DeactivatingLizenz)
      → IsLeaving p d
      → s'.params ≡ s.params
      → s'.activated ≡ s.activated
      → s'.deactivating ≡ KvStore.set d.validator d s.deactivating
      → Edit n p s s'
  released :
      (v : Text)
      → s'.params ≡ s.params
      → s'.activated ≡ s.activated
      → s'.deactivating ≡ KvStore.delete v s.deactivating
      → Edit n p s s'

pub Edit-IsSound :
    (n : Neighbours) (p : Params) (s s' : State n) → Edit n p s s' → IsSound n p s → IsSound n p s'
Edit-IsSound n p s s' (untouched q a d) sound = record {
  params_same = rw q sound.params_same;
  licensed = rw a sound.licensed;
  leaving = rw d sound.leaving;
  activated_sorted = rw a sound.activated_sorted;
  activated_named = rw a sound.activated_named;
  deactivating_sorted = rw d sound.deactivating_sorted;
}
Edit-IsSound n p s s' (stored l fits q a d) sound = record {
  params_same = rw q sound.params_same;
  licensed = rw a (Every-set (IsLicensed p) l.validator l s.activated fits sound.licensed);
  leaving = rw d sound.leaving;
  activated_sorted = rw a (set-IsSorted l.validator l s.activated sound.activated_sorted);
  activated_named = rw a (IsNamed-set l s.activated sound.activated_named);
  deactivating_sorted = rw d sound.deactivating_sorted;
}
Edit-IsSound n p s s' (removed v q a d) sound = record {
  params_same = rw q sound.params_same;
  licensed = rw a (Every-delete (IsLicensed p) v s.activated sound.licensed);
  leaving = rw d sound.leaving;
  activated_sorted = rw a (delete-IsSorted v s.activated sound.activated_sorted);
  activated_named = rw a (IsNamed-delete v s.activated sound.activated_named);
  deactivating_sorted = rw d sound.deactivating_sorted;
}
Edit-IsSound n p s s' (set_aside e fits q a d) sound = record {
  params_same = rw q sound.params_same;
  licensed = rw a sound.licensed;
  leaving = rw d (Every-set (IsLeaving p) e.validator e s.deactivating fits sound.leaving);
  activated_sorted = rw a sound.activated_sorted;
  activated_named = rw a sound.activated_named;
  deactivating_sorted = rw d (set-IsSorted e.validator e s.deactivating sound.deactivating_sorted);
}
Edit-IsSound n p s s' (released v q a d) sound = record {
  params_same = rw q sound.params_same;
  licensed = rw a sound.licensed;
  leaving = rw d (Every-delete (IsLeaving p) v s.deactivating sound.leaving);
  activated_sorted = rw a sound.activated_sorted;
  activated_named = rw a sound.activated_named;
  deactivating_sorted = rw d (delete-IsSorted v s.deactivating sound.deactivating_sorted);
}
