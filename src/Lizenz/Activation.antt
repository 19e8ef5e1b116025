-- ===== src/Lizenz/Activation.antt =====
-- SetActivatedLizenz of x/lizenz/keeper/keeper.go: what an accepted activation presupposes and does.
use volnix_protocol.Base.{
  true, some, ◌≡◌, ◌⊎◌, inl, inr, arith, Text, ok, Outcome-cases, Option-cases, ℤ, pos, ◌+ℤ◌, ◌-ℤ◌,
  ◌≤ℤ◌, wrap64, is_empty, err, false, none,
}
use volnix_protocol.Strconv.{parse_int}
use volnix_protocol.KvStore.{text_key}
use volnix_protocol.KvStore
use volnix_protocol.Host.{Host, Env}
use volnix_protocol.Lizenz.Params.{Params}
use volnix_protocol.Lizenz.Neighbours.{Neighbours, VerifiedAccount, Role}
use volnix_protocol.Lizenz.Keeper.{
  State, max_allowed, within_limit, validate_identity_and_role, validate_lizenz_amount,
  current_amount, validate_max_lzn_activation_limit, set_activated_lizenz, store_lizenz,
  get_total_activated_lizenz, get_activated_lizenz, register_validator_in_consensus, transfer,
}
use volnix_protocol.Lizenz.Types.{is_activated_lizenz_valid, ActivatedLizenz, Error}

-- The identity behind a licence, where the ident keeper is set.
pub record Identified (n : Neighbours) (validator : Text) (s : State n) : Type 0 where
  pub account : VerifiedAccount
  pub known : n.get_verified_account s.world validator ≡ some account
  pub active : account.is_active ≡ true
  pub role : account.role ≡ Role.validator_role

-- The amount of a licence is in the bounds of the parameters.
pub record AmountInBounds (amount : Text) (p : Params) (value : ℤ) : Type 0 where
  pub read : parse_int amount ≡ ok value
  pub least : ℤ
  pub least_read : parse_int p.min_lzn_amount ≡ ok least
  pub greatest : ℤ
  pub greatest_read : parse_int p.max_lzn_amount ≡ ok greatest
  pub at_least : least ≤ℤ value
  pub at_most : value ≤ℤ greatest

pub validate_lizenz_amount-ok :
    (amount : Text) (p : Params)
    → validate_lizenz_amount amount p ≡ ok tt
    → (value : ℤ) × AmountInBounds amount p value
unfolding validate_lizenz_amount
validate_lizenz_amount-ok amount p r = elim (Outcome-cases (parse_int amount)) [
  | inr (x, bad) ↦ absurd (ground arith)
  | inl (value, read) ↦ elim (Outcome-cases (parse_int p.min_lzn_amount)) [
    | inr (x, bad) ↦ absurd (ground arith)
    | inl (least, least_read) ↦ elim (Outcome-cases (parse_int p.max_lzn_amount)) [
      | inr (x, bad) ↦ absurd (ground arith)
      | inl (greatest, greatest_read) ↦ (
        value,
        record {
          read = read;
          least = least;
          least_read = least_read;
          greatest = greatest;
          greatest_read = greatest_read;
          at_least = ground arith;
          at_most = ground arith;
        },
      )
    ]
  ]
]

module _ (n : Neighbours) where
  validate_identity_and_role-ok :
      (validator : Text) (s : State n)
      → validate_identity_and_role n validator s ≡ ok tt
      → n.has_ident ≡ true
      → Identified n validator s
  unfolding validate_identity_and_role
  validate_identity_and_role-ok validator s r there =
      elim (Option-cases (n.get_verified_account s.world validator)) [
        | inl missing ↦ absurd (ground arith)
        | inr (account, known) ↦ record {
          account = account;
          known = known;
          active = ground arith;
          role = ground arith;
        }
      ]

  module _ (h : Host) where
    within_limit-ok :
        (total new : ℤ)
        → within_limit n h total (pos 0) new ≡ ok tt
        → (total ≡ pos 0) ⊎ (new ≤ℤ max_allowed n h (wrap64 (wrap64 (total -ℤ pos 0) +ℤ new)))
    unfolding within_limit
    within_limit-ok total new r = ground arith

-- All that an accepted activation presupposes and does.
pub record Activated (n : Neighbours) (h : Host) (e : Env) (l : ActivatedLizenz) (s s' : State n)
    : Type 0 where
  pub has_validator : is_empty l.validator ≡ false
  pub has_identity_hash : is_empty l.identity_hash ≡ false
  pub identified : n.has_ident ≡ true → Identified n l.validator s
  pub fresh : KvStore.get l.validator s.activated ≡ none
  pub value : ℤ
  pub in_bounds : AmountInBounds l.amount s.params value
  pub total : ℤ
  pub total_read : parse_int (get_total_activated_lizenz n s) ≡ ok total
  pub limited :
      (total ≡ pos 0) ⊎ (value ≤ℤ max_allowed n h (wrap64 (wrap64 (total -ℤ pos 0) +ℤ value)))
  pub after : s' ≡ record s {
    activated = KvStore.set l.validator l s.activated;
    world =
        (register_validator_in_consensus n l (transfer n n.lock e l.validator l.amount s).world).1;
  }

pub valid-fields :
    (l : ActivatedLizenz)
    → is_activated_lizenz_valid l ≡ ok tt
    → (is_empty l.validator ≡ false) × (is_empty l.identity_hash ≡ false)
unfolding is_activated_lizenz_valid
valid-fields l r = ground arith

module _ (n : Neighbours) (h : Host) where
  fresh_current :
      (validator : Text) (s : State n)
      → KvStore.get validator s.activated ≡ none
      → current_amount n h validator s ≡ pos 0
  unfolding current_amount get_activated_lizenz
  fresh_current validator s fresh = ground arith

  limit-ok :
      (validator amount : Text) (s : State n) (value : ℤ)
      → validate_max_lzn_activation_limit n h validator amount s ≡ ok tt
      → parse_int amount ≡ ok value
      → (total : ℤ) × (parse_int (get_total_activated_lizenz n s) ≡ ok total)
        × (within_limit n h total (current_amount n h validator s) value ≡ ok tt)
  unfolding validate_max_lzn_activation_limit
  limit-ok validator amount s value r read =
      elim (Outcome-cases (parse_int (get_total_activated_lizenz n s))) [
        | inl (total, total_read) ↦ (total, total_read, ground arith)
        | inr (x, bad) ↦ absurd (ground arith)
      ]

  set_activated_lizenz-ok :
      (e : Env) (l : ActivatedLizenz) (s : State n)
      → (set_activated_lizenz n h e l s).0 ≡ ok tt
      → (is_activated_lizenz_valid l ≡ ok tt)
        × (validate_identity_and_role n l.validator s ≡ ok tt)
        × (KvStore.get l.validator s.activated ≡ none)
        × (validate_lizenz_amount l.amount s.params ≡ ok tt)
        × (validate_max_lzn_activation_limit n h l.validator l.amount s ≡ ok tt)
        × ((set_activated_lizenz n h e l s).1 ≡ record s {
          activated = KvStore.set l.validator l s.activated;
          world =
              (register_validator_in_consensus n l
                (transfer n n.lock e l.validator l.amount s).world).1;
        })
  unfolding set_activated_lizenz store_lizenz
  set_activated_lizenz-ok e l s r = ground arith

  -- An accepted activation names its validator and identity hash, has an active account with the
  -- validator role where the ident keeper is set, is the first licence of its validator, and has
  -- an amount within the parameters that, unless the total is zero, is at most 33% of the new
  -- total as the code rounds it; the state after has the licence stored, with the world after the
  -- lock and the registration.
  pub set_activated_lizenz-Activated :
      (e : Env) (l : ActivatedLizenz) (s : State n)
      → (set_activated_lizenz n h e l s).0 ≡ ok tt
      → Activated n h e l s (set_activated_lizenz n h e l s).1
  set_activated_lizenz-Activated e l s r =
      let (valid, identity, fresh, bounded, limit, after) = set_activated_lizenz-ok e l s r in
      let (has_validator, has_identity_hash) = valid-fields l valid in
      let (value, in_bounds) = validate_lizenz_amount-ok l.amount s.params bounded in
      let (total, total_read, within) =
        limit-ok l.validator l.amount s value limit in_bounds.read in
      record {
        has_validator = has_validator;
        has_identity_hash = has_identity_hash;
        identified = validate_identity_and_role-ok n l.validator s identity;
        fresh = fresh;
        value = value;
        in_bounds = in_bounds;
        total = total;
        total_read = total_read;
        limited = within_limit-ok n h total value (cc (within, fresh_current l.validator s fresh));
        after = after;
      }

  -- A refused activation changes nothing, neither a store nor the other modules.
  pub set_activated_lizenz_refused :
      (e : Env) (l : ActivatedLizenz) (s : State n) (x : Error)
      → (set_activated_lizenz n h e l s).0 ≡ err x
      → (set_activated_lizenz n h e l s).1 ≡ s
  unfolding set_activated_lizenz
  set_activated_lizenz_refused e l s x r = ground arith
