-- ===== src/Lizenz/Keeper.antt =====
-- x/lizenz/keeper/keeper.go: the stored licences and the operations on them.
use volnix_protocol.Base.{
  is_some, ℕ, Bool, true, false, ◌&&◌, not, none, some, List, [], ◌∷◌, Text, codes, is_empty,
  if◌then◌else◌, Outcome, ok, err, Action, gets, lift, or_raise, modify, raise_if, ◌>>=◌, ◌>>◌, ℤ,
  pos, ◌+ℤ◌, ◌-ℤ◌, ltb_ℤ, leb_ℤ, wrap64,
}
use volnix_protocol.Strconv.{parse_uint, parse_int, format_int, max_uint64}
use volnix_protocol.KvStore.{KvStore, text_key}
use volnix_protocol.KvStore
use volnix_protocol.Host.{Host, Env}
use volnix_protocol.Lizenz.Params.{Params}
use volnix_protocol.Lizenz.Types.{
  ActivatedLizenz, DeactivatingLizenz, MoaStatus, Error, empty_validator, invalid_total,
  identity_not_verified, is_activated_lizenz_valid, empty_amount, exceeds_max_lzn_activation,
  lizenz_already_exists, invalid_role_for_lizenz, lizenz_not_found, invalid_amount,
  below_min_amount, exceeds_max_activated,
}
use volnix_protocol.Lizenz.Neighbours.{Neighbours, Role}

pub record State (n : Neighbours) : Type 0 where
  pub params : Params
  pub activated : KvStore Text ActivatedLizenz
  pub deactivating : KvStore Text DeactivatingLizenz
  pub moa_statuses : KvStore Text MoaStatus
  pub world : n.World

-- The value of an amount, or 0 where ParseInt refuses it.
abbrev pub amount_or_zero : Text → ℤ
amount_or_zero s = elim (parse_int s) [ ok z ↦ z | err e ↦ pos 0 ]

abbrev pub is_zero : ℤ → Bool
is_zero z = leb_ℤ z (pos 0) && leb_ℤ (pos 0) z

-- The loop of GetTotalActivatedLizenz, in int64; an amount that is no number is skipped.
unfoldable pub sum_amounts : List ActivatedLizenz → ℤ → ℤ
sum_amounts [] total = total
sum_amounts (l ∷ ls) total = elim (parse_int l.amount) [
  | ok z ↦ sum_amounts ls (wrap64 (total +ℤ z))
  | err e ↦ sum_amounts ls total
]

abbrev is_validator : Role → Bool
is_validator Role.validator_role = true
is_validator _ = false

-- validateLizenzAmount
unfoldable pub validate_lizenz_amount : Text → Params → Outcome Error (Unit {0})
validate_lizenz_amount amount p =
    if is_empty amount then err empty_amount else elim (parse_int amount) [
      | err x ↦ err invalid_amount
      | ok value ↦ elim (parse_int p.min_lzn_amount) [
        | err x ↦ err invalid_amount
        | ok least ↦ elim (parse_int p.max_lzn_amount) [
          | err x ↦ err invalid_amount
          | ok greatest ↦
              if ltb_ℤ value least
              then err below_min_amount
              else if ltb_ℤ greatest value
              then err exceeds_max_activated
              else ok tt
        ]
      ]
    ]

module _ (n : Neighbours) where
  abbrev pub Handler : Type 0 → Type 0
  Handler = Action (State n) Error

  unfoldable pub get_activated_lizenz : Text → Handler ActivatedLizenz
  get_activated_lizenz validator s =
      if is_empty validator
      then (err empty_validator, s)
      else or_raise (KvStore.get validator s.activated) lizenz_not_found s

  unfoldable pub get_total_activated_lizenz : State n → Text
  get_total_activated_lizenz s = format_int (sum_amounts (KvStore.values s.activated) (pos 0))

  unfoldable pub validate_identity_and_role : Text → State n → Outcome Error (Unit {0})
  validate_identity_and_role validator s =
      if n.has_ident
      then elim (n.get_verified_account s.world validator) [
        | none ↦ err identity_not_verified
        | some account ↦
            if not account.is_active
            then err identity_not_verified
            else if is_validator account.role
            then ok tt
            else err invalid_role_for_lizenz
      ]
      else ok tt

  -- The two transfers of the bank: what fails is logged, and the call goes on.
  abbrev pub transfer :
      (Text → ℕ → n.World → Bool × n.World) → Env → Text → Text → State n → State n
  transfer send e validator amount s =
      if n.has_bank
      then elim (e.account validator) [
        | none ↦ s
        | some addr ↦ elim (parse_uint max_uint64 amount) [
          | err x ↦ s
          | ok value ↦ record s { world = (send addr value s.world).1 }
        ]
      ]
      else s

  -- registerValidatorInConsensus; its error is logged, and the activation stands.
  unfoldable pub register_validator_in_consensus : ActivatedLizenz → n.World → Bool × n.World
  register_validator_in_consensus l w =
      if n.has_consensus
      then (let (stored, w1) = n.set_validator l.validator l.activation_time w in
          if stored
          then (let (weighed, w2) = n.set_validator_weight l.validator l.amount w1 in
              if weighed
              then (if n.has_anteil
                  then (true, (n.set_user_position l.validator w2).1)
                  else (true, w2))
              else (false, w2))
          else (false, w1))
      else (true, w)

  unfoldable pub store_lizenz : ActivatedLizenz → State n → State n
  store_lizenz l s = record s { activated = KvStore.set l.validator l s.activated }

  module _ (h : Host) where
    -- The constant 0.33 of the source, rounded as ParseFloat rounds it.
    abbrev pub max_allowed : ℤ → ℤ
    max_allowed new_total =
        h.to_int64 (h.times (h.of_int64 new_total) (h.parse_float (codes "0.33")).0)

    -- What the validator has already.
    unfoldable pub current_amount : Text → State n → ℤ
    current_amount validator s = elim (get_activated_lizenz validator s).0 [
      | ok l ↦ amount_or_zero l.amount
      | err x ↦ pos 0
    ]

    unfoldable pub within_limit : ℤ → ℤ → ℤ → Outcome Error (Unit {0})
    within_limit total current new =
        if is_zero total && is_zero current
        then ok tt
        else if ltb_ℤ (pos 0) current && leb_ℤ total current && leb_ℤ current total
        then ok tt
        else if ltb_ℤ (max_allowed (wrap64 (wrap64 (total -ℤ current) +ℤ new))) new
        then err exceeds_max_lzn_activation
        else ok tt

    unfoldable pub validate_max_lzn_activation_limit :
        Text → Text → State n → Outcome Error (Unit {0})
    validate_max_lzn_activation_limit validator new_amount s =
        elim (parse_int (get_total_activated_lizenz s)) [
          | err x ↦ err invalid_total
          | ok total ↦ elim (parse_int new_amount) [
            | err x ↦ err invalid_amount
            | ok new ↦ within_limit total (current_amount validator s) new
          ]
        ]

    unfoldable pub set_activated_lizenz : Env → ActivatedLizenz → Handler (Unit {0})
    set_activated_lizenz e l = do
      lift (is_activated_lizenz_valid l)
      identified ← gets (validate_identity_and_role l.validator)
      lift identified
      exists ← gets (λ s. is_some (KvStore.get l.validator s.activated))
      raise_if exists lizenz_already_exists
      params ← gets (λ (s : State n). s.params)
      lift (validate_lizenz_amount l.amount params)
      limited ← gets (validate_max_lzn_activation_limit l.validator l.amount)
      lift limited
      modify (transfer n.lock e l.validator l.amount)
      modify (store_lizenz l)
      modify λ s. record s { world = (register_validator_in_consensus l s.world).1 }

    unfoldable pub update_activated_lizenz : ActivatedLizenz → Handler (Unit {0})
    update_activated_lizenz l = do
      lift (is_activated_lizenz_valid l)
      exists ← gets (λ s. is_some (KvStore.get l.validator s.activated))
      raise_if (not exists) lizenz_not_found
      limited ← gets (validate_max_lzn_activation_limit l.validator l.amount)
      lift limited
      modify (store_lizenz l)

  unfoldable pub delete_activated_lizenz : Env → Text → Handler (Unit {0})
  delete_activated_lizenz e validator = do
    raise_if (is_empty validator) empty_validator
    found ← gets (λ s. KvStore.get validator s.activated)
    l ← or_raise found lizenz_not_found
    modify (transfer n.unlock e validator l.amount)
    modify λ s. record s { activated = KvStore.delete validator s.activated }
