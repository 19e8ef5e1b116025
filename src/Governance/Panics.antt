-- ===== src/Governance/Panics.antt =====
-- ValidateParameterChange of x/governance/keeper/parameter_applier.go beside the validators of the
-- anteil parameter set.
use volnix_protocol.Base.{
  ◌≡◌, arith, ok, err, some, codes, Text, refl, ℕ, is_empty, text_eq, true, false,
}
use volnix_protocol.Strconv.{parse_uint, max_uint64}
use volnix_protocol.Strconv.Width.{parse_uint_wider}
use volnix_protocol.Host.{Host}
use volnix_protocol.Anteil
use volnix_protocol.Governance.Types.{ParameterChange, panic}
use volnix_protocol.Governance.Governable.{
  anteil_name, is_governable, get_governable_parameter, find_parameter, is_listed,
  GovernableParameter, contains, uint32,
}
use volnix_protocol.Governance.Keeper.{State}
use volnix_protocol.Governance.Applier.{
  max_uint32, validate_parameter_change, validate_value, apply_parameter_change,
  apply_anteil_parameter_change, updated_anteil, stored_anteil,
}

abbrev pub orders_change : Text → Text → Text → ParameterChange
orders_change old new why = record {
  module_name = anteil_name;
  parameter = codes "max_open_orders";
  old_value = old;
  new_value = new;
  description = why;
}

abbrev orders : GovernableParameter
orders = record { module_name = anteil_name; parameter = codes "max_open_orders"; kind = uint32 }

orders_governable : is_governable anteil_name (codes "max_open_orders") ≡ true
unfolding is_governable is_listed contains text_eq
orders_governable = refl

orders_found : get_governable_parameter anteil_name (codes "max_open_orders") ≡ some orders
unfolding get_governable_parameter find_parameter text_eq
orders_found = refl

module _ (h : Host) (old new why : Text) (n : ℕ) (read : parse_uint max_uint32 new ≡ ok n) where
  not_blank : is_empty new ≡ false
  unfolding parse_uint
  not_blank = ground arith

  orders_value : validate_value h (some orders) new ≡ ok tt
  unfolding validate_value
  orders_value = ground (arith, parse_uint_wider max_uint32 max_uint64 (omega arith) new n read)

  orders_validated : validate_parameter_change h (orders_change old new why) ≡ ok tt
  unfolding validate_parameter_change
  orders_validated = rw (orders_governable, not_blank, orders_found) orders_value

  orders_applied :
      (s : State)
      → apply_parameter_change h (orders_change old new why) s
        ≡ apply_anteil_parameter_change h (orders_change old new why) s
  unfolding apply_parameter_change text_eq
  orders_applied s = rw orders_governable refl

  orders_stored :
      (s : State) (p : Anteil.Params.Params)
      → s.anteil ≡ some p
      → n ≡ 0
      → (apply_anteil_parameter_change h (orders_change old new why) s).0 ≡ err panic
  unfolding apply_anteil_parameter_change updated_anteil stored_anteil text_eq
  orders_stored s p set zero_value = ground arith

-- A change of max_open_orders to a text that is read as zero passes ValidateParameterChange, and
-- then panics while it is applied, if the anteil keeper is set.
pub zero_open_orders_panics :
    (h : Host) (old new why : Text) (s : State) (p : Anteil.Params.Params)
    → parse_uint max_uint32 new ≡ ok 0
    → s.anteil ≡ some p
    → (validate_parameter_change h (orders_change old new why) ≡ ok tt)
      × ((apply_parameter_change h (orders_change old new why) s).0 ≡ err panic)
zero_open_orders_panics h old new why s p read set = (
  orders_validated h old new why 0 read,
  rw (orders_applied h old new why 0 read s) (orders_stored h old new why 0 read s p set refl),
)
