-- ===== src/Lizenz/Unbacked.antt =====
-- Amounts that SetActivatedLizenz of x/lizenz/keeper/keeper.go reads in two ways: ParseInt for the
-- limits, ParseUint for the tokens that it locks.
use volnix_protocol.Base.{ℕ, ◌≡◌, refl, ap, ◌∙◌, Bool, some, ◌∷◌, Text, ok, err, arith}
use volnix_protocol.Strconv.{parse_uint, max_uint64, NumError, scan}
use volnix_protocol.KvStore.{text_key}
use volnix_protocol.KvStore
use volnix_protocol.Host.{Host, Env}
use volnix_protocol.Lizenz.Types.{ActivatedLizenz}
use volnix_protocol.Lizenz.Neighbours.{Neighbours}
use volnix_protocol.Lizenz.Keeper.{
  State, set_activated_lizenz, transfer, register_validator_in_consensus,
}
use volnix_protocol.Lizenz.Activation.{set_activated_lizenz-Activated}

plus_refused : (digits : Text) → (x : NumError) × (parse_uint max_uint64 (b'+' ∷ digits) ≡ err x)
unfolding parse_uint scan
plus_refused digits = (NumError.syntax, refl)

module _ (n : Neighbours) (h : Host) where
  transfer_nothing :
      (send : Text → ℕ → n.World → Bool × n.World) (e : Env) (v amount digits : Text) (s : State n)
      → amount ≡ b'+' ∷ digits
      → (transfer n send e v amount s).world ≡ s.world
  transfer_nothing send e v amount digits s plus =
      let (x, refused) = plus_refused digits in ground arith

  -- An accepted activation whose amount starts with a plus sign stores the licence and asks no
  -- tokens from the bank: what changes outside the module is what the registration in consensus
  -- changes, and nothing else.
  pub plus_sign_locks_nothing :
      (e : Env) (l : ActivatedLizenz) (s : State n) (digits : Text)
      → (set_activated_lizenz n h e l s).0 ≡ ok tt
      → l.amount ≡ b'+' ∷ digits
      → (KvStore.get l.validator (set_activated_lizenz n h e l s).1.activated ≡ some l)
        × ((set_activated_lizenz n h e l s).1.world
            ≡ (register_validator_in_consensus n l s.world).1)
  plus_sign_locks_nothing e l s digits r plus =
      let done = set_activated_lizenz-Activated n h e l s r in
      (
        rw (ap (λ (t : State n). t.activated) done.after)
            (KvStore.get-set_self l.validator l s.activated),
        ap (λ (t : State n). t.world) done.after
            ∙ ap (λ w. (register_validator_in_consensus n l w).1)
                (transfer_nothing n.lock e l.validator l.amount digits s plus),
      )
