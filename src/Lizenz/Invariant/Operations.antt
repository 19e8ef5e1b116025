-- ===== src/Lizenz/Invariant/Operations.antt =====
-- The operations of x/lizenz/keeper/keeper.go on one entry, against the invariant.
use volnix_protocol.Base.{◌≡◌, ◌⊎◌, inl, inr, subst, Text, ok, arith}
use volnix_protocol.KvStore.{KvStore, text_key}
use volnix_protocol.KvStore
use volnix_protocol.Host.{Host, Env}
use volnix_protocol.Lizenz.Params.{Params}
use volnix_protocol.Lizenz.Types.{
  ActivatedLizenz, DeactivatingLizenz, is_activated_lizenz_valid, is_deactivating_lizenz_valid,
}
use volnix_protocol.Lizenz.Neighbours.{Neighbours}
use volnix_protocol.Lizenz.Keeper.{
  State, set_activated_lizenz, update_activated_lizenz, delete_activated_lizenz, store_lizenz,
  validate_lizenz_amount,
}
use volnix_protocol.Lizenz.Blocks.{delete_deactivating_lizenz, set_deactivating_lizenz}
use volnix_protocol.Lizenz.Activation.{validate_lizenz_amount-ok, valid-fields}
use volnix_protocol.Lizenz.Invariant.{
  IsLeaving, IsSound, IsLicensed, IsWithin, Edit-IsSound, untouched, stored, removed, set_aside,
  released,
}

module _ (n : Neighbours) where
  set-cases :
      (h : Host) (e : Env) (l : ActivatedLizenz) (s : State n)
      → ((set_activated_lizenz n h e l s).1.params ≡ s.params)
        × ((set_activated_lizenz n h e l s).1.deactivating ≡ s.deactivating)
        × (((set_activated_lizenz n h e l s).1.activated ≡ s.activated)
            ⊎ ((is_activated_lizenz_valid l ≡ ok tt)
                × (validate_lizenz_amount l.amount s.params ≡ ok tt)
                × ((set_activated_lizenz n h e l s).1.activated
                    ≡ KvStore.set l.validator l s.activated)))
  unfolding set_activated_lizenz store_lizenz
  set-cases h e l s = ground arith

  update-cases :
      (h : Host) (l : ActivatedLizenz) (s : State n)
      → ((update_activated_lizenz n h l s).1.params ≡ s.params)
        × ((update_activated_lizenz n h l s).1.deactivating ≡ s.deactivating)
        × (((update_activated_lizenz n h l s).1.activated ≡ s.activated)
            ⊎ ((is_activated_lizenz_valid l ≡ ok tt)
                × ((update_activated_lizenz n h l s).1.activated
                    ≡ KvStore.set l.validator l s.activated)))
  unfolding update_activated_lizenz store_lizenz
  update-cases h l s = ground arith

  delete-cases :
      (e : Env) (v : Text) (s : State n)
      → ((delete_activated_lizenz n e v s).1.params ≡ s.params)
        × ((delete_activated_lizenz n e v s).1.deactivating ≡ s.deactivating)
        × (((delete_activated_lizenz n e v s).1.activated ≡ s.activated)
            ⊎ ((delete_activated_lizenz n e v s).1.activated ≡ KvStore.delete v s.activated))
  unfolding delete_activated_lizenz
  delete-cases e v s = ground arith

  aside-cases :
      (d : DeactivatingLizenz) (s : State n)
      → ((set_deactivating_lizenz n d s).1.params ≡ s.params)
        × ((set_deactivating_lizenz n d s).1.activated ≡ s.activated)
        × (((set_deactivating_lizenz n d s).1.deactivating ≡ s.deactivating)
            ⊎ ((is_deactivating_lizenz_valid d ≡ ok tt)
                × ((set_deactivating_lizenz n d s).1.deactivating
                    ≡ KvStore.set d.validator d s.deactivating)))
  unfolding set_deactivating_lizenz
  aside-cases d s = ground arith

  release-cases :
      (v : Text) (s : State n)
      → ((delete_deactivating_lizenz n v s).1.params ≡ s.params)
        × ((delete_deactivating_lizenz n v s).1.activated ≡ s.activated)
        × (((delete_deactivating_lizenz n v s).1.deactivating ≡ s.deactivating)
            ⊎ ((delete_deactivating_lizenz n v s).1.deactivating ≡ KvStore.delete v s.deactivating))
  unfolding delete_deactivating_lizenz
  release-cases v s = ground arith

  module _ (p : Params) where
    valid-IsLicensed :
        (l : ActivatedLizenz)
        → is_activated_lizenz_valid l ≡ ok tt
        → IsWithin p l.amount
        → IsLicensed p l
    valid-IsLicensed l valid within =
        let (a, b) = valid-fields l valid in
        record { has_validator = a; has_identity_hash = b; within = within }

    valid-IsLeaving :
        (d : DeactivatingLizenz)
        → is_deactivating_lizenz_valid d ≡ ok tt
        → IsWithin p d.amount
        → IsLeaving p d
    unfolding is_deactivating_lizenz_valid
    valid-IsLeaving d valid within = record {
      has_validator = ground arith;
      has_reason = ground arith;
      within = within;
    }

    pub set-IsSound :
        (h : Host) (e : Env) (l : ActivatedLizenz) (s : State n)
        → IsSound n p s
        → IsSound n p (set_activated_lizenz n h e l s).1
    set-IsSound h e l s sound =
        let (q, kept, cases) = set-cases h e l s in
        elim cases [
          | inl same ↦ Edit-IsSound n p s _ (untouched q same kept) sound
          | inr (valid, bounded, put) ↦
              let limits =
                subst (λ x. validate_lizenz_amount l.amount x ≡ ok tt) sound.params_same bounded in
              Edit-IsSound n p s _
                (stored l (valid-IsLicensed l valid (validate_lizenz_amount-ok l.amount p limits)) q
                  put kept)
                sound
        ]

    pub update-IsSound :
        (h : Host) (l : ActivatedLizenz)
        → IsWithin p l.amount
        → (s : State n) → IsSound n p s
        → IsSound n p (update_activated_lizenz n h l s).1
    update-IsSound h l within s sound =
        let (q, kept, cases) = update-cases h l s in
        elim cases [
          | inl same ↦ Edit-IsSound n p s _ (untouched q same kept) sound
          | inr (valid, put) ↦
              Edit-IsSound n p s _ (stored l (valid-IsLicensed l valid within) q put kept) sound
        ]

    pub delete-IsSound :
        (e : Env) (v : Text) (s : State n)
        → IsSound n p s
        → IsSound n p (delete_activated_lizenz n e v s).1
    delete-IsSound e v s sound =
        let (q, kept, cases) = delete-cases e v s in
        elim cases [
          | inl same ↦ Edit-IsSound n p s _ (untouched q same kept) sound
          | inr gone ↦ Edit-IsSound n p s _ (removed v q gone kept) sound
        ]

    pub aside-IsSound :
        (d : DeactivatingLizenz)
        → IsWithin p d.amount
        → (s : State n) → IsSound n p s
        → IsSound n p (set_deactivating_lizenz n d s).1
    aside-IsSound d within s sound =
        let (q, kept, cases) = aside-cases d s in
        elim cases [
          | inl same ↦ Edit-IsSound n p s _ (untouched q kept same) sound
          | inr (valid, put) ↦
              Edit-IsSound n p s _ (set_aside d (valid-IsLeaving d valid within) q kept put) sound
        ]

    pub release-IsSound :
        (v : Text) (s : State n) → IsSound n p s → IsSound n p (delete_deactivating_lizenz n v s).1
    release-IsSound v s sound =
        let (q, kept, cases) = release-cases v s in
        elim cases [
          | inl same ↦ Edit-IsSound n p s _ (untouched q kept same) sound
          | inr gone ↦ Edit-IsSound n p s _ (released v q kept gone) sound
        ]
