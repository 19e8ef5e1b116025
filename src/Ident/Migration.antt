-- ===== src/Ident/Migration.antt =====
-- x/ident/keeper: role migrations against the limit of identities.
use volnix_protocol.Base.{
  ◌≤◌, ◌≡◌, inl, inr, refl, sym, ap, subst, Bool, true, some, [], ◌∷◌, Text, text_eq, ℤ, err, arith,
  Outcome-cases, Option-cases, Bool-cases,
}
use volnix_protocol.KvStore.{KvStore, text_key}
use volnix_protocol.KvStore
use volnix_protocol.Lizenz.Neighbours.{Role}
use volnix_protocol.Ident.Types.{
  VerifiedAccount, RoleMigration, Error, is_citizen, is_validator_role, limit_exceeded,
  invalid_role,
}
use volnix_protocol.Ident.Keeper.{
  State, count_role, check_limit, check_account_limits, limits_for_new, set_verified_account,
  execute_role_migration, get_verified_account, get_role_migration, free_hash, drop_hash,
  target_account, get_all_verified_accounts, set_role_migration,
}
use volnix_protocol.Ident.Messages.{MsgMigrateRole, migrate_role, requested_migration}
use volnix_protocol.Anteil.Types.{◌⁀◌}

-- An account that is found counts for its role.
count_role-found :
    (has_role : Role → Bool) (address : Text) (a : VerifiedAccount)
    (m : KvStore Text VerifiedAccount)
    → KvStore.get address m ≡ some a
    → has_role a.role ≡ true
    → 1 ≤ count_role has_role (KvStore.values m)
unfolding count_role KvStore.values KvStore.get
count_role-found has_role address a [] found counts = absurd (ground arith)
count_role-found has_role address a ((k, w) ∷ m) found counts =
    elim (Bool-cases (text_eq k address)) [
      | inl hit ↦ ground arith
      | inr miss ↦ ground (arith, count_role-found has_role address a m)
    ]

module _ (W : Type 0) where
  limit_reached :
      (has_role : Role → Bool) (address : Text) (a : VerifiedAccount) (s : State W)
      → s.params.max_identities_per_address ≤ 1
      → KvStore.get address s.accounts ≡ some a
      → has_role a.role ≡ true
      → check_limit W has_role s ≡ err limit_exceeded
  unfolding check_limit get_all_verified_accounts
  limit_reached has_role address a s one found counts =
      ground (arith, count_role-found has_role address a s.accounts found counts)

  role_refused :
      (address : Text) (a : VerifiedAccount) (s : State W)
      → s.params.max_identities_per_address ≤ 1
      → KvStore.get address s.accounts ≡ some a
      → (role : Role) → a.role ≡ role
      → (x : Error) × (check_account_limits W role s ≡ err x)
  unfolding check_account_limits
  role_refused address a s one found Role.citizen is =
      (limit_exceeded, limit_reached is_citizen address a s one found (ap is_citizen is))
  role_refused address a s one found Role.validator_role is = (
    limit_exceeded,
    limit_reached is_validator_role address a s one found (ap is_validator_role is),
  )
  role_refused address a s one found Role.guest is = (invalid_role, refl)
  role_refused address a s one found Role.unspecified is = (invalid_role, refl)

  -- A second account of the role of a stored one is refused.
  limits_for_new_refused :
      (address : Text) (a : VerifiedAccount) (s : State W)
      → s.params.max_identities_per_address ≤ 1
      → KvStore.get address s.accounts ≡ some a
      → (x : Error) × (limits_for_new W a.role s ≡ err x)
  unfolding limits_for_new
  limits_for_new_refused address a s one found =
      let (x, refused) = role_refused address a s one found a.role refl in
      (x, ground (arith, refused))

  set_verified_account_refused :
      (b : VerifiedAccount) (address : Text) (a : VerifiedAccount) (s : State W)
      → s.params.max_identities_per_address ≤ 1
      → KvStore.get address s.accounts ≡ some a
      → b.role ≡ a.role
      → (x : Error) × ((set_verified_account W b s).0 ≡ err x)
  unfolding set_verified_account
  set_verified_account_refused b address a s one found same =
      let (y, refused) = limits_for_new_refused address a s one found in
      elim (Outcome-cases (set_verified_account W b s).0) [
        | inr bad ↦ bad
        | inl (u, fine) ↦
            absurd (ground (arith, refused, ap (λ (r : Role). limits_for_new W r s) same))
      ]

  freed :
      (m : RoleMigration) (a : VerifiedAccount) (s : State W)
      → ((free_hash W m a s).accounts ≡ s.accounts) × ((free_hash W m a s).params ≡ s.params)
  unfolding free_hash drop_hash
  freed m a s = (ground arith, ground arith)

  pub execute_role_migration_refused :
      (now : ℤ) (from to : Text) (s : State W)
      → s.params.max_identities_per_address ≤ 1
      → (x : Error) × ((execute_role_migration W now from to s).0 ≡ err x)
  unfolding execute_role_migration get_role_migration get_verified_account
  execute_role_migration_refused now from to s one =
      elim (Outcome-cases (execute_role_migration W now from to s).0) [
        | inr bad ↦ bad
        | inl (u, fine) ↦ elim (Option-cases (KvStore.get (from ⁀ to) s.migrations)) [
          | inl missing ↦ absurd (ground arith)
          | inr (m, there) ↦ elim (Option-cases (KvStore.get from s.accounts)) [
            | inl missing ↦ absurd (ground arith)
            | inr (a, found) ↦
                let (accounts, params) = freed m a s in
                let (x, refused) =
                  set_verified_account_refused (target_account W now to m a) from a
                    (free_hash W m a s)
                    (subst (λ p. p.max_identities_per_address ≤ 1) (sym params) one)
                    (subst (λ k. KvStore.get from k ≡ some a) (sym accounts) found) refl in
                absurd (ground (arith, refused))
          ]
        ]
      ]

  -- While at most one identity is allowed, which is the default, MigrateRole is refused whatever
  -- its addresses and the stores: the source account itself fills the limit of its role.
  pub migrate_role_refused :
      (now : ℤ) (req : MsgMigrateRole) (s : State W)
      → s.params.max_identities_per_address ≤ 1
      → (x : Error) × ((migrate_role W now req s).0 ≡ err x)
  unfolding migrate_role get_verified_account set_role_migration
  migrate_role_refused now req s one = elim (Outcome-cases (migrate_role W now req s).0) [
    | inr bad ↦ bad
    | inl (u, fine) ↦ elim (Option-cases (KvStore.get req.from_address s.accounts)) [
      | inl missing ↦ absurd (ground arith)
      | inr (a, found) ↦ absurd (
          ground (
            arith,
            execute_role_migration_refused now req.from_address req.to_address
                (set_role_migration W (requested_migration req a) s) one,
          ))
    ]
  ]
