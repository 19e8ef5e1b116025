-- ===== src/Ident/Activity.antt =====
-- x/ident/keeper/keeper.go: EndBlocker renews the activity of every account, and what this leaves
-- to BeginBlocker.
use volnix_protocol.Base.{
  ◌≡◌, inl, inr, refl, sym, ap, ◌∙◌, subst, false, Option, none, some, List, [], ◌∷◌, Text, text_eq,
  ℤ, ◌-ℤ◌, ltb_ℤ, ok, arith, Bool-cases, text_eq_iff, text_eq_refl,
}
use volnix_protocol.KvStore.{KvStore, text_key}
use volnix_protocol.KvStore
use volnix_protocol.KvStore.Sorted.{AllAfter, IsSorted, get-AllAfter, text_order}
use volnix_protocol.Ident.Types.{VerifiedAccount, Params}
use volnix_protocol.Ident.Keeper.{State, get_all_verified_accounts}
use volnix_protocol.Ident.Blocks.{
  end_blocker, demote_inactive, is_inactive, check_account_activity, whole_seconds,
}
use volnix_protocol.Host.{Env}
use volnix_protocol.Lizenz.Neighbours.{Role}
use volnix_protocol.Ident.Renewal.{IsRegistered, renewed, renew}

-- All the accounts of a list were last active then.
unfoldable pub AllActiveAt : ℤ → List VerifiedAccount → Type 0
AllActiveAt t [] = Unit
AllActiveAt t (a ∷ rest) = (a.last_active ≡ t) × AllActiveAt t rest

head_found :
    (k : Text) (a : VerifiedAccount) (m : KvStore Text VerifiedAccount)
    → KvStore.get k ((k, a) ∷ m) ≡ some a
unfolding KvStore.get
head_found k a m = ground (arith, text_eq_refl k)

tail_found :
    (k : Text) (a : VerifiedAccount) (m : KvStore Text VerifiedAccount)
    → AllAfter k m
    → (v : Text) (b : VerifiedAccount) → KvStore.get v m ≡ some b
    → KvStore.get v ((k, a) ∷ m) ≡ some b
unfolding KvStore.get
tail_found k a m after v b found = elim (Bool-cases (text_eq k v)) [
  | inl hit ↦ absurd (
      ground (
        arith,
        found,
        subst (λ w. KvStore.get w m ≡ none) ((text_eq_iff k v).0 hit) (get-AllAfter k m after),
      ))
  | inr miss ↦ rw miss found
]

-- In a sorted store what holds of all that is found holds of all the values.
values-AllActiveAt :
    (t : ℤ) (m : KvStore Text VerifiedAccount)
    → IsSorted m
    → ((v : Text) (a : VerifiedAccount) → KvStore.get v m ≡ some a → a.last_active ≡ t)
    → AllActiveAt t (KvStore.values m)
unfolding IsSorted AllActiveAt KvStore.values
values-AllActiveAt t [] sorted each = tt
values-AllActiveAt t ((k, a) ∷ m) (after, sorted) each = (
  each k a (head_found k a m),
  values-AllActiveAt t m sorted λ v b found. each v b (tail_found k a m after v b found),
)

renewed_at :
    (t : ℤ) (o : Option VerifiedAccount) (a : VerifiedAccount)
    → renewed t o o ≡ some a
    → a.last_active ≡ t
renewed_at t none a e = absurd (ground arith)
renewed_at t (some b) a e = ground arith

module _ (W : Type 0) where
  -- All that EndBlocker does to sound stores.
  pub record RenewedAll (e : Env) (s : State W) : Type 0 where
    pub accepted : (end_blocker W e s).0 ≡ ok tt
    pub params : (end_blocker W e s).1.params ≡ s.params
    pub active :
        AllActiveAt (whole_seconds e.block_time) (get_all_verified_accounts W (end_blocker W e s).1)

  end_blocker-RenewedAll :
      (e : Env) (s : State W) → IsSorted s.accounts → IsRegistered s.accounts → RenewedAll e s
  unfolding end_blocker get_all_verified_accounts
  end_blocker-RenewedAll e s sorted registered =
      let t = whole_seconds e.block_time in
      let r = renew W t s.accounts s sorted registered sorted (λ v a found. found) in
      record {
        accepted = r.accepted;
        params = ap State.params r.frame;
        active =
            values-AllActiveAt t _ r.sorted
              λ v a found. renewed_at t (KvStore.get v s.accounts) a (sym (r.found v) ∙ found);
      }

  -- Both periods reach back to that instant.
  abbrev Recent : Params → ℤ → ℤ → Type 0
  Recent p now t =
      (ltb_ℤ p.citizen_activity_period (now -ℤ t) ≡ false)
      × (ltb_ℤ p.validator_activity_period (now -ℤ t) ≡ false)

  Recent-is_inactive :
      (p : Params) (now t : ℤ) (a : VerifiedAccount) (role : Role)
      → Recent p now t
      → a.last_active ≡ t
      → a.role ≡ role
      → is_inactive p now a ≡ false
  unfolding is_inactive
  Recent-is_inactive p now t a Role.citizen recent at is = ground arith
  Recent-is_inactive p now t a Role.validator_role recent at is = ground arith
  Recent-is_inactive p now t a Role.guest recent at is = ground arith
  Recent-is_inactive p now t a Role.unspecified recent at is = ground arith

  nobody_demoted_in :
      (burn : Option (Text → W → W)) (p : Params) (now t : ℤ) (accounts : List VerifiedAccount)
      (s : State W)
      → Recent p now t
      → AllActiveAt t accounts
      → demote_inactive W burn p now accounts s ≡ (ok tt, s)
  unfolding demote_inactive AllActiveAt
  nobody_demoted_in burn p now t [] s recent active = refl
  nobody_demoted_in burn p now t (a ∷ rest) s recent (at, active) = ground (
    arith,
    Recent-is_inactive p now t a a.role recent at refl,
    nobody_demoted_in burn p now t rest s recent active,
  )

  -- Where the accounts are sorted, valid and under their own addresses, checkAccountActivity
  -- after an EndBlocker changes nothing, unless more time than an activity period passed since
  -- the block of that EndBlocker: no inactivity of the account itself is ever seen.
  pub nobody_demoted :
      (burn : Option (Text → W → W)) (e next : Env) (s : State W)
      → IsSorted s.accounts
      → IsRegistered s.accounts
      → ltb_ℤ s.params.citizen_activity_period (next.block_time -ℤ whole_seconds e.block_time)
        ≡ false
      → ltb_ℤ s.params.validator_activity_period (next.block_time -ℤ whole_seconds e.block_time)
        ≡ false
      → check_account_activity W burn next (end_blocker W e s).1 ≡ (ok tt, (end_blocker W e s).1)
  unfolding check_account_activity
  nobody_demoted burn e next s sorted registered citizens validators =
      let r = end_blocker-RenewedAll e s sorted registered in
      nobody_demoted_in burn (end_blocker W e s).1.params next.block_time
        (whole_seconds e.block_time) _ (end_blocker W e s).1
        (subst (λ (p : Params). Recent p next.block_time (whole_seconds e.block_time))
          (sym r.params) (citizens, validators))
        r.active
