-- ===== src/Ident/Renewal.antt =====
-- x/ident/keeper/keeper.go: the loop of EndBlocker renews every account.
use volnix_protocol.Base.{
  ◌≡◌, inl, inr, refl, sym, ◌∙◌, subst, true, Option, none, some, [], ◌∷◌, Text, text_eq, ℤ,
  if◌then◌else◌, Outcome, ok, arith, Bool-cases, text_eq_iff, text_eq_refl,
}
use volnix_protocol.KvStore.{KvStore, text_key}
use volnix_protocol.KvStore
use volnix_protocol.KvStore.Sorted.{AllAfter, IsSorted, get-AllAfter, text_order, set-IsSorted}
use volnix_protocol.Ident.Types.{VerifiedAccount, Error, validate_account}
use volnix_protocol.Ident.Keeper.{
  State, update_verified_account, get_verified_account, move_hash, put_account,
}
use volnix_protocol.Ident.Blocks.{touch_all}

-- Every account is valid and stands under its own address.
unfoldable pub IsRegistered : KvStore Text VerifiedAccount → Type 0
IsRegistered [] = Unit
IsRegistered ((k, a) ∷ m) = (a.address ≡ k) × (validate_account a ≡ ok tt) × IsRegistered m

abbrev pub touched : ℤ → VerifiedAccount → VerifiedAccount
touched seconds a = record a { last_active = seconds }

-- What is found after the rest of the loop, from the account still to come and the one now.
abbrev pub renewed : ℤ → Option VerifiedAccount → Option VerifiedAccount → Option VerifiedAccount
renewed seconds none now = now
renewed seconds (some a) now = some (touched seconds a)

module _ (W : Type 0) (seconds : ℤ) where
  abbrev pub Agrees : KvStore Text VerifiedAccount → State W → Type 0
  Agrees m s =
      (v : Text) (a : VerifiedAccount)
      → KvStore.get v m ≡ some a
      → KvStore.get v s.accounts ≡ some a

  -- The hash of an account is not altered, so the index is left alone.
  touch-ok :
      (a : VerifiedAccount) (s : State W)
      → validate_account a ≡ ok tt
      → KvStore.get a.address s.accounts ≡ some a
      → update_verified_account W (touched seconds a) s
        ≡ (ok tt, put_account W (touched seconds a) s)
  unfolding update_verified_account get_verified_account move_hash validate_account
  touch-ok a s valid there = ground (arith, there, valid, text_eq_refl a.identity_hash)

  pub record Renewed (m : KvStore Text VerifiedAccount) (s : State W)
      (r : Outcome Error (Unit {0}) × State W) : Type 0 where
    pub accepted : r.0 ≡ ok tt
    pub frame : r.1 ≡ record s { accounts = r.1.accounts }
    pub sorted : IsSorted r.1.accounts
    pub found :
        (v : Text)
        → KvStore.get v r.1.accounts ≡ renewed seconds (KvStore.get v m) (KvStore.get v s.accounts)

  module _ (k : Text) (a : VerifiedAccount) (m : KvStore Text VerifiedAccount) (s : State W)
      (after : AllAfter k m) (own : a.address ≡ k) where
    stored_now : Agrees ((k, a) ∷ m) s → KvStore.get a.address s.accounts ≡ some a
    unfolding KvStore.get
    stored_now agrees = agrees a.address a (ground (arith, own, text_eq_refl k))

    touch_step :
        validate_account a ≡ ok tt
        → Agrees ((k, a) ∷ m) s
        → touch_all W seconds (a ∷ KvStore.values m) s
          ≡ touch_all W seconds (KvStore.values m) (put_account W (touched seconds a) s)
    unfolding touch_all
    touch_step valid agrees = ground (arith, touch-ok a s valid (stored_now agrees))

    gone : (v : Text) → text_eq k v ≡ true → KvStore.get v m ≡ none
    gone v hit =
        subst (λ w. KvStore.get w m ≡ none) ((text_eq_iff k v).0 hit) (get-AllAfter k m after)

    put-found :
        (v : Text)
        → KvStore.get v (put_account W (touched seconds a) s).accounts
          ≡ (if text_eq k v then some (touched seconds a) else KvStore.get v s.accounts)
    unfolding put_account
    put-found v = rw (sym own) (KvStore.get-set v a.address (touched seconds a) s.accounts)

    later-Agrees : Agrees ((k, a) ∷ m) s → Agrees m (put_account W (touched seconds a) s)
    unfolding KvStore.get
    later-Agrees agrees v b here = elim (Bool-cases (text_eq k v)) [
      | inl hit ↦ absurd (ground (arith, gone v hit))
      | inr miss ↦ put-found v ∙ rw miss (agrees v b (ground arith))
    ]

    step-renewed :
        (v : Text)
        → renewed seconds
            (KvStore.get v m)
            (KvStore.get v (put_account W (touched seconds a) s).accounts)
          ≡ renewed seconds (KvStore.get v ((k, a) ∷ m)) (KvStore.get v s.accounts)
    unfolding KvStore.get
    step-renewed v = elim (Bool-cases (text_eq k v)) [
      | inl hit ↦ rw (put-found v, hit, gone v hit) refl
      | inr miss ↦ rw (put-found v, miss) refl
    ]

  put_frame :
      (a : VerifiedAccount) (accounts : KvStore Text VerifiedAccount) (s : State W)
      → record (put_account W a s) { accounts = accounts } ≡ record s { accounts = accounts }
  unfolding put_account
  put_frame a accounts s = refl

  put-IsSorted :
      (a : VerifiedAccount) (s : State W)
      → IsSorted s.accounts
      → IsSorted (put_account W a s).accounts
  unfolding put_account
  put-IsSorted a s sorted = set-IsSorted a.address a s.accounts sorted

  pub renew :
      (m : KvStore Text VerifiedAccount) (s : State W)
      → IsSorted m
      → IsRegistered m
      → IsSorted s.accounts
      → Agrees m s
      → Renewed m s (touch_all W seconds (KvStore.values m) s)
  unfolding IsSorted IsRegistered KvStore.values
  renew [] s sorted registered ordered agrees =
      unfold touch_all KvStore.get in
      record { accepted = refl; frame = refl; sorted = ordered; found = λ v. refl }
  renew ((k, a) ∷ m) s (after, sorted) (own, valid, registered) ordered agrees =
      let next = put_account W (touched seconds a) s in
      let rest =
        renew m next sorted registered (put-IsSorted (touched seconds a) s ordered)
          (later-Agrees k a m s after own agrees) in
      rw (touch_step k a m s after own valid agrees) (record {
        accepted = rest.accepted;
        frame = rest.frame ∙ put_frame (touched seconds a) _ s;
        sorted = rest.sorted;
        found = λ v. rest.found v ∙ step-renewed k a m s after own v;
      })
