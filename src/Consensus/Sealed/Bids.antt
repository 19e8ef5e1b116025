-- ===== src/Consensus/Sealed/Bids.antt =====
-- What commits and reveals do to the auctions.
use volnix_protocol.Base.{
  ℕ, ◌≡◌, ◌⊎◌, inl, inr, sym, ap, subst, false, some, Text, ℤ, arith, Option-cases,
}
use volnix_protocol.KvStore.{KvStore, nat_key, text_key}
use volnix_protocol.KvStore
use volnix_protocol.Host.{Env}
use volnix_protocol.Consensus.Types.{BlindAuction}
use volnix_protocol.Consensus.Auctions.{
  State, has_commit, new_auction, add_commit, new_commit, create_blind_auction, set_blind_auction,
  commit_to, commit_bid, or_default,
}
use volnix_protocol.Consensus.Messages.{MsgCommitBid, submit_commit, as_height}
use volnix_protocol.Consensus.Sealed.{
  IsSealed, IsSound, stored, Edit-IsSound, add_commit-IsSealed, new_auction-IsSealed,
}

module _ (W : Type 0) where
  -- The auction that a commit gets or creates is then in the store.
  create-cases :
      (now : ℤ) (k : ℕ) (s : State W)
      → (((create_blind_auction W now k s).1 ≡ s)
          × (KvStore.get k s.auctions ≡ some (create_blind_auction W now k s).0))
        ⊎ (((create_blind_auction W now k s).0 ≡ new_auction now k)
            × ((create_blind_auction W now k s).1 ≡ set_blind_auction W (new_auction now k) s))
  unfolding create_blind_auction
  create-cases now k s = elim (Option-cases (KvStore.get k s.auctions)) [
    | inl free ↦ inr (ground arith)
    | inr (a, found) ↦ inl (ground arith)
  ]

  commit-cases :
      (now : ℤ) (v hash : Text) (k : ℕ) (a : BlindAuction) (s : State W)
      → ((commit_to W now v hash k a s).1 ≡ s)
        ⊎ ((has_commit v a.commits ≡ false)
            × ((commit_to W now v hash k a s).1
                ≡ set_blind_auction W (add_commit (new_commit now v hash k) a) s))
  unfolding commit_to
  commit-cases now v hash k a s = ground arith

  module _ (sha256_hex : Text → Text) (n : ℕ) where
    pub create_blind_auction-IsSound :
        (now : ℤ) (k : ℕ) (s : State W)
        → IsSound W sha256_hex n s
        → IsSound W sha256_hex n (create_blind_auction W now k s).1
    unfolding set_blind_auction
    create_blind_auction-IsSound now k s sound = elim (create-cases now k s) [
      | inl (same, found) ↦ subst (IsSound W sha256_hex n) (sym same) sound
      | inr (new, put) ↦
          Edit-IsSound sha256_hex W n s _
            (stored (new_auction now k) (new_auction-IsSealed sha256_hex n now k)
              (ap State.auctions put))
            sound
    ]

    created-IsSealed :
        (now : ℤ) (k : ℕ) (s : State W)
        → IsSound W sha256_hex n s
        → IsSealed sha256_hex n (create_blind_auction W now k s).0
    unfolding IsSound
    created-IsSealed now k s sound = elim (create-cases now k s) [
      | inl (same, found) ↦ (sound k _ found).1
      | inr (new, put) ↦
          subst (IsSealed sha256_hex n) (sym new) (new_auction-IsSealed sha256_hex n now k)
    ]

    commit_bid-IsSound :
        (now : ℤ) (v hash : Text) (k : ℕ) (s : State W)
        → IsSound W sha256_hex n s
        → IsSound W sha256_hex n (commit_bid W now v hash k s).1
    unfolding commit_bid set_blind_auction
    commit_bid-IsSound now v hash k s sound =
        let a = (create_blind_auction W now k s).0 in
        let t = (create_blind_auction W now k s).1 in
        elim (commit-cases now v hash k a t) [
          | inl same ↦
              subst (IsSound W sha256_hex n) (sym same) (create_blind_auction-IsSound now k s sound)
          | inr (new, put) ↦
              Edit-IsSound sha256_hex W n t _
                (stored (add_commit (new_commit now v hash k) a)
                  (add_commit-IsSealed sha256_hex n (new_commit now v hash k) a new
                    (created-IsSealed now k s sound))
                  (ap State.auctions put))
                (create_blind_auction-IsSound now k s sound)
        ]

    submit-cases :
        (e : Env) (req : MsgCommitBid) (s : State W)
        → ((submit_commit W e req s).1 ≡ s)
          ⊎ ((submit_commit W e req s).1
              ≡ (commit_bid W e.now req.validator req.commit_hash
                  (or_default req.block_height (as_height e.block_height))
                  s).1)
    unfolding submit_commit
    submit-cases e req s = ground arith

    pub submit_commit-IsSound :
        (e : Env) (req : MsgCommitBid) (s : State W)
        → IsSound W sha256_hex n s
        → IsSound W sha256_hex n (submit_commit W e req s).1
    submit_commit-IsSound e req s sound = elim (submit-cases e req s) [
      | inl same ↦ subst (IsSound W sha256_hex n) (sym same) sound
      | inr went ↦
          subst (IsSound W sha256_hex n) (sym went)
            (commit_bid-IsSound e.now req.validator req.commit_hash _ s sound)
    ]
