-- ===== src/Consensus/Sealed/Reveals.antt =====
-- What a reveal does to the auctions.
use volnix_protocol.Base.{
  ℕ, ◌≡◌, ◌⊎◌, inl, inr, refl, sym, subst, true, false, Option, some, Text, is_empty, ℤ, ok, arith,
  Outcome-cases, Option-cases, Bool-cases,
}
use volnix_protocol.KvStore.{KvStore, nat_key, text_key}
use volnix_protocol.KvStore
use volnix_protocol.Host.{Host, Env}
use volnix_protocol.Consensus.Types.{EncryptedBid, BlindAuction, AnteilKeeper}
use volnix_protocol.Consensus.Auctions.{
  State, find_commit, has_reveal, verify_commit, positive_bid, add_reveal, new_reveal,
  set_blind_auction, get_blind_auction, validate_auction_bid, record_bid_history, reveal_bid,
  or_default, accept_reveal,
}
use volnix_protocol.Consensus.Messages.{MsgRevealBid, submit_reveal, as_height}
use volnix_protocol.Consensus.Sealed.{
  IsSound, Opens, untouched, stored, Edit-IsSound, add_reveal-IsSealed,
}

module _ (W : Type 0) (anteil : Option (AnteilKeeper W)) (h : Host) where
  validate-kept :
      (e : Env) (v bid : Text) (s : State W) → (validate_auction_bid W anteil h e v bid s).1 ≡ s
  unfolding validate_auction_bid
  validate-kept e v bid s = ground arith

  record-kept :
      (e : Env) (v bid : Text) (s : State W)
      → (record_bid_history W e v bid s).1.auctions ≡ s.auctions
  unfolding record_bid_history
  record-kept e v bid s = ground arith

  accept-cases :
      (e : Env) (v nonce bid : Text) (k : ℕ) (a : BlindAuction) (s : State W)
      → ((accept_reveal W anteil e v nonce bid k a s).1.auctions ≡ s.auctions)
        ⊎ ((accept_reveal W anteil e v nonce bid k a s).1.auctions
            ≡ KvStore.set a.block_height (add_reveal (new_reveal e.now v nonce bid k) a) s.auctions)
  unfolding accept_reveal set_blind_auction
  accept-cases e v nonce bid k a s = ground (arith, record-kept e v bid s)

  module _ (sha256_hex : Text → Text) where
    -- What a reveal finds before it is stored.
    record Ready (v nonce bid : Text) (k : ℕ) (a : BlindAuction) (s : State W) : Type 0 where
      found : KvStore.get k s.auctions ≡ some a
      new : has_reveal v a.reveals ≡ false
      commit : EncryptedBid
      committed : find_commit v a.commits ≡ some commit
      verified : verify_commit sha256_hex commit.commit_hash nonce bid ≡ true
      amount : ℕ
      positive : positive_bid bid ≡ ok amount

    reveal_stored :
        (e : Env) (v nonce bid : Text) (k n : ℕ) (s : State W) (a : BlindAuction) (c : EncryptedBid)
        → KvStore.get k s.auctions ≡ some a
        → has_reveal v a.reveals ≡ false
        → find_commit v a.commits ≡ some c
        → verify_commit sha256_hex c.commit_hash nonce bid ≡ true
        → positive_bid bid ≡ ok n
        → ((reveal_bid W anteil h sha256_hex e v nonce bid k s).1.auctions ≡ s.auctions)
          ⊎ ((reveal_bid W anteil h sha256_hex e v nonce bid k s).1.auctions
              ≡ KvStore.set a.block_height
                  (add_reveal (new_reveal e.now v nonce bid k) a)
                  s.auctions)
    unfolding reveal_bid get_blind_auction
    reveal_stored e v nonce bid k n s a c found new committed verified positive =
        ground (arith, validate-kept e v bid s, accept-cases e v nonce bid k a s)

    reveal-cases :
        (e : Env) (v nonce bid : Text) (k : ℕ) (s : State W)
        → ((reveal_bid W anteil h sha256_hex e v nonce bid k s).1.auctions ≡ s.auctions)
          ⊎ ((a : BlindAuction) × Ready v nonce bid k a s
              × ((reveal_bid W anteil h sha256_hex e v nonce bid k s).1.auctions
                  ≡ KvStore.set a.block_height
                      (add_reveal (new_reveal e.now v nonce bid k) a)
                      s.auctions))
    unfolding reveal_bid get_blind_auction set_blind_auction validate_auction_bid
    reveal-cases e v nonce bid k s = elim (Option-cases (KvStore.get k s.auctions)) [
      | inl missing ↦ inl (ground arith)
      | inr (a, found) ↦ elim (Bool-cases (has_reveal v a.reveals)) [
        | inl again ↦ inl (ground arith)
        | inr new ↦ elim (Option-cases (find_commit v a.commits)) [
          | inl uncommitted ↦ inl (ground arith)
          | inr (c, committed) ↦
              elim (Bool-cases (verify_commit sha256_hex c.commit_hash nonce bid)) [
                | inr differs ↦ inl (ground arith)
                | inl verified ↦ elim (Outcome-cases (positive_bid bid)) [
                  | inr (x, refused) ↦ inl (ground arith)
                  | inl (m, positive) ↦
                      elim (reveal_stored e v nonce bid k m s a c found new committed verified
                        positive) [
                          | inl same ↦ inl same
                          | inr put ↦ inr (
                            a,
                            record {
                              found = found;
                              new = new;
                              commit = c;
                              committed = committed;
                              verified = verified;
                              amount = m;
                              positive = positive;
                            },
                            put,
                          )
                        ]
                ]
              ]
        ]
      ]
    ]

    Ready-Opens :
        (now : ℤ) (v nonce bid : Text) (k : ℕ) (a : BlindAuction) (s : State W)
        → Ready v nonce bid k a s
        → Opens sha256_hex a.commits (new_reveal now v nonce bid k)
    Ready-Opens now v nonce bid k a s r = record {
      commit = r.commit;
      found = r.committed;
      verified = r.verified;
      amount = r.amount;
      bid = r.positive;
    }

    module _ (n : ℕ) where
      reveal_bid-IsSound :
          (e : Env) (v nonce bid : Text) (k : ℕ) (s : State W)
          → IsSound W sha256_hex n s
          → IsSound W sha256_hex n (reveal_bid W anteil h sha256_hex e v nonce bid k s).1
      unfolding IsSound
      reveal_bid-IsSound e v nonce bid k s sound = elim (reveal-cases e v nonce bid k s) [
        | inl same ↦
            Edit-IsSound sha256_hex W n s (reveal_bid W anteil h sha256_hex e v nonce bid k s).1
              (untouched same) sound
        | inr (a, r, put) ↦
            Edit-IsSound sha256_hex W n s (reveal_bid W anteil h sha256_hex e v nonce bid k s).1
              (stored (add_reveal (new_reveal e.now v nonce bid k) a)
                (add_reveal-IsSealed sha256_hex n (new_reveal e.now v nonce bid k) a r.new
                  (Ready-Opens e.now v nonce bid k a s r) (sound k a r.found).1)
                put)
              sound
      ]

      submit-cases :
          (e : Env) (req : MsgRevealBid) (s : State W)
          → ((submit_reveal W anteil h sha256_hex e req s).1 ≡ s)
            ⊎ ((submit_reveal W anteil h sha256_hex e req s).1
                ≡ (reveal_bid W anteil h sha256_hex e req.validator req.nonce req.bid_amount
                    (or_default req.block_height (as_height e.block_height))
                    s).1)
      unfolding submit_reveal
      submit-cases e req s = elim (Bool-cases (is_empty req.validator)) [
        | inl nobody ↦ inl (rw nobody refl)
        | inr somebody ↦ elim (Bool-cases (is_empty req.nonce)) [
          | inl bare ↦ inl (rw (somebody, bare) refl)
          | inr salted ↦ elim (Bool-cases (is_empty req.bid_amount)) [
            | inl blank ↦ inl (rw (somebody, salted, blank) refl)
            | inr filled ↦ inr (rw (somebody, salted, filled) refl)
          ]
        ]
      ]

      pub submit_reveal-IsSound :
          (e : Env) (req : MsgRevealBid) (s : State W)
          → IsSound W sha256_hex n s
          → IsSound W sha256_hex n (submit_reveal W anteil h sha256_hex e req s).1
      submit_reveal-IsSound e req s sound = elim (submit-cases e req s) [
        | inl same ↦ subst (IsSound W sha256_hex n) (sym same) sound
        | inr went ↦
            subst (IsSound W sha256_hex n) (sym went)
              (reveal_bid-IsSound e req.validator req.nonce req.bid_amount _ s sound)
      ]
