-- ===== src/Consensus/Sealed/Blocks.antt =====
-- What EndBlocker does to the auctions.
use volnix_protocol.Base.{
  ℕ, zero, suc, ◌+◌, ◌-◌, ◌%◌, ◌^◌, ◌≡◌, ◌⊎◌, inl, inr, refl, sym, subst, true, false, Option, some,
  Text, ℤ, arith, Option-cases,
}
use volnix_protocol.KvStore.{KvStore, nat_key, text_key}
use volnix_protocol.KvStore
use volnix_protocol.Consensus.Types.{
  BlindAuction, AnteilKeeper, AuctionPhase, is_committing, is_revealing, is_complete, revealing,
}
use volnix_protocol.Consensus.Auctions.{State, set_blind_auction, get_blind_auction, or_default}
use volnix_protocol.Consensus.Selection.{
  transition_auction_phase, remove_if_complete, remove_up_to, cleanup_old_auctions, advance,
  advance_current, process_auctions,
}
use volnix_protocol.Consensus.Sealed.{IsSealed, IsLate, IsSound, stored, Edit-IsSound}
use volnix_protocol.Consensus.Sealed.Bids.{create_blind_auction-IsSound}

not_both : (p : AuctionPhase) → is_committing p ≡ true → is_revealing p ≡ false
not_both p taking = ground arith

pub late-open : (n : ℕ) (a : BlindAuction) → IsLate n a → is_complete a.phase ≡ false
late-open n a (inl taking) = ground arith
late-open n a (inr (shown, past)) = ground arith

module _ (W : Type 0) (sha256_hex : Text → Text) where
  later-IsSealed :
      (n : ℕ) (a : BlindAuction) → IsSealed sha256_hex n a → IsSealed sha256_hex (suc n) a
  later-IsSealed n a x = record {
    once = x.once;
    single = x.single;
    opened = x.opened;
    late = elim x.late [ inl taking ↦ inl taking | inr (shown, past) ↦ inr (shown, omega arith) ];
    nobody = x.nobody;
  }

  later-IsSound : (n : ℕ) (s : State W) → IsSound W sha256_hex n s → IsSound W sha256_hex (suc n) s
  unfolding IsSound
  later-IsSound n s sound k a found = ((sound k a found).0, later-IsSealed n a (sound k a found).1)

  revealing-IsSealed :
      (n : ℕ) (a : BlindAuction)
      → a.block_height ≡ n
      → IsSealed sha256_hex n a
      → IsSealed sha256_hex (suc n) (record a { phase = revealing })
  revealing-IsSealed n a here x = record {
    once = x.once;
    single = x.single;
    opened = x.opened;
    late = inr (refl, omega arith);
    nobody = x.nobody;
  }

  -- A sound auction of the block that ends may come to its reveals, and to nothing more.
  advance-cases :
      (anteil : Option (AnteilKeeper W)) (now : ℤ) (random n : ℕ) (a : BlindAuction) (s : State W)
      → KvStore.get n s.auctions ≡ some a
      → a.block_height ≡ n
      → IsLate n a
      → (advance W anteil now random n a s ≡ s)
        ⊎ ((advance W anteil now random n a s).auctions
            ≡ KvStore.set a.block_height (record a { phase = revealing }) s.auctions)
  unfolding advance transition_auction_phase get_blind_auction set_blind_auction
  advance-cases anteil now random n a s found here (inl taking) =
      ground (arith, not_both a.phase taking)
  advance-cases anteil now random n a s found here (inr (shown, past)) = absurd (omega arith)

  advance_current-IsSound :
      (anteil : Option (AnteilKeeper W)) (now : ℤ) (random n : ℕ) (s : State W)
      → IsSound W sha256_hex n s
      → IsSound W sha256_hex (suc n) (advance_current W anteil now random n s)
  unfolding advance_current IsSound
  advance_current-IsSound anteil now random n s sound =
      elim (Option-cases (KvStore.get n s.auctions)) [
        | inl missing ↦ rw (missing, advance_current) (later-IsSound n s sound)
        | inr (a, found) ↦
            let (here, x) = sound n a found in
            rw (found, advance_current)
              (elim (advance-cases anteil now random n a s found here x.late) [
                | inl same ↦ rw same (later-IsSound n s sound)
                | inr put ↦
                    Edit-IsSound sha256_hex W (suc n) s (advance W anteil now random n a s)
                      (stored (record a { phase = revealing }) (revealing-IsSealed n a here x) put)
                      (later-IsSound n s sound)
              ])
      ]

  -- No auction is complete, so none is removed.
  remove-kept : (n k : ℕ) (s : State W) → IsSound W sha256_hex n s → remove_if_complete W k s ≡ s
  unfolding remove_if_complete IsSound
  remove-kept n k s sound = elim (Option-cases (KvStore.get k s.auctions)) [
    | inl missing ↦ ground arith
    | inr (a, found) ↦ ground (arith, late-open n a (sound k a found).1.late)
  ]

  remove_up_to-kept : (n k : ℕ) (s : State W) → IsSound W sha256_hex n s → remove_up_to W k s ≡ s
  unfolding remove_up_to
  remove_up_to-kept n zero s sound = refl
  remove_up_to-kept n (suc k) s sound =
      rw (remove_up_to-kept n k s sound) (remove-kept n (suc k) s sound)

  pub cleanup-kept :
      (n height : ℕ) (s : State W) → IsSound W sha256_hex n s → cleanup_old_auctions W height s ≡ s
  unfolding cleanup_old_auctions
  cleanup-kept n height s sound = ground (
    arith,
    remove_up_to-kept n (height - or_default s.params.auction_history_blocks 100 - 1) s sound,
  )

  pub process_auctions-IsSound :
      (anteil : Option (AnteilKeeper W)) (now : ℤ) (random n : ℕ) (s : State W)
      → IsSound W sha256_hex n s
      → IsSound W sha256_hex (suc n) (process_auctions W anteil now random n s)
  unfolding process_auctions
  process_auctions-IsSound anteil now random n s sound =
      let opened =
        create_blind_auction-IsSound W sha256_hex (suc n) now ((n + 1) % 2 ^ 64) _
          (advance_current-IsSound anteil now random n s sound) in
      subst (IsSound W sha256_hex (suc n)) (sym (cleanup-kept (suc n) n _ opened)) opened
