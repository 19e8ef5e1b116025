-- ===== src/Consensus/Sealed/Chain.antt =====
-- Any chain of blocks with bids: what its auctions have in common.
use volnix_protocol.Base.{ℕ, suc, ◌≡◌, false, Option, some, [], Text, ℤ, arith}
use volnix_protocol.KvStore.{KvStore, nat_key, text_key}
use volnix_protocol.KvStore
use volnix_protocol.Host.{Host, Env}
use volnix_protocol.Consensus.Types.{BlindAuction, AnteilKeeper, is_complete}
use volnix_protocol.Consensus.Auctions.{State}
use volnix_protocol.Consensus.Selection.{process_auctions, cleanup_old_auctions}
use volnix_protocol.Consensus.Messages.{MsgCommitBid, MsgRevealBid, submit_commit, submit_reveal}
use volnix_protocol.Consensus.Sealed.{NoTwice, NoSecond, AllOpen, IsSound, untouched, Edit-IsSound}
use volnix_protocol.Consensus.Sealed.Bids.{submit_commit-IsSound}
use volnix_protocol.Consensus.Sealed.Reveals.{submit_reveal-IsSound}
use volnix_protocol.Consensus.Sealed.Blocks.{process_auctions-IsSound, cleanup-kept, late-open}

module _ (W : Type 0) (anteil : Option (AnteilKeeper W)) (h : Host) (sha256_hex : Text → Text) where
  -- The states during block `n`: bids for any height and with any outcome, anything that leaves the
  -- auctions alone, and the ends of blocks, each of the height after the one before.
  pub data Chain : ℕ → State W → Type 0 where
    start : {n : ℕ} {s : State W} → s.auctions ≡ [] → Chain n s
    committed :
        {n : ℕ} {s : State W} (e : Env) (req : MsgCommitBid)
        → Chain n s
        → Chain n (submit_commit W e req s).1
    revealed :
        {n : ℕ} {s : State W} (e : Env) (req : MsgRevealBid)
        → Chain n s
        → Chain n (submit_reveal W anteil h sha256_hex e req s).1
    elsewhere :
        {n : ℕ} {s : State W} (t : State W) → Chain n s → t.auctions ≡ s.auctions → Chain n t
    ended :
        {n : ℕ} {s : State W} (now : ℤ) (random : ℕ)
        → Chain n s
        → Chain (suc n) (process_auctions W anteil now random n s)

  run-IsSound : (n : ℕ) (s : State W) → Chain n s → IsSound W sha256_hex n s
  unfolding IsSound KvStore.get
  run-IsSound n s (start none_yet) = λ k a found. absurd (ground arith)
  run-IsSound n s (committed {s = r} e req before) =
      submit_commit-IsSound W sha256_hex n e req r (run-IsSound n r before)
  run-IsSound n s (revealed {s = r} e req before) =
      submit_reveal-IsSound W anteil h sha256_hex n e req r (run-IsSound n r before)
  run-IsSound n s (elsewhere {s = r} t before same) =
      Edit-IsSound sha256_hex W n r t (untouched same) (run-IsSound n r before)
  run-IsSound n s (ended {n = m} {s = r} now random before) =
      process_auctions-IsSound W sha256_hex anteil now random m r (run-IsSound m r before)

  -- On a chain that started without auctions, whatever bids were made for whatever heights, no
  -- auction has two commits or two reveals of a validator, and each reveal opens the commit of
  -- its validator with the hash of its nonce and its bid, which is a positive uint64.
  pub Chain-IsSealed :
      (n : ℕ) (s : State W) (k : ℕ) (a : BlindAuction)
      → Chain n s
      → KvStore.get k s.auctions ≡ some a
      → NoTwice a.commits × NoSecond a.reveals × AllOpen sha256_hex a.commits a.reveals
  unfolding IsSound
  Chain-IsSealed n s k a chain found =
      let (own, x) = run-IsSound n s chain k a found in (x.once, x.single, x.opened)

  -- On a chain that started without auctions no auction is ever completed and none has a winner,
  -- whatever bids are made and whatever is drawn; and CleanupOldAuctions then removes nothing at
  -- any height.
  pub never_completed :
      (n : ℕ) (s : State W)
      → Chain n s
      → ((k : ℕ) (a : BlindAuction)
          → KvStore.get k s.auctions ≡ some a
          → (is_complete a.phase ≡ false) × (a.winner ≡ []))
        × ((height : ℕ) → cleanup_old_auctions W height s ≡ s)
  unfolding IsSound
  never_completed n s chain =
      let sound = run-IsSound n s chain in
      (
        λ k a found. (late-open n a (sound k a found).1.late, (sound k a found).1.nobody),
        λ height. cleanup-kept W sha256_hex n height s sound,
      )
