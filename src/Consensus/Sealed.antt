-- ===== src/Consensus/Sealed.antt =====
-- The invariant of the blind auctions: one commit for each validator, and only reveals that answer a
-- commit.
pub mod Bids
pub mod Reveals
pub mod Blocks
pub mod Chain
use volnix_protocol.Base.{
  ℕ, zero, suc, ◌+◌, ◌-◌, ◌*◌, ◌/◌, ◌%◌, ◌^◌, ◌≤◌, ◌<◌, ◌≡◌, ◌≢◌, ◌↔◌, ◌⊎◌, inl, inr, refl, sym, ap,
  ◌∙◌, subst, fun_ext, Bool, true, false, not, ◌&&◌, ◌||◌, Option, none, some, List, [], ◌∷◌, ◌++◌,
  map, Text, codes, is_empty, text_eq, text_lt, ℤ, pos, negsuc, ◌+ℤ◌, ◌-ℤ◌, ltb_ℤ, leb_ℤ, ltb, leb,
  nat_eq, if◌then◌else◌, Outcome, ok, err, Action, pure, raise, gets, lift, or_raise, modify,
  raise_if, ◌>>=◌, ◌>>◌, is_some, length, arith, Outcome-cases, Option-cases, Bool-cases,
  text_eq_iff, text_eq_refl,
}
use volnix_protocol.KvStore.{KvStore, nat_key}
use volnix_protocol.KvStore
use volnix_protocol.Consensus.Types.{
  EncryptedBid, BidReveal, BlindAuction, is_committing, is_revealing, is_complete,
}
use volnix_protocol.Consensus.Auctions.{
  State, has_commit, find_commit, has_reveal, verify_commit, positive_bid, new_auction, add_commit,
  add_reveal,
}

-- No validator has two commits.
unfoldable pub NoTwice : List EncryptedBid → Type 0
NoTwice [] = Unit
NoTwice (c ∷ cs) = (has_commit c.validator cs ≡ false) × NoTwice cs

unfoldable pub NoSecond : List BidReveal → Type 0
NoSecond [] = Unit
NoSecond (r ∷ rs) = (has_reveal r.validator rs ≡ false) × NoSecond rs

-- The reveal opens the commit of its validator, with a positive bid.
pub record Opens (sha256_hex : Text → Text) (cs : List EncryptedBid) (r : BidReveal) : Type 0 where
  pub commit : EncryptedBid
  pub found : find_commit r.validator cs ≡ some commit
  pub verified : verify_commit sha256_hex commit.commit_hash r.nonce r.bid_amount ≡ true
  pub amount : ℕ
  pub bid : positive_bid r.bid_amount ≡ ok amount

unfoldable pub AllOpen : (Text → Text) → List EncryptedBid → List BidReveal → Type 0
AllOpen sha256_hex cs [] = Unit
AllOpen sha256_hex cs (r ∷ rs) = Opens sha256_hex cs r × AllOpen sha256_hex cs rs

-- Still taking commits, or taking reveals after its own block has ended.
abbrev pub IsLate : ℕ → BlindAuction → Type 0
IsLate n a = (is_committing a.phase ≡ true) ⊎ ((is_revealing a.phase ≡ true) × (a.block_height < n))

pub record IsSealed (sha256_hex : Text → Text) (n : ℕ) (a : BlindAuction) : Type 0 where
  pub once : NoTwice a.commits
  pub single : NoSecond a.reveals
  pub opened : AllOpen sha256_hex a.commits a.reveals
  pub late : IsLate n a
  pub nobody : a.winner ≡ []

-- The auctions found, before the end of block `n`.
unfoldable pub IsSound : (W : Type 0) → (Text → Text) → ℕ → State W → Type 0
IsSound W sha256_hex n s =
    (k : ℕ) (a : BlindAuction)
    → KvStore.get k s.auctions ≡ some a
    → (a.block_height ≡ k) × IsSealed sha256_hex n a

find-append :
    (v : Text) (cs : List EncryptedBid) (c d : EncryptedBid)
    → find_commit v cs ≡ some d
    → find_commit v (cs ++ c ∷ []) ≡ some d
unfolding find_commit
find-append v [] c d found = absurd (ground arith)
find-append v (b ∷ cs) c d found = ground (arith, find-append v cs c d)

has-append :
    (v : Text) (cs : List EncryptedBid) (c : EncryptedBid)
    → has_commit v cs ≡ false
    → text_eq c.validator v ≡ false
    → has_commit v (cs ++ c ∷ []) ≡ false
unfolding has_commit
has-append v [] c other new = ground arith
has-append v (b ∷ cs) c other new = ground (arith, has-append v cs c)

text_eq_comm : (s t : Text) → text_eq s t ≡ false → text_eq t s ≡ false
text_eq_comm s t differ = ground (arith, text_eq_iff s t, text_eq_iff t s)

append-NoTwice :
    (cs : List EncryptedBid) (c : EncryptedBid)
    → has_commit c.validator cs ≡ false
    → NoTwice cs
    → NoTwice (cs ++ c ∷ [])
unfolding NoTwice has_commit
append-NoTwice [] c new once = ground arith
append-NoTwice (b ∷ cs) c new (first, once) = elim (Bool-cases (text_eq b.validator c.validator)) [
  | inl same ↦ absurd (ground arith)
  | inr differ ↦ (
    has-append b.validator cs c first (text_eq_comm b.validator c.validator differ),
    append-NoTwice cs c (ground arith) once,
  )
]

has_reveal-append :
    (v : Text) (rs : List BidReveal) (r : BidReveal)
    → has_reveal v rs ≡ false
    → text_eq r.validator v ≡ false
    → has_reveal v (rs ++ r ∷ []) ≡ false
unfolding has_reveal
has_reveal-append v [] r other new = ground arith
has_reveal-append v (b ∷ rs) r other new = ground (arith, has_reveal-append v rs r)

append-NoSecond :
    (rs : List BidReveal) (r : BidReveal)
    → has_reveal r.validator rs ≡ false
    → NoSecond rs
    → NoSecond (rs ++ r ∷ [])
unfolding NoSecond has_reveal
append-NoSecond [] r new once = ground arith
append-NoSecond (b ∷ rs) r new (first, once) = elim (Bool-cases (text_eq b.validator r.validator)) [
  | inl same ↦ absurd (ground arith)
  | inr differ ↦ (
    has_reveal-append b.validator rs r first (text_eq_comm b.validator r.validator differ),
    append-NoSecond rs r (ground arith) once,
  )
]

module _ (sha256_hex : Text → Text) where
  AllOpen-commit :
      (cs : List EncryptedBid) (c : EncryptedBid) (rs : List BidReveal)
      → AllOpen sha256_hex cs rs
      → AllOpen sha256_hex (cs ++ c ∷ []) rs
  unfolding AllOpen
  AllOpen-commit cs c [] opened = opened
  AllOpen-commit cs c (r ∷ rs) (o, opened) = (
    record {
      commit = o.commit;
      found = find-append r.validator cs c o.commit o.found;
      verified = o.verified;
      amount = o.amount;
      bid = o.bid;
    },
    AllOpen-commit cs c rs opened,
  )

  AllOpen-reveal :
      (cs : List EncryptedBid) (rs : List BidReveal) (r : BidReveal)
      → Opens sha256_hex cs r
      → AllOpen sha256_hex cs rs
      → AllOpen sha256_hex cs (rs ++ r ∷ [])
  unfolding AllOpen
  AllOpen-reveal cs [] r opens opened = (opens, tt)
  AllOpen-reveal cs (b ∷ rs) r opens (o, opened) = (o, AllOpen-reveal cs rs r opens opened)

  pub new_auction-IsSealed :
      (n : ℕ) (now : ℤ) (height : ℕ) → IsSealed sha256_hex n (new_auction now height)
  unfolding NoTwice NoSecond AllOpen
  new_auction-IsSealed n now height = record {
    once = tt;
    single = tt;
    opened = tt;
    late = inl refl;
    nobody = refl;
  }

  pub add_commit-IsSealed :
      (n : ℕ) (c : EncryptedBid) (a : BlindAuction)
      → has_commit c.validator a.commits ≡ false
      → IsSealed sha256_hex n a
      → IsSealed sha256_hex n (add_commit c a)
  add_commit-IsSealed n c a new x = record {
    once = append-NoTwice a.commits c new x.once;
    single = x.single;
    opened = AllOpen-commit a.commits c a.reveals x.opened;
    late = x.late;
    nobody = x.nobody;
  }

  pub add_reveal-IsSealed :
      (n : ℕ) (r : BidReveal) (a : BlindAuction)
      → has_reveal r.validator a.reveals ≡ false
      → Opens sha256_hex a.commits r
      → IsSealed sha256_hex n a
      → IsSealed sha256_hex n (add_reveal r a)
  add_reveal-IsSealed n r a new opens x = record {
    once = x.once;
    single = append-NoSecond a.reveals r new x.single;
    opened = AllOpen-reveal a.commits a.reveals r opens x.opened;
    late = x.late;
    nobody = x.nobody;
  }

  module _ (W : Type 0) where
    -- What a step may do to the auctions.
    pub data Edit (n : ℕ) (s t : State W) : Type 0 where
      untouched : t.auctions ≡ s.auctions → Edit n s t
      stored :
          (a : BlindAuction)
          → IsSealed sha256_hex n a
          → t.auctions ≡ KvStore.set a.block_height a s.auctions
          → Edit n s t

    pub Edit-IsSound :
        (n : ℕ) (s t : State W) → Edit n s t → IsSound W sha256_hex n s → IsSound W sha256_hex n t
    unfolding IsSound
    Edit-IsSound n s t (untouched same) sound = rw same sound
    Edit-IsSound n s t (stored b x put) sound = λ k a found.
        elim (KvStore.get-set_cases k b.block_height b a s.auctions
          (subst (λ m. KvStore.get k m ≡ some a) put found)) [
            | inl (own, same) ↦ rw same (own, x)
            | inr before ↦ sound k a before
          ]
