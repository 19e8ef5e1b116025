-- ===== src/Anteil/Auctions/Sweep.antt =====
-- x/anteil/keeper: a loop that updates some of the stored auctions, as those of the two
-- ProcessAuctions do.
use volnix_protocol.Base.{
  ◌≡◌, inl, inr, refl, ◌∙◌, subst, Bool, true, false, Option, none, some, List, [], ◌∷◌, Text,
  text_eq, if◌then◌else◌, Outcome, ok, ◌>>=◌, is_some, arith, Bool-cases, text_eq_iff, text_eq_refl,
}
use volnix_protocol.KvStore.{KvStore, text_key}
use volnix_protocol.KvStore
use volnix_protocol.KvStore.Sorted.{AllAfter, IsSorted, get-AllAfter, text_order}
use volnix_protocol.Anteil.Types.{Auction, is_auction_valid}
use volnix_protocol.Anteil.Keeper.{State, Handler}
use volnix_protocol.Anteil.Auctions.{update_auction, put_auction, Error, get_all_auctions}

-- Every auction is valid and stands under its own identifier.
unfoldable pub IsRegistered : KvStore Text Auction → Type 0
IsRegistered [] = Unit
IsRegistered ((k, a) ∷ m) = (a.auction_id ≡ k) × (is_auction_valid a ≡ ok tt) × IsRegistered m

unfoldable pub update_each :
    (Auction → Bool) → (Auction → Auction) → List Auction → Handler (Unit {0})
update_each p f [] s = (ok tt, s)
update_each p f (a ∷ auctions) s =
    let rest = update_each p f auctions in
    if p a then (update_auction (f a) >>= λ _. rest) s else rest s

put_frame :
    (a : Auction) (auctions : KvStore Text Auction) (s : State)
    → record (put_auction a s) { auctions = auctions } ≡ record s { auctions = auctions }
unfolding put_auction
put_frame a auctions s = refl

-- An update that leaves an auction in its place.
pub record IsInPlace (f : Auction → Auction) : Type 0 where
  pub same_id : (a : Auction) → (f a).auction_id ≡ a.auction_id
  pub same_validity : (a : Auction) → is_auction_valid (f a) ≡ is_auction_valid a

abbrev pub advanced : (Auction → Bool) → (Auction → Auction) → Option Auction → Option Auction
advanced p f none = none
advanced p f (some a) = if p a then some (f a) else some a

module _ (p : Auction → Bool) (f : Auction → Auction) (in_place : IsInPlace f) where
  -- What is found after the rest of the loop, from the auction still to come and the one now.
  abbrev merged : Option Auction → Option Auction → Option Auction
  merged none now = now
  merged (some a) now = if p a then some (f a) else now

  abbrev Covers : KvStore Text Auction → State → Type 0
  Covers m s =
      (v : Text) → is_some (KvStore.get v m) ≡ true → is_some (KvStore.get v s.auctions) ≡ true

  update-ok :
      (a : Auction) (s : State)
      → is_auction_valid a ≡ ok tt
      → is_some (KvStore.get a.auction_id s.auctions) ≡ true
      → update_auction (f a) s ≡ (ok tt, put_auction (f a) s)
  unfolding update_auction
  update-ok a s valid there = rw (in_place.same_validity a, valid, in_place.same_id a, there) refl

  record Swept (m : KvStore Text Auction) (s : State) (r : Outcome Error (Unit {0}) × State)
      : Type 0 where
    pub accepted : r.0 ≡ ok tt
    pub frame : r.1 ≡ record s { auctions = r.1.auctions }
    pub found :
        (v : Text)
        → KvStore.get v r.1.auctions ≡ merged (KvStore.get v m) (KvStore.get v s.auctions)

  module _ (k : Text) (a : Auction) (m : KvStore Text Auction) (s : State) (after : AllAfter k m)
      (own : a.auction_id ≡ k) where
    stored_now : Covers ((k, a) ∷ m) s → is_some (KvStore.get a.auction_id s.auctions) ≡ true
    unfolding KvStore.get
    stored_now covers = covers a.auction_id (ground (arith, own, text_eq_refl k))

    updated_step :
        is_auction_valid a ≡ ok tt
        → p a ≡ true
        → Covers ((k, a) ∷ m) s
        → update_each p f (a ∷ KvStore.values m) s
          ≡ update_each p f (KvStore.values m) (put_auction (f a) s)
    unfolding update_each
    updated_step valid chosen covers = ground (arith, update-ok a s valid (stored_now covers))

    updated_id : (f a).auction_id ≡ k
    updated_id = in_place.same_id a ∙ own

    kept-Covers : Covers ((k, a) ∷ m) s → Covers m s
    unfolding KvStore.get
    kept-Covers covers v here = covers v (ground arith)

    updated-Covers : Covers ((k, a) ∷ m) s → Covers m (put_auction (f a) s)
    unfolding put_auction
    updated-Covers covers v here =
        ground
          (arith, kept-Covers covers v here, KvStore.get-set v (f a).auction_id (f a) s.auctions)

    gone : (v : Text) → text_eq k v ≡ true → KvStore.get v m ≡ none
    gone v hit =
        subst (λ w. KvStore.get w m ≡ none) ((text_eq_iff k v).0 hit) (get-AllAfter k m after)

    updated-merged :
        p a ≡ true
        → (v : Text)
        → merged (KvStore.get v m) (KvStore.get v (put_auction (f a) s).auctions)
          ≡ merged (KvStore.get v ((k, a) ∷ m)) (KvStore.get v s.auctions)
    unfolding put_auction KvStore.get
    updated-merged chosen v = elim (Bool-cases (text_eq k v)) [
      | inl hit ↦
          rw
            (
              hit,
              gone v hit,
              chosen,
              KvStore.get-set v (f a).auction_id (f a) s.auctions,
              updated_id,
              hit,
            )
            refl
      | inr miss ↦
          rw (miss, KvStore.get-set v (f a).auction_id (f a) s.auctions, updated_id, miss) refl
    ]

    kept-merged :
        p a ≡ false
        → (v : Text)
        → merged (KvStore.get v m) (KvStore.get v s.auctions)
          ≡ merged (KvStore.get v ((k, a) ∷ m)) (KvStore.get v s.auctions)
    unfolding KvStore.get
    kept-merged passed v = elim (Bool-cases (text_eq k v)) [
      | inl hit ↦ rw (hit, gone v hit, passed) refl
      | inr miss ↦ rw miss refl
    ]

  skipped_step :
      (a : Auction) (auctions : List Auction) (s : State)
      → p a ≡ false
      → update_each p f (a ∷ auctions) s ≡ update_each p f auctions s
  unfolding update_each
  skipped_step a auctions s passed = rw passed refl

  sweep :
      (m : KvStore Text Auction) (s : State)
      → IsSorted m
      → IsRegistered m
      → Covers m s
      → Swept m s (update_each p f (KvStore.values m) s)
  unfolding IsSorted IsRegistered KvStore.values
  sweep [] s sorted registered covers =
      unfold update_each KvStore.get in record { accepted = refl; frame = refl; found = λ v. refl }
  sweep ((k, a) ∷ m) s (after, sorted) (own, valid, registered) covers = elim (Bool-cases (p a)) [
    | inl chosen ↦
        let rest =
          sweep m (put_auction (f a) s) sorted registered
            (updated-Covers k a m s after own covers) in
        rw (updated_step k a m s after own valid chosen covers) (record {
          accepted = rest.accepted;
          frame = rest.frame ∙ put_frame (f a) _ s;
          found = λ v. rest.found v ∙ updated-merged k a m s after own chosen v;
        })
    | inr passed ↦
        let rest = sweep m s sorted registered (kept-Covers k a m s after own covers) in
        rw (skipped_step a (KvStore.values m) s passed) (record {
          accepted = rest.accepted;
          frame = rest.frame;
          found = λ v. rest.found v ∙ kept-merged k a m s after own passed v;
        })
  ]

-- A loop over all stored auctions: it goes through, and does its update to those it selects.
pub record SweptAll (p : Auction → Bool) (f : Auction → Auction) (s : State)
    (r : Outcome Error (Unit {0}) × State) : Type 0 where
  pub accepted : r.0 ≡ ok tt
  pub frame : r.1 ≡ record s { auctions = r.1.auctions }
  pub found : (v : Text) → KvStore.get v r.1.auctions ≡ advanced p f (KvStore.get v s.auctions)

merged_self :
    (p : Auction → Bool) (f : Auction → Auction) (in_place : IsInPlace f) (o : Option Auction)
    → merged p f in_place o o ≡ advanced p f o
merged_self p f in_place none = refl
merged_self p f in_place (some a) = refl

pub update_each-SweptAll :
    (p : Auction → Bool) (f : Auction → Auction) (in_place : IsInPlace f) (s : State)
    → IsSorted s.auctions
    → IsRegistered s.auctions
    → SweptAll p f s (update_each p f (get_all_auctions s) s)
unfolding get_all_auctions
update_each-SweptAll p f in_place s sorted registered =
    let swept = sweep p f in_place s.auctions s sorted registered (λ v here. here) in
    record {
      accepted = swept.accepted;
      frame = swept.frame;
      found = λ v. swept.found v ∙ merged_self p f in_place (KvStore.get v s.auctions);
    }
