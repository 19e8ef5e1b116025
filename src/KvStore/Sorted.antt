-- ===== src/KvStore/Sorted.antt =====
-- The order of the entries of a store by their keys, as the iterators of the source yield them.
use volnix_protocol.Base.{
  ◌≡◌, arith, none, [], ◌∷◌, true, false, Text, text_lt, text_eq, Bool-cases, inl, subst, inr,
}
use volnix_protocol.KvStore.{Key, KvStore, get, set, delete, nat_key, text_key}

-- The order of the keys is strict and total.
pub record KeyOrder {ℓ} (K : Type ℓ) ⦃o : Key K⦄ : Type ℓ where
  pub irreflexive : (a : K) → o.before a a ≡ false
  pub transitive : (a b c : K) → o.before a b ≡ true → o.before b c ≡ true → o.before a c ≡ true
  pub total : (a b : K) → o.before a b ≡ false → o.beq b a ≡ false → o.before b a ≡ true

pub text_lt_irreflexive : (s : Text) → text_lt s s ≡ false
unfolding text_lt
text_lt_irreflexive [] = ground arith
text_lt_irreflexive (c ∷ s) = ground (arith, text_lt_irreflexive s)

pub text_lt_transitive :
    (r s t : Text) → text_lt r s ≡ true → text_lt s t ≡ true → text_lt r t ≡ true
unfolding text_lt
text_lt_transitive [] [] t a b = ground arith
text_lt_transitive [] (d ∷ s) [] a b = ground arith
text_lt_transitive [] (d ∷ s) (f ∷ t) a b = ground arith
text_lt_transitive (c ∷ r) [] t a b = ground arith
text_lt_transitive (c ∷ r) (d ∷ s) [] a b = ground arith
text_lt_transitive (c ∷ r) (d ∷ s) (f ∷ t) a b = ground (arith, text_lt_transitive r s t)

pub text_lt_total : (s t : Text) → text_lt s t ≡ false → text_eq t s ≡ false → text_lt t s ≡ true
unfolding text_lt text_eq
text_lt_total [] [] a b = ground arith
text_lt_total [] (d ∷ t) a b = ground arith
text_lt_total (c ∷ s) [] a b = ground arith
text_lt_total (c ∷ s) (d ∷ t) a b = ground (arith, text_lt_total s t)

instance abbrev pub text_order : KeyOrder Text
text_order = record {
  irreflexive = text_lt_irreflexive;
  transitive = text_lt_transitive;
  total = text_lt_total;
}

module _ {ℓ} {K V : Type ℓ} ⦃o : Key K⦄ where
  unfoldable pub AllAfter : K → KvStore K V → Type ℓ
  AllAfter k [] = Unit
  AllAfter k ((j, w) ∷ m) = (o.before k j ≡ true) × AllAfter k m

  unfoldable pub IsSorted : KvStore K V → Type ℓ
  IsSorted [] = Unit
  IsSorted ((k, v) ∷ m) = AllAfter k m × IsSorted m

  module _ ⦃laws : KeyOrder K⦄ where
    -- A key before all others is not among them.
    pub get-AllAfter : (k : K) (m : KvStore K V) → AllAfter k m → get k m ≡ none
    unfolding AllAfter get
    get-AllAfter k [] after = ground arith
    get-AllAfter k ((j, w) ∷ m) after =
        ground (arith, get-AllAfter k m, laws.irreflexive k, o.beq_iff j k)

    AllAfter-earlier :
        (k j : K) (m : KvStore K V) → o.before k j ≡ true → AllAfter j m → AllAfter k m
    unfolding AllAfter
    AllAfter-earlier k j [] first after = after
    AllAfter-earlier k j ((i, w) ∷ m) first (a, after) =
        (laws.transitive k j i first a, AllAfter-earlier k j m first after)

    AllAfter-set :
        (i k : K) (v : V) (m : KvStore K V)
        → o.before i k ≡ true
        → AllAfter i m
        → AllAfter i (set k v m)
    unfolding AllAfter set
    AllAfter-set i k v [] first after = (first, after)
    AllAfter-set i k v ((j, w) ∷ m) first (a, after) =
        ground (arith, AllAfter-set i k v m first after)

    AllAfter-delete : (i k : K) (m : KvStore K V) → AllAfter i m → AllAfter i (delete k m)
    unfolding AllAfter delete
    AllAfter-delete i k [] after = after
    AllAfter-delete i k ((j, w) ∷ m) (a, after) = ground (arith, AllAfter-delete i k m after)

    pub set-IsSorted : (k : K) (v : V) (m : KvStore K V) → IsSorted m → IsSorted (set k v m)
    unfolding IsSorted set AllAfter
    set-IsSorted k v [] sorted = ground arith
    set-IsSorted k v ((j, w) ∷ m) (a, sorted) = elim (Bool-cases (o.beq j k)) [
      | inl same ↦ rw same (subst (λ i. AllAfter i m) ((o.beq_iff j k).0 same) a, sorted)
      | inr other ↦ elim (Bool-cases (o.before k j)) [
        | inl first ↦ rw (other, first) ((first, AllAfter-earlier k j m first a), (a, sorted))
        | inr later ↦
            rw (other, later)
              (AllAfter-set j k v m (laws.total k j later other) a, set-IsSorted k v m sorted)
      ]
    ]

    pub delete-IsSorted : (k : K) (m : KvStore K V) → IsSorted m → IsSorted (delete k m)
    unfolding IsSorted delete
    delete-IsSorted k [] sorted = sorted
    delete-IsSorted k ((j, w) ∷ m) (a, sorted) =
        ground (arith, delete-IsSorted k m sorted, AllAfter-delete j k m a)
