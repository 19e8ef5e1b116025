-- ===== src/KvStore.antt =====
-- A key-value store holding the values of one key prefix, as the keepers use it: `get`, `set`,
-- `delete`, and iteration in the ascending order of the keys. The entries stand in that order.
pub mod Sorted
use volnix_protocol.Base.{
  ℕ, ◌≡◌, ◌↔◌, Bool, true, ◌&&◌, ◌||◌, Option, none, some, List, [], ◌∷◌, map, arith, Text, text_eq,
  text_eq_iff, text_lt, nat_eq, nat_eq_iff, ltb, if◌then◌else◌, refl, ◌⊎◌, ◌≢◌,
}

-- The keys: `beq` is equality of the encoded bytes, `before` their order.
pub record Key {ℓ} (K : Type ℓ) : Type ℓ where
  pub beq : K → K → Bool
  pub beq_iff : (a b : K) → (beq a b ≡ true) ↔ (a ≡ b)
  pub before : K → K → Bool

instance abbrev pub nat_key : Key ℕ
nat_key = record { beq = nat_eq; beq_iff = nat_eq_iff; before = ltb }

instance abbrev pub text_key : Key Text
text_key = record { beq = text_eq; beq_iff = text_eq_iff; before = text_lt }

abbrev pub pair_eq : ℕ × Text → ℕ × Text → Bool
pair_eq (a, s) (b, t) = nat_eq a b && text_eq s t

pub pair_eq_iff : (a b : ℕ × Text) → (pair_eq a b ≡ true) ↔ (a ≡ b)
pair_eq_iff (a, s) (b, t) = ground (arith, text_eq_iff s t)

-- Eight bytes of a number, then a string.
abbrev pub pair_before : ℕ × Text → ℕ × Text → Bool
pair_before (a, s) (b, t) = ltb a b || nat_eq a b && text_lt s t

instance abbrev pub pair_key : Key (ℕ × Text)
pair_key = record { beq = pair_eq; beq_iff = pair_eq_iff; before = pair_before }

abbrev pub KvStore {ℓ} : Type ℓ → Type ℓ → Type ℓ
KvStore K V = List (K × V)

module _ {ℓ} {K V : Type ℓ} ⦃o : Key K⦄ where
  unfoldable pub get : K → KvStore K V → Option V
  get k [] = none
  get k ((j, v) ∷ m) = if o.beq j k then some v else get k m

  unfoldable pub set : K → V → KvStore K V → KvStore K V
  set k v [] = (k, v) ∷ []
  set k v ((j, w) ∷ m) =
      if o.beq j k
      then (k, v) ∷ m
      else if o.before k j
      then (k, v) ∷ (j, w) ∷ m
      else (j, w) ∷ set k v m

  unfoldable pub delete : K → KvStore K V → KvStore K V
  delete k [] = []
  delete k ((j, w) ∷ m) = let rest = delete k m in if o.beq j k then rest else (j, w) ∷ rest

  pub get-set :
      (j k : K) (v : V) (m : KvStore K V)
      → get j (set k v m) ≡ (if o.beq k j then some v else get j m)
  unfolding get set
  get-set j k v [] = refl
  get-set j k v ((i, w) ∷ m) =
      ground (arith, get-set j k v m, o.beq_iff i k, o.beq_iff i j, o.beq_iff k j)

  pub get-delete :
      (j k : K) (m : KvStore K V) → get j (delete k m) ≡ (if o.beq k j then none else get j m)
  unfolding get delete
  get-delete j k [] = ground arith
  get-delete j k ((i, w) ∷ m) =
      ground (arith, get-delete j k m, o.beq_iff i k, o.beq_iff i j, o.beq_iff k j)

  -- The second of two writes to a key stands.
  pub set-set : (k : K) (v w : V) (m : KvStore K V) → set k v (set k w m) ≡ set k v m
  unfolding set
  set-set k v w [] = ground (arith, o.beq_iff k k)
  set-set k v w ((i, x) ∷ m) = ground (arith, set-set k v w m, o.beq_iff i k, o.beq_iff k k)

  pub get-set_self : (k : K) (v : V) (m : KvStore K V) → get k (set k v m) ≡ some v
  get-set_self k v m = ground (arith, get-set k k v m, o.beq_iff k k)

  pub get-set_ne : (j k : K) (v : V) (m : KvStore K V) → k ≢ j → get j (set k v m) ≡ get j m
  get-set_ne j k v m ne = ground (arith, get-set j k v m, o.beq_iff k j)

  -- A new key that is deleted again leaves no trace in what is found.
  pub get-delete-set :
      (j k : K) (v : V) (m : KvStore K V) → get k m ≡ none → get j (delete k (set k v m)) ≡ get j m
  get-delete-set j k v m fresh =
      ground (arith, get-delete j k (set k v m), get-set j k v m, o.beq_iff k j)

  -- What is found after a write was written, or was there before.
  pub get-set_cases :
      (j k : K) (v w : V) (m : KvStore K V)
      → get j (set k v m) ≡ some w
      → ((k ≡ j) × (w ≡ v)) ⊎ (get j m ≡ some w)
  get-set_cases j k v w m found = ground (arith, get-set j k v m, o.beq_iff k j)

-- What an iterator over the prefix yields.
unfoldable pub values {ℓ} : {K V : Type ℓ} → KvStore K V → List V
values m = map (λ e. e.1) m
