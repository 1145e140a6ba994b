-- ===== src/Base/Map.antt =====
-- `HashMap<K, V>` of the Rust library as an association list over a key test: what `get`,
-- `insert` and a write through `get_mut` do. The order of iteration is no part of it: code that
-- iterates takes that order as a parameter.
use acme_dns_rust.Base.{
  ◌≡◌, refl, ◌↔◌, Bool, true, Option, none, some, List, [], ◌∷◌, arith, if◌then◌else◌, String,
  str_eq, eq_iff,
}

pub record Key {ℓ} (K : Type ℓ) : Type ℓ where
  pub beq : K → K → Bool
  pub beq_iff : (a b : K) → (beq a b ≡ true) ↔ (a ≡ b)

instance abbrev pub string_key : Key String
string_key = record { beq = str_eq; beq_iff = eq_iff }

abbrev pub Map {ℓ} : Type ℓ → Type ℓ → Type ℓ
Map K V = List (K × V)

module _ {ℓ} {K V : Type ℓ} ⦃key : Key K⦄ where
  -- m.get(k)
  abbrev pub get : K → Map K V → Option V
  get k [] = none
  get k ((j, v) ∷ m) = if key.beq j k then some v else get k m

  -- m.insert(k, v)
  abbrev pub insert : K → V → Map K V → Map K V
  insert k v [] = (k, v) ∷ []
  insert k v ((j, w) ∷ m) = if key.beq j k then (k, v) ∷ m else (j, w) ∷ insert k v m

  pub get-insert :
      (k j : K) (v : V) (m : Map K V)
      → get j (insert k v m) ≡ (if key.beq k j then some v else get j m)
  get-insert k j v [] = refl
  get-insert k j v ((i, w) ∷ m) =
      ground (arith, key.beq_iff k j, key.beq_iff i k, key.beq_iff i j, get-insert k j v m)

  pub get-insert_self : (k : K) (v : V) (m : Map K V) → get k (insert k v m) ≡ some v
  get-insert_self k v m = ground (arith, get-insert k k v m, key.beq_iff k k)

module _ {ℓ} {K V : Type ℓ} where
  -- m.values(), in the order of the list
  abbrev pub values : Map K V → List V
  values [] = []
  values ((k, v) ∷ m) = v ∷ values m
