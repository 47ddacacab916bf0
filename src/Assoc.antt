-- ===== src/Assoc.antt =====
-- Sorted association lists: what the skip list stands for.
use tiny_db.Prelude.{
  ◌≡◌, refl, true, false, Option, none, some, List, [], ◌∷◌, if◌then◌else◌, arith, All,
}
use tiny_db.Order.{KeyOrder, less-ne, less-ne_flip}

module _ {ℓ} {K V : Type ℓ} (o : KeyOrder K) where
  open o use {same, less}

  -- The value of the first entry whose key is equal to `k`.
  abbrev pub lookup : K → List (K × V) → Option V
  lookup k [] = none
  lookup k ((j, v) ∷ m) = if same j k then some v else lookup k m

  -- The entry goes in front of the first one whose key is not smaller.
  abbrev pub insert : K → V → List (K × V) → List (K × V)
  insert k v [] = (k, v) ∷ []
  insert k v ((j, w) ∷ m) = if less j k then (j, w) ∷ insert k v m else (k, v) ∷ (j, w) ∷ m

  abbrev pub remove : K → List (K × V) → List (K × V)
  remove k [] = []
  remove k ((j, w) ∷ m) = if same j k then m else (j, w) ∷ remove k m

  -- Strictly ascending keys.
  abbrev pub IsAscending : List (K × V) → Type ℓ
  IsAscending [] = Unit
  IsAscending ((j, v) ∷ m) = All (λ e. less j e.0 ≡ true) m × IsAscending m

  pub lookup-insert :
      (k q : K) (v : V) (m : List (K × V))
      → lookup k m ≡ none
      → lookup q (insert k v m) ≡ (if same k q then some v else lookup q m)
  lookup-insert k q v [] h = refl
  lookup-insert k q v ((j, w) ∷ m) h =
      ground (
        arith,
        lookup-insert k q v m,
        o.same_iff j q,
        o.same_iff k q,
        o.same_iff j k,
        less-ne o j k,
      )

  lookup_above : (k : K) (m : List (K × V)) → All (λ e. less k e.0 ≡ true) m → lookup k m ≡ none
  lookup_above k [] h = refl
  lookup_above k ((j, w) ∷ m) h = ground (arith, lookup_above k m, less-ne_flip o k j)

  pub lookup-remove :
      (k q : K) (m : List (K × V))
      → IsAscending m
      → lookup q (remove k m) ≡ (if same k q then none else lookup q m)
  lookup-remove k q [] h = ground arith
  lookup-remove k q ((j, w) ∷ m) h =
      ground (
        arith,
        lookup-remove k q m,
        o.same_iff j q,
        o.same_iff k q,
        o.same_iff j k,
        lookup_above j m,
      )

  pub remove-absent : (k : K) (m : List (K × V)) → lookup k m ≡ none → remove k m ≡ m
  remove-absent k [] h = refl
  remove-absent k ((j, w) ∷ m) h = ground (arith, remove-absent k m)

  pub lookup-remove_other :
      (k q : K) (m : List (K × V)) → same k q ≡ false → lookup q (remove k m) ≡ lookup q m
  lookup-remove_other k q [] h = refl
  lookup-remove_other k q ((j, w) ∷ m) h =
      ground (arith, lookup-remove_other k q m, o.same_iff j q, o.same_iff k q, o.same_iff j k)
