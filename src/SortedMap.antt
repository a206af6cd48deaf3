-- ===== src/SortedMap.antt =====
-- The standard library's `BTreeMap`, as the list of its entries by ascending keys.
pub mod Laws
use Prim.Native.Nat.{Ordering}
use bit.Prelude.{◌≡◌, Option, none, some, Bool, true, false, List, [], ◌∷◌, All}

-- The laws of a key's `Ord`.
pub record IsOrder {K : Type 0} (cmp : K → K → Ordering) : Type 0 where
  pub same : (k : K) → cmp k k ≡ Ordering.eq
  pub eq_inv : (j k : K) → cmp j k ≡ Ordering.eq → j ≡ k
  pub gt_inv : (j k : K) → cmp j k ≡ Ordering.gt → cmp k j ≡ Ordering.lt
  pub trans : (i j k : K) → cmp i j ≡ Ordering.lt → cmp j k ≡ Ordering.lt → cmp i k ≡ Ordering.lt

module _ {K V : Type 0} (cmp : K → K → Ordering) where
  unfoldable pub get : K → List (K × V) → Option V
  get k [] = none
  get k (e ∷ m) =
      let more = get k m in
      elim (cmp k e.0) [ Ordering.eq ↦ some e.1 | Ordering.lt ↦ more | Ordering.gt ↦ more ]

  -- A key that is there keeps its place and gets the new value.
  unfoldable pub insert : K → V → List (K × V) → List (K × V)
  insert k v [] = (k, v) ∷ []
  insert k v (e ∷ m) =
      let more = insert k v m in
      elim (cmp k e.0) [
        | Ordering.lt ↦ (k, v) ∷ (e ∷ m)
        | Ordering.eq ↦ (e.0, v) ∷ m
        | Ordering.gt ↦ e ∷ more
      ]

  unfoldable pub remove : K → List (K × V) → List (K × V)
  remove k [] = []
  remove k (e ∷ m) =
      let more = remove k m in
      elim (cmp k e.0) [ Ordering.lt ↦ e ∷ more | Ordering.eq ↦ m | Ordering.gt ↦ e ∷ more ]

  abbrev pub Above : K → List (K × V) → Type 0
  Above k = All (λ e. cmp k e.0 ≡ Ordering.lt)

  abbrev pub Sorted : List (K × V) → Type 0
  Sorted [] = Unit
  Sorted (e ∷ m) = Above e.0 m × Sorted m
