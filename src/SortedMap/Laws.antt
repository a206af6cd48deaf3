-- ===== src/SortedMap/Laws.antt =====
-- The operations of the sorted map, for any key with the laws of an order.
use Prim.Native.Nat.{Ordering}
use bit.Prelude.{◌≡◌, ◌≢◌, refl, sym, ap, ◌∙◌, ◌⊎◌, inl, inr, none, some, List, [], ◌∷◌}
use bit.SortedMap.{IsOrder, get, insert, remove, Above, Sorted}

pub Ordering-cases : (o : Ordering) → (o ≡ Ordering.lt) ⊎ ((o ≡ Ordering.eq) ⊎ (o ≡ Ordering.gt))
Ordering-cases Ordering.lt = inl refl
Ordering-cases Ordering.eq = inr (inl refl)
Ordering-cases Ordering.gt = inr (inr refl)

module _ {K V : Type 0} (cmp : K → K → Ordering) (laws : IsOrder cmp) where
  get_eq :
      (k : K) (e : K × V) (m : List (K × V))
      → cmp k e.0 ≡ Ordering.eq
      → get cmp k (e ∷ m) ≡ some e.1
  unfolding get
  get_eq k e m h = rw (h, get) refl

  get_lt :
      (k : K) (e : K × V) (m : List (K × V))
      → cmp k e.0 ≡ Ordering.lt
      → get cmp k (e ∷ m) ≡ get cmp k m
  unfolding get
  get_lt k e m h = rw (h, get) refl

  get_gt :
      (k : K) (e : K × V) (m : List (K × V))
      → cmp k e.0 ≡ Ordering.gt
      → get cmp k (e ∷ m) ≡ get cmp k m
  unfolding get
  get_gt k e m h = rw (h, get) refl

  insert_eq :
      (k : K) (v : V) (e : K × V) (m : List (K × V))
      → cmp k e.0 ≡ Ordering.eq
      → insert cmp k v (e ∷ m) ≡ (e.0, v) ∷ m
  unfolding insert
  insert_eq k v e m h = rw (h, insert) refl

  insert_lt :
      (k : K) (v : V) (e : K × V) (m : List (K × V))
      → cmp k e.0 ≡ Ordering.lt
      → insert cmp k v (e ∷ m) ≡ (k, v) ∷ (e ∷ m)
  unfolding insert
  insert_lt k v e m h = rw (h, insert) refl

  insert_gt :
      (k : K) (v : V) (e : K × V) (m : List (K × V))
      → cmp k e.0 ≡ Ordering.gt
      → insert cmp k v (e ∷ m) ≡ e ∷ insert cmp k v m
  unfolding insert
  insert_gt k v e m h = rw (h, insert) refl

  remove_eq :
      (k : K) (e : K × V) (m : List (K × V)) → cmp k e.0 ≡ Ordering.eq → remove cmp k (e ∷ m) ≡ m
  unfolding remove
  remove_eq k e m h = rw (h, remove) refl

  remove_lt :
      (k : K) (e : K × V) (m : List (K × V))
      → cmp k e.0 ≡ Ordering.lt
      → remove cmp k (e ∷ m) ≡ e ∷ remove cmp k m
  unfolding remove
  remove_lt k e m h = rw (h, remove) refl

  remove_gt :
      (k : K) (e : K × V) (m : List (K × V))
      → cmp k e.0 ≡ Ordering.gt
      → remove cmp k (e ∷ m) ≡ e ∷ remove cmp k m
  unfolding remove
  remove_gt k e m h = rw (h, remove) refl

  skip :
      (k : K) (e : K × V) (m : List (K × V))
      → cmp k e.0 ≢ Ordering.eq
      → get cmp k (e ∷ m) ≡ get cmp k m
  skip k e m h = elim (Ordering-cases (cmp k e.0)) [
    | inl o ↦ get_lt k e m o
    | inr (inl o) ↦ absurd (h o)
    | inr (inr o) ↦ get_gt k e m o
  ]

  pub get-insert_same : (k : K) (v : V) (m : List (K × V)) → get cmp k (insert cmp k v m) ≡ some v
  unfolding insert
  get-insert_same k v [] = get_eq k (k, v) [] (laws.same k)
  get-insert_same k v (e ∷ m) = elim (Ordering-cases (cmp k e.0)) [
    | inl o ↦ rw (insert_lt k v e m o) (get_eq k (k, v) (e ∷ m) (laws.same k))
    | inr (inl o) ↦ rw (insert_eq k v e m o) (get_eq k (e.0, v) m o)
    | inr (inr o) ↦ rw (insert_gt k v e m o) (skip k e _ (λ q. cc) ∙ get-insert_same k v m)
  ]

  both :
      (j : K) (e : K × V) (m n : List (K × V))
      → get cmp j m ≡ get cmp j n
      → get cmp j (e ∷ m) ≡ get cmp j (e ∷ n)
  unfolding get
  both j e m n h =
      ap (λ t. elim (cmp j e.0) [ Ordering.eq ↦ some e.1 | Ordering.lt ↦ t | Ordering.gt ↦ t ]) h

  pub get-insert_other :
      (j k : K) (v : V) (m : List (K × V)) → j ≢ k → get cmp j (insert cmp k v m) ≡ get cmp j m
  unfolding insert
  get-insert_other j k v [] h = skip j (k, v) [] (λ q. h (laws.eq_inv j k q))
  get-insert_other j k v (e ∷ m) h = elim (Ordering-cases (cmp k e.0)) [
    | inl o ↦ rw (insert_lt k v e m o) (skip j (k, v) (e ∷ m) (λ q. h (laws.eq_inv j k q)))
    | inr (inl o) ↦ rw (insert_eq k v e m o) (
        skip j (e.0, v) m (λ q. h (laws.eq_inv j e.0 q ∙ sym (laws.eq_inv k e.0 o)))
        ∙ sym (skip j e m (λ q. h (laws.eq_inv j e.0 q ∙ sym (laws.eq_inv k e.0 o)))))
    | inr (inr o) ↦ rw (insert_gt k v e m o) (both j e _ m (get-insert_other j k v m h))
  ]

  pub get-remove_other :
      (j k : K) (m : List (K × V)) → j ≢ k → get cmp j (remove cmp k m) ≡ get cmp j m
  unfolding remove
  get-remove_other j k [] h = refl
  get-remove_other j k (e ∷ m) h = elim (Ordering-cases (cmp k e.0)) [
    | inl o ↦ rw (remove_lt k e m o) (both j e _ m (get-remove_other j k m h))
    | inr (inl o) ↦
        rw (remove_eq k e m o)
          (sym (skip j e m (λ q. h (laws.eq_inv j e.0 q ∙ sym (laws.eq_inv k e.0 o)))))
    | inr (inr o) ↦ rw (remove_gt k e m o) (both j e _ m (get-remove_other j k m h))
  ]

  absent : (k : K) (m : List (K × V)) → Above cmp k m → get cmp k m ≡ none
  unfolding get
  absent k [] h = refl
  absent k (e ∷ m) h = skip k e m (λ q. cc) ∙ absent k m h.1

  pub get-remove_same :
      (k : K) (m : List (K × V)) → Sorted cmp m → get cmp k (remove cmp k m) ≡ none
  unfolding remove
  get-remove_same k [] h = unfold get in refl
  get-remove_same k (e ∷ m) h = elim (Ordering-cases (cmp k e.0)) [
    | inl o ↦ rw (remove_lt k e m o) (skip k e _ (λ q. cc) ∙ get-remove_same k m h.1)
    | inr (inl o) ↦ rw (remove_eq k e m o) (absent k m (rw (sym (laws.eq_inv k e.0 o)) at h.0))
    | inr (inr o) ↦ rw (remove_gt k e m o) (skip k e _ (λ q. cc) ∙ get-remove_same k m h.1)
  ]

  Above-trans : (j k : K) (m : List (K × V)) → cmp j k ≡ Ordering.lt → Above cmp k m → Above cmp j m
  Above-trans j k [] h a = tt
  Above-trans j k (e ∷ m) h a = (laws.trans j k e.0 h a.0, Above-trans j k m h a.1)

  Above-insert :
      (j k : K) (v : V) (m : List (K × V))
      → cmp j k ≡ Ordering.lt
      → Above cmp j m
      → Above cmp j (insert cmp k v m)
  unfolding insert
  Above-insert j k v [] h a = (h, tt)
  Above-insert j k v (e ∷ m) h a = elim (Ordering-cases (cmp k e.0)) [
    | inl o ↦ rw (insert_lt k v e m o) (h, a)
    | inr (inl o) ↦ rw (insert_eq k v e m o) a
    | inr (inr o) ↦ rw (insert_gt k v e m o) (a.0, Above-insert j k v m h a.1)
  ]

  pub Sorted-insert :
      (k : K) (v : V) (m : List (K × V)) → Sorted cmp m → Sorted cmp (insert cmp k v m)
  unfolding insert
  Sorted-insert k v [] h = (tt, tt)
  Sorted-insert k v (e ∷ m) h = elim (Ordering-cases (cmp k e.0)) [
    | inl o ↦ rw (insert_lt k v e m o) ((o, Above-trans k e.0 m o h.0), h)
    | inr (inl o) ↦ rw (insert_eq k v e m o) h
    | inr (inr o) ↦
        rw (insert_gt k v e m o)
          (Above-insert e.0 k v m (laws.gt_inv k e.0 o) h.0, Sorted-insert k v m h.1)
  ]

  Above-remove : (j k : K) (m : List (K × V)) → Above cmp j m → Above cmp j (remove cmp k m)
  unfolding remove
  Above-remove j k [] a = tt
  Above-remove j k (e ∷ m) a = elim (Ordering-cases (cmp k e.0)) [
    | inl o ↦ rw (remove_lt k e m o) (a.0, Above-remove j k m a.1)
    | inr (inl o) ↦ rw (remove_eq k e m o) a.1
    | inr (inr o) ↦ rw (remove_gt k e m o) (a.0, Above-remove j k m a.1)
  ]

  pub Sorted-remove : (k : K) (m : List (K × V)) → Sorted cmp m → Sorted cmp (remove cmp k m)
  unfolding remove
  Sorted-remove k [] h = tt
  Sorted-remove k (e ∷ m) h = elim (Ordering-cases (cmp k e.0)) [
    | inl o ↦ rw (remove_lt k e m o) (Above-remove e.0 k m h.0, Sorted-remove k m h.1)
    | inr (inl o) ↦ rw (remove_eq k e m o) h.1
    | inr (inr o) ↦ rw (remove_gt k e m o) (Above-remove e.0 k m h.0, Sorted-remove k m h.1)
  ]
