-- ===== src/Index/Conflicts/Laws.antt =====
-- libbit/src/index/index_inner.rs: `conflicts` and `has_conflicts` on the same entries.
use bit.Prelude.{◌≡◌, refl, ap, ◌∙◌, All, true, false, List, [], ◌∷◌, Bool-cases, inl, inr}
use bit.Result.{ok, bind_inv}
use bit.Index.{is_unmerged, BitIndexEntry, stage}
use bit.Index.Store.{Key, key, BitIndexInner, any_unmerged, has_conflicts}
use bit.Index.Conflicts.{collect_stages, new_conflicts, conflicts}

-- Every entry stands under its own key.
abbrev pub IsKeyed : List (Key × BitIndexEntry) → Type 0
IsKeyed = All (λ e. key e.1 ≡ ok e.0)

key-stage : (e : Key × BitIndexEntry) → key e.1 ≡ ok e.0 → stage e.1.flags ≡ ok e.0.1
unfolding key
key-stage e h =
    let (s, hs, hk) = bind_inv (stage e.1.flags) _ h in
    hs ∙ ap ok (ap (λ (k : Key). k.1) (ok_inj hk))
  where
    ok_inj : {A : Type 0} {a b : A} → ok a ≡ ok b → a ≡ b
    ok_inj {a = a} {b = b} q = cc

any_unmerged_inv :
    (e : Key × BitIndexEntry) (m : List (Key × BitIndexEntry))
    → any_unmerged (e ∷ m) ≡ false
    → (is_unmerged e.0.1 ≡ false) × (any_unmerged m ≡ false)
unfolding any_unmerged
any_unmerged_inv e m h = elim (Bool-cases (is_unmerged e.0.1)) [
  | inl t ↦ absurd (true-ne-false (rw t at h))
  | inr f ↦ (f, rw f at h)
]
  where
    true-ne-false : true ≡ false → ⊥
    true-ne-false q = cc

nothing_collected :
    (m : List (Key × BitIndexEntry))
    → IsKeyed m
    → any_unmerged m ≡ false
    → collect_stages m [] ≡ ok []
unfolding collect_stages
nothing_collected [] hk h = refl
nothing_collected (e ∷ m) hk h =
    let (first, others) = any_unmerged_inv e m h in
    rw (key-stage e hk.0, first) (nothing_collected m hk.1 others)

-- An index whose entries stand under their own keys and that has no conflicts lists none.
pub conflicts-has_conflicts :
    (index : BitIndexInner)
    → IsKeyed index.entries
    → has_conflicts index ≡ false
    → conflicts index ≡ ok []
unfolding conflicts has_conflicts new_conflicts
conflicts-has_conflicts index hk h = rw (nothing_collected index.entries hk h) refl
