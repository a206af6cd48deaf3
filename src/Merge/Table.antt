-- ===== src/Merge/Table.antt =====
-- libbit/src/merge.rs: the cases that the match of `merge_entry` has.
use Prim.Native.Nat.{Ordering}
use bit.Prelude.{◌≡◌, ◌≢◌, refl, sym, ap, ◌∙◌, Bool, true, false, Option, none, some, if◌then◌else◌}
use bit.Result.{Result, ok}
use bit.Path.{BitPath, path_cmp}
use bit.Obj.{FileMode, reg, exec, link, tree, gitlink, same_bytes}
use bit.Index.{BitIndexEntry}
use bit.Index.Store.Laws.{path_refl}
use bit.Index.Facade.{is_known}
use bit.Diff.{diff_cmp}
use bit.Merge.{
  MergeDiffEntry, deleted_blob, created_blob, modified_blob, modified_tree, unmodified_blob,
  unmodified_tree, deleted_tree, created_tree, blob_to_tree, tree_to_blob, base_only, other_only,
  diff_modes, diff_both, diff_base_to_other, Arm, merge_arm, ours_only_arm, theirs_only_arm, arm_of,
  plan, nothing,
}

data Created : MergeDiffEntry → Type 0 where
  is_created_blob : (e : BitIndexEntry) → Created (created_blob e)
  is_created_tree : (e : BitIndexEntry) → Created (created_tree e)

data OfBlob : MergeDiffEntry → Type 0 where
  is_deleted_blob : (e : BitIndexEntry) → OfBlob (deleted_blob e)
  is_modified_blob : (e : BitIndexEntry) → OfBlob (modified_blob e)
  is_unmodified_blob : (e : BitIndexEntry) → OfBlob (unmodified_blob e)
  is_blob_to_tree : (e : BitIndexEntry) → OfBlob (blob_to_tree e)

data OfTree : MergeDiffEntry → Type 0 where
  is_deleted_tree : (e : BitIndexEntry) → OfTree (deleted_tree e)
  is_modified_tree : (e : BitIndexEntry) → OfTree (modified_tree e)
  is_unmodified_tree : (e : BitIndexEntry) → OfTree (unmodified_tree e)
  is_tree_to_blob : (e : BitIndexEntry) → OfTree (tree_to_blob e)

abbrev Has : (MergeDiffEntry → Type 0) → Result MergeDiffEntry → Type 0
Has P r = (d : MergeDiffEntry) × (r ≡ ok d) × P d

-- Neither a submodule nor an entry whose oid is unknown.
abbrev pub Plain : BitPath → Option BitIndexEntry → Type 0
Plain p none = Unit
Plain p (some e) = (e.path ≡ p) × (e.mode ≢ gitlink) × (is_known e.oid ≡ true)

blob_arms : (d c : MergeDiffEntry) → OfBlob d → OfBlob c → (a : Arm) × (merge_arm d c ≡ ok a)
unfolding merge_arm
blob_arms _ _ (is_deleted_blob o) (is_deleted_blob t) = (_, refl)
blob_arms _ _ (is_deleted_blob o) (is_modified_blob t) = (_, refl)
blob_arms _ _ (is_deleted_blob o) (is_unmodified_blob t) = (_, refl)
blob_arms _ _ (is_deleted_blob o) (is_blob_to_tree t) = (_, refl)
blob_arms _ _ (is_modified_blob o) (is_deleted_blob t) = (_, refl)
blob_arms _ _ (is_modified_blob o) (is_modified_blob t) = (_, refl)
blob_arms _ _ (is_modified_blob o) (is_unmodified_blob t) = (_, refl)
blob_arms _ _ (is_modified_blob o) (is_blob_to_tree t) = (_, refl)
blob_arms _ _ (is_unmodified_blob o) (is_deleted_blob t) = (_, refl)
blob_arms _ _ (is_unmodified_blob o) (is_modified_blob t) = (_, refl)
blob_arms _ _ (is_unmodified_blob o) (is_unmodified_blob t) = (_, refl)
blob_arms _ _ (is_unmodified_blob o) (is_blob_to_tree t) = (_, refl)
blob_arms _ _ (is_blob_to_tree o) (is_deleted_blob t) = (_, refl)
blob_arms _ _ (is_blob_to_tree o) (is_modified_blob t) = (_, refl)
blob_arms _ _ (is_blob_to_tree o) (is_unmodified_blob t) = (_, refl)
blob_arms _ _ (is_blob_to_tree o) (is_blob_to_tree t) = (_, refl)

tree_arms : (d c : MergeDiffEntry) → OfTree d → OfTree c → (a : Arm) × (merge_arm d c ≡ ok a)
unfolding merge_arm
tree_arms _ _ (is_deleted_tree o) (is_deleted_tree t) = (_, refl)
tree_arms _ _ (is_deleted_tree o) (is_modified_tree t) = (_, refl)
tree_arms _ _ (is_deleted_tree o) (is_unmodified_tree t) = (_, refl)
tree_arms _ _ (is_deleted_tree o) (is_tree_to_blob t) = (_, refl)
tree_arms _ _ (is_modified_tree o) (is_deleted_tree t) = (_, refl)
tree_arms _ _ (is_modified_tree o) (is_modified_tree t) = (_, refl)
tree_arms _ _ (is_modified_tree o) (is_unmodified_tree t) = (_, refl)
tree_arms _ _ (is_modified_tree o) (is_tree_to_blob t) = (_, refl)
tree_arms _ _ (is_unmodified_tree o) (is_deleted_tree t) = (_, refl)
tree_arms _ _ (is_unmodified_tree o) (is_modified_tree t) = (_, refl)
tree_arms _ _ (is_unmodified_tree o) (is_unmodified_tree t) = (_, refl)
tree_arms _ _ (is_unmodified_tree o) (is_tree_to_blob t) = (_, refl)
tree_arms _ _ (is_tree_to_blob o) (is_deleted_tree t) = (_, refl)
tree_arms _ _ (is_tree_to_blob o) (is_modified_tree t) = (_, refl)
tree_arms _ _ (is_tree_to_blob o) (is_unmodified_tree t) = (_, refl)
tree_arms _ _ (is_tree_to_blob o) (is_tree_to_blob t) = (_, refl)

Created-arms : (d c : MergeDiffEntry) → Created d → Created c → (a : Arm) × (merge_arm d c ≡ ok a)
unfolding merge_arm
Created-arms _ _ (is_created_blob o) (is_created_blob t) = (_, refl)
Created-arms _ _ (is_created_blob o) (is_created_tree t) = (_, refl)
Created-arms _ _ (is_created_tree o) (is_created_blob t) = (_, refl)
Created-arms _ _ (is_created_tree o) (is_created_tree t) = (_, refl)

abbrev Family : FileMode → MergeDiffEntry → Type 0
Family tree = OfTree
Family _ = OfBlob

blob_same :
    (same : Bool) (e : BitIndexEntry)
    → Has OfBlob (ok (if same then unmodified_blob e else modified_blob e))
blob_same true e = (_, refl, is_unmodified_blob e)
blob_same false e = (_, refl, is_modified_blob e)

tree_same :
    (same : Bool) (e : BitIndexEntry)
    → Has OfTree (ok (if same then unmodified_tree e else modified_tree e))
tree_same true e = (_, refl, is_unmodified_tree e)
tree_same false e = (_, refl, is_modified_tree e)

both_modes :
    (m n : FileMode) (same : Bool) (e : BitIndexEntry)
    → m ≢ gitlink
    → n ≢ gitlink
    → Has (Family m) (diff_modes m n same e)
unfolding diff_modes
both_modes gitlink n same e h k = absurd (h refl)
both_modes reg reg same e h k = blob_same same e
both_modes reg exec same e h k = blob_same same e
both_modes reg link same e h k = blob_same same e
both_modes reg tree same e h k = (_, refl, is_blob_to_tree e)
both_modes reg gitlink same e h k = absurd (k refl)
both_modes exec reg same e h k = blob_same same e
both_modes exec exec same e h k = blob_same same e
both_modes exec link same e h k = blob_same same e
both_modes exec tree same e h k = (_, refl, is_blob_to_tree e)
both_modes exec gitlink same e h k = absurd (k refl)
both_modes link reg same e h k = blob_same same e
both_modes link exec same e h k = blob_same same e
both_modes link link same e h k = blob_same same e
both_modes link tree same e h k = (_, refl, is_blob_to_tree e)
both_modes link gitlink same e h k = absurd (k refl)
both_modes tree reg same e h k = (_, refl, is_tree_to_blob e)
both_modes tree exec same e h k = (_, refl, is_tree_to_blob e)
both_modes tree link same e h k = (_, refl, is_tree_to_blob e)
both_modes tree tree same e h k = tree_same same e
both_modes tree gitlink same e h k = absurd (k refl)

base-Family :
    (m : FileMode) (e : BitIndexEntry) → e.mode ≡ m → m ≢ gitlink → Has (Family m) (base_only e)
unfolding base_only
base-Family gitlink e q h = absurd (h refl)
base-Family reg e q h = (_, rw q refl, is_deleted_blob e)
base-Family exec e q h = (_, rw q refl, is_deleted_blob e)
base-Family link e q h = (_, rw q refl, is_deleted_blob e)
base-Family tree e q h = (_, rw q refl, is_deleted_tree e)

other_family :
    (m : FileMode) (e : BitIndexEntry) → e.mode ≡ m → m ≢ gitlink → Has Created (other_only e)
unfolding other_only
other_family gitlink e q h = absurd (h refl)
other_family reg e q h = (_, rw q refl, is_created_blob e)
other_family exec e q h = (_, rw q refl, is_created_blob e)
other_family link e q h = (_, rw q refl, is_created_blob e)
other_family tree e q h = (_, rw q refl, is_created_tree e)

both-Family :
    (p : BitPath) (b e : BitIndexEntry)
    → Plain p (some b)
    → Plain p (some e)
    → Has (Family b.mode) (diff_both b e)
unfolding diff_both diff_cmp
both-Family p b e (bp, bm, bk) (ep, em, ek) =
    let c : path_cmp b.path e.path ≡ Ordering.eq =
      ap (λ (q : BitPath). path_cmp b.path q) (ep ∙ sym bp) ∙ path_refl b.path in
    rw (c, diff_both, bk, ek) (both_modes b.mode e.mode (same_bytes b.oid e.oid) e bm em)

-- One side of a path that the base has, as a change of the kind that the base's mode gives.
of_base :
    (p : BitPath) (b : BitIndexEntry) (o : Option BitIndexEntry)
    → Plain p (some b)
    → Plain p o
    → (d : MergeDiffEntry) × (diff_base_to_other (some b) o ≡ ok (some d)) × Family b.mode d
unfolding diff_base_to_other
of_base p b none hb ho = let (d, e, f) = base-Family b.mode b refl hb.1 in (d, rw e refl, f)
of_base p b (some o) hb ho = let (d, e, f) = both-Family p b o hb ho in (d, rw e refl, f)

Family-arms :
    (m : FileMode) (d c : MergeDiffEntry)
    → Family m d
    → Family m c
    → (a : Arm) × (merge_arm d c ≡ ok a)
Family-arms tree d c h k = tree_arms d c h k
Family-arms reg d c h k = blob_arms d c h k
Family-arms exec d c h k = blob_arms d c h k
Family-arms link d c h k = blob_arms d c h k
Family-arms gitlink d c h k = blob_arms d c h k

ours-Created : (d : MergeDiffEntry) → Created d → (a : Arm) × (ours_only_arm d ≡ ok a)
unfolding ours_only_arm
ours-Created _ (is_created_blob e) = (_, refl)
ours-Created _ (is_created_tree e) = (_, refl)

theirs-Created : (d : MergeDiffEntry) → Created d → (a : Arm) × (theirs_only_arm d ≡ ok a)
unfolding theirs_only_arm
theirs-Created _ (is_created_blob e) = (_, refl)
theirs-Created _ (is_created_tree e) = (_, refl)

-- For entries of one path, none of them a submodule and each with a known oid, the match of the merge has
-- an arm: no combination of them is one that the source calls impossible.
pub plan_total :
    (p : BitPath) (b o t : Option BitIndexEntry)
    → Plain p b
    → Plain p o
    → Plain p t
    → (a : Arm) × (plan b o t ≡ ok a)
unfolding plan arm_of diff_base_to_other
plan_total p none none none hb ho ht = (nothing, refl)
plan_total p none none (some t) hb ho ht =
    let (d, e, f) = other_family t.mode t refl ht.1 in
    let (a, g) = theirs-Created d f in (a, rw e g)
plan_total p none (some o) none hb ho ht =
    let (d, e, f) = other_family o.mode o refl ho.1 in let (a, g) = ours-Created d f in (a, rw e g)
plan_total p none (some o) (some t) hb ho ht =
    let (d, e, f) = other_family o.mode o refl ho.1 in
    let (c, k, l) = other_family t.mode t refl ht.1 in
    let (a, g) = Created-arms d c f l in (a, rw e (rw k g))
plan_total p (some b) o t hb ho ht =
    let (d, e, f) = of_base p b o hb ho in
    let (c, k, l) = of_base p b t hb ht in
    let (a, g) = Family-arms b.mode d c f l in (a, rw e (rw k g))
