-- ===== src/Index/Facade/Keeps.antt =====
-- libbit/src/index.rs: each operation leaves the entries in their order.
use bit.Prelude.{◌≡◌, sym, ap, List, inr}
use bit.Result.{Result, ok, bind_inv, assert}
use bit.Path.{BitPath}
use bit.Repo.{Disk, with_flags, from_relative_path}
use bit.Index.{BitIndexEntry, MergeStage, none_stage, set_stage, base}
use bit.Index.Store.{key, remove_entry}
use bit.Index.Store.Changes.{IsIndex, remove_entry-IsIndex}
use bit.Index.Collisions.Laws.{remove_directory_lem}
use bit.Index.Facade.{
  BitIndex, is_known, add_conflicted_entry, write_and_add_blob, update_blob, add_entry_from_path,
  index_remove_entry, index_remove_directory, with_inner, with_repo,
}
use bit.Index.Facade.Common.{add_entry_common_lem, set_stage_inv, ok_inj}
use bit.Index.Facade.Laws.{add_entry-IsIndex}

abbrev pub Preserves : {W : Type 0} → (BitIndex W → Result (BitIndex W)) → Type 0
Preserves {W} f = (i n : BitIndex W) → IsIndex i.inner → f i ≡ ok n → IsIndex n.inner

module _ {W : Type 0} (components : BitPath → List BitPath) (disk : Disk W) where
  pub add_conflicted_entry-Preserves :
      (e : BitIndexEntry) (s : MergeStage) → Preserves (add_conflicted_entry components disk e s)
  unfolding add_conflicted_entry with_flags
  add_conflicted_entry-Preserves e s i n h r =
      let (done, e1, r1) = bind_inv (assert (is_known e.oid)) _ r in
      let (flags, e2, r2) = bind_inv (set_stage e.flags s) _ r1 in
      (add_entry_common_lem components disk (with_flags flags e) s
        (with_inner (remove_entry components (e.path, none_stage) i.inner) i) n
        (remove_entry-IsIndex components (e.path, none_stage) i.inner h)
        (set_stage_inv e.flags flags s e2) r2).0

  pub write_and_add_blob-Preserves :
      (e : BitIndexEntry) → Preserves (write_and_add_blob components disk e)
  unfolding write_and_add_blob
  write_and_add_blob-Preserves e i n h r =
      let (w, e1, r1) = bind_inv (disk.write_to_disk e i.repo) _ r in
      add_entry-IsIndex components disk e (with_repo w i) n h r1

  pub update_blob-Preserves : (e : BitIndexEntry) → Preserves (update_blob components disk e)
  unfolding update_blob
  update_blob-Preserves e i n h r =
      let (w, e1, r1) = bind_inv (disk.rm e.path i.repo) _ r in
      write_and_add_blob-Preserves e (with_repo w i) n h r1

  pub add_entry_from_path-Preserves :
      (p : BitPath) → Preserves (add_entry_from_path components disk p)
  unfolding add_entry_from_path
  add_entry_from_path-Preserves p i n h r =
      let (e, e1, r1) = bind_inv (from_relative_path disk p i.repo) _ r in
      add_entry-IsIndex components disk e i n h r1

  pub index_remove_entry-Preserves :
      (e : BitIndexEntry) → Preserves (index_remove_entry components disk e)
  unfolding index_remove_entry
  index_remove_entry-Preserves e i n h r =
      let (k, e1, r1) = bind_inv (key e) _ r in
      rw (ap (λ (x : BitIndex W). x.inner) (sym (ok_inj r1)))
        (remove_entry-IsIndex components k i.inner h)

  pub index_remove_directory-Preserves :
      (p : BitPath) → Preserves (index_remove_directory components disk p)
  unfolding index_remove_directory
  index_remove_directory-Preserves p i n h r =
      rw (ap (λ (x : BitIndex W). x.inner) (sym (ok_inj r)))
        (remove_directory_lem components p (p, base) i.inner h (inr (λ e. cc))).1
