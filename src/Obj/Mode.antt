-- ===== src/Obj/Mode.antt =====
-- The numbers of the modes, and the objects they stand for.
use bit.Prelude.{ℕ, ◌<◌, ◌^◌, ◌≡◌, refl, ◌↔◌, arith, true, false, Bool, if◌then◌else◌}
use bit.Result.{ok}
use bit.Obj.{
  FileMode, reg, exec, link, tree, gitlink, as_u32, file_mode, infer_obj_type, blob_type, tree_type,
  from_metadata,
}

pub as_u32_small : (mode : FileMode) → as_u32 mode < 2 ^ 32
unfolding as_u32
as_u32_small reg = omega arith
as_u32_small exec = omega arith
as_u32_small link = omega arith
as_u32_small tree = omega arith
as_u32_small gitlink = omega arith

pub file_mode-as_u32 : (mode : FileMode) → file_mode (as_u32 mode) ≡ ok mode
unfolding file_mode as_u32
file_mode-as_u32 reg = refl
file_mode-as_u32 exec = refl
file_mode-as_u32 link = refl
file_mode-as_u32 tree = refl
file_mode-as_u32 gitlink = refl

file_mode_inv : (u : ℕ) (mode : FileMode) → file_mode u ≡ ok mode → u ≡ as_u32 mode
unfolding file_mode as_u32
file_mode_inv u reg h = ground arith
file_mode_inv u exec h = ground arith
file_mode_inv u link h = ground arith
file_mode_inv u tree h = ground arith
file_mode_inv u gitlink h = ground arith

-- A number is taken for a mode exactly when it is that mode's number; for any other number the thread ends.
pub file_mode_iff : (u : ℕ) (mode : FileMode) → (file_mode u ≡ ok mode) ↔ (u ≡ as_u32 mode)
file_mode_iff u mode = (file_mode_inv u mode, λ e. rw e (file_mode-as_u32 mode))

-- What is read from the file system is an object, and a tree exactly when it is a directory that is
-- no symbolic link.
pub infer_obj_type-from_metadata :
    (is_symlink is_dir : Bool) (permissions : ℕ)
    → infer_obj_type (from_metadata is_symlink is_dir permissions)
      ≡ ok (if is_symlink then blob_type else if is_dir then tree_type else blob_type)
unfolding infer_obj_type from_metadata
infer_obj_type-from_metadata true d p = refl
infer_obj_type-from_metadata false true p = refl
infer_obj_type-from_metadata false false p = ground arith
