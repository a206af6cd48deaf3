-- ===== src/Obj/Tree/Entries.antt =====
-- libbit/src/obj/tree.rs: the parser of entries on the bytes of a tree.
use bit.Prelude.{
  true, some, ◌∙◌, take_append, drop_append, ℕ, zero, suc, ◌^◌, ◌<◌, ◌≤◌, ◌≡◌, ◌≢◌, refl, ap, arith,
  List, [], ◌∷◌, ◌++◌, length, All, append_assoc, length-append,
}
use bit.Result.{ok}
use bit.Io.{lift, read_exact}
use bit.Io.Numbers.{bind_ok, read_exact_append}
use bit.Io.Text.{read_until, but_last, from_str_radix, unwrap, print_digits}
use bit.Io.Text.Digits.{from_str_radix-print_digits}
use bit.Io.Text.Fields.{read_until_field, but_last_append, lift_ok}
use bit.Obj.{FileMode, reg, exec, link, tree, gitlink, as_u32, file_mode}
use bit.Obj.Mode.{file_mode-as_u32, as_u32_small}
use bit.Path.{BitPath}
use bit.Obj.Utf8.{is_utf8}
use bit.Obj.Tree.{
  TreeEntry, deserialize, mode_digits, serialize, serialize_entries, entries_loop, read_entries,
}

mode_digits-no_space : (mode : FileMode) → All (λ b. b ≢ 0x20) (mode_digits mode)
unfolding mode_digits as_u32 print_digits
mode_digits-no_space reg = ground arith
mode_digits-no_space exec = ground arith
mode_digits-no_space link = ground arith
mode_digits-no_space tree = ground arith
mode_digits-no_space gitlink = ground arith

mode_digits_parse :
    (mode : FileMode) → from_str_radix 8 (2 ^ 32) (mode_digits mode) ≡ some (as_u32 mode)
unfolding mode_digits
mode_digits_parse mode =
    from_str_radix-print_digits 8 (2 ^ 32) (as_u32 mode) (as_u32 mode) (omega arith) (omega arith)
      (as_u32_small mode) (omega arith)

-- An entry whose path is UTF-8 with no null byte and whose oid has its 20 bytes.
abbrev pub IsEntry : TreeEntry → Type 0
IsEntry e = All (λ b. b ≢ 0) e.path × (is_utf8 e.path ≡ true) × (length e.oid ≡ 20)

-- What is printed of a path that is UTF-8 is its own bytes.
module _ (display : BitPath → List ℕ)
    (display_utf8 : (p : BitPath) → is_utf8 p ≡ true → display p ≡ p) where
  serialize_split :
      (e : TreeEntry) (rest : List ℕ)
      → is_utf8 e.path ≡ true
      → serialize display e ++ rest
        ≡ mode_digits e.mode ++ (0x20 ∷ (e.path ++ (0x00 ∷ (e.oid ++ rest))))
  unfolding serialize
  serialize_split e rest u =
      rw (display_utf8 e.path u, serialize)
        (append_assoc (mode_digits e.mode) _ rest
          ∙ ap (λ t. mode_digits e.mode ++ (0x20 ∷ t)) (append_assoc e.path (0x00 ∷ e.oid) rest))

  -- An entry is read back, and what stands behind it is left.
  pub deserialize-serialize_tree_entry :
      (e : TreeEntry) (rest : List ℕ)
      → IsEntry e
      → deserialize (serialize display e ++ rest) ≡ ok (e, rest)
  unfolding deserialize
  deserialize-serialize_tree_entry e rest (name, u, size) = rw (serialize_split e rest u) (
      bind_ok (read_until 0x20) _
        (read_until_field 0x20 (mode_digits e.mode) _ (mode_digits-no_space e.mode))
        (bind_ok (lift (but_last (mode_digits e.mode ++ (0x20 ∷ [])))) _
          (lift_ok _ (but_last_append (mode_digits e.mode) 0x20))
          (bind_ok (lift (unwrap (from_str_radix 8 (2 ^ 32) (mode_digits e.mode)))) _
            (lift_ok _ (ap unwrap (mode_digits_parse e.mode)))
            (bind_ok (lift (file_mode (as_u32 e.mode))) _ (lift_ok _ (file_mode-as_u32 e.mode)) (
              bind_ok (read_until 0x00) _ (read_until_field 0x00 e.path _ name) (
                bind_ok (lift (but_last (e.path ++ (0x00 ∷ [])))) _
                  (lift_ok _ (but_last_append e.path 0x00))
                  (bind_ok (read_exact 20) _ (rw size at (read_exact_append e.oid rest)) refl)))))))

  serialize_pos : (e : TreeEntry) → 0 < length (serialize display e)
  unfolding serialize
  serialize_pos e =
      omega (arith, length-append (mode_digits e.mode) (0x20 ∷ (display e.path ++ (0x00 ∷ e.oid))))

  entries_step :
      (fuel : ℕ) (s : List ℕ) {e : TreeEntry} {s' : List ℕ} {es : List TreeEntry}
      → 0 < length s
      → deserialize s ≡ ok (e, s')
      → entries_loop fuel s' ≡ ok (es, [])
      → entries_loop (suc fuel) s ≡ ok (e ∷ es, [])
  unfolding entries_loop
  entries_step fuel [] pos h k = absurd (omega arith)
  entries_step fuel (b ∷ s) pos h k = bind_ok deserialize _ h (bind_ok (entries_loop fuel) _ k refl)

  entries_loop-serialize_entries :
      (fuel : ℕ) (es : List TreeEntry)
      → All IsEntry es
      → length (serialize_entries display es) ≤ fuel
      → entries_loop fuel (serialize_entries display es) ≡ ok (es, [])
  unfolding serialize_entries
  entries_loop-serialize_entries fuel [] hs h = unfold entries_loop in refl
  entries_loop-serialize_entries zero (e ∷ es) hs h = absurd (
      omega (
        arith,
        serialize_pos e,
        length-append (serialize display e) (serialize_entries display es),
      ))
  entries_loop-serialize_entries (suc fuel) (e ∷ es) (he, hs) h =
      entries_step fuel (serialize display e ++ serialize_entries display es)
        (omega (
          arith,
          serialize_pos e,
          length-append (serialize display e) (serialize_entries display es),
        ))
        (deserialize-serialize_tree_entry e _ he)
        (entries_loop-serialize_entries fuel es hs (
          omega (
            arith,
            serialize_pos e,
            length-append (serialize display e) (serialize_entries display es),
          )))

  -- The entries of a tree, each with a UTF-8 path without a null byte and an oid of 20 bytes, are read
  -- back, in their order, from the bytes that a tree is written as, and what stands behind those bytes
  -- is left.
  pub read_entries-serialize_entries :
      (es : List TreeEntry) (rest : List ℕ)
      → All IsEntry es
      → read_entries (length (serialize_entries display es)) (serialize_entries display es ++ rest)
        ≡ ok (es, rest)
  unfolding read_entries
  read_entries-serialize_entries es rest hs =
      let bytes = serialize_entries display es in
      rw
        (
          take_append bytes rest,
          drop_append bytes rest,
          entries_loop-serialize_entries (length (bytes ++ rest)) es hs
              (omega (arith, length-append bytes rest)),
        )
        refl
