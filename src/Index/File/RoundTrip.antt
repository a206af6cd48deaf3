-- ===== src/Index/File/RoundTrip.antt =====
-- libbit/src/index/index_inner.rs: the bytes of the header and of the extensions, and their parsers.
use bit.Prelude.{
  lt→ltb, ◌%◌, ℕ, zero, suc, ◌+◌, ◌-◌, ◌^◌, ◌<◌, ◌≤◌, ◌≡◌, ◌⊎◌, inl, inr, refl, ap, ◌∙◌, arith, ltb,
  leb, true, false, List, [], ◌∷◌, ◌++◌, length, drop, append_assoc, length-append, take_append,
  drop_append, All,
}
use bit.Result.{ok, assert}
use bit.Io.{lift, read_exact, read_u32, from_be_bytes, to_be_bytes}
use bit.Io.Write.{write_u32, write_with_size}
use bit.Io.Numbers.{
  bind_ok, read_exact_append, read_u32-write_u32, from_be_bytes_of, length-to_be_bytes,
}
use bit.Io.Text.Fields.{lift_ok}
use bit.Obj.{same_bytes}
use bit.Index.File.{
  bit_index_header_sig, serialize_header, ensure_version, parse_header, BitIndexExtension,
  insert_extension, slice_of, parse_extension, extensions_loop, parse_extensions, write_extension,
}

small_version : {version : ℕ} → (version ≡ 2) ⊎ (version ≡ 3) → version < 2 ^ 32
small_version (inl e) = omega arith
small_version (inr e) = omega arith

supported : {version : ℕ} → (version ≡ 2) ⊎ (version ≡ 3) → ensure_version version ≡ ok tt
unfolding ensure_version
supported (inl e) = rw e refl
supported (inr e) = rw e refl

same_sig : assert (same_bytes bit_index_header_sig bit_index_header_sig) ≡ ok tt
unfolding same_bytes
same_sig = refl

-- A header of a version that is supported is read back, and what stands behind it is left.
pub parse_header-serialize_header :
    (version entryc : ℕ) (rest : List ℕ)
    → (version ≡ 2) ⊎ (version ≡ 3)
    → entryc < 2 ^ 32
    → parse_header (
        serialize_header
          (record { signature = bit_index_header_sig; version = version; entryc = entryc })
        ++ rest)
      ≡ ok (record { signature = bit_index_header_sig; version = version; entryc = entryc }, rest)
unfolding parse_header serialize_header
parse_header-serialize_header version entryc rest h he =
    rw
      (
        append_assoc bit_index_header_sig (write_u32 version ++ write_u32 entryc) rest,
        append_assoc (write_u32 version) (write_u32 entryc) rest,
      )
      (bind_ok (read_exact 4) _ (read_exact_append bit_index_header_sig _) (
        bind_ok (lift (assert (same_bytes bit_index_header_sig bit_index_header_sig))) _
          (lift_ok _ same_sig)
          (bind_ok read_u32 _ (read_u32-write_u32 version _ (small_version h)) (
            bind_ok (lift (ensure_version version)) _ (lift_ok _ (supported h))
              (bind_ok read_u32 _ (read_u32-write_u32 entryc rest he) refl)))))

pub ltb-no : (a b : ℕ) → b ≤ a → ltb a b ≡ false
ltb-no a b h = ground arith

leb-yes : (a b : ℕ) → a ≤ b → leb a b ≡ true
leb-yes a b h = ground arith

-- A piece is sliced out by its place.
slice_of-append :
    (front piece back : List ℕ)
    → slice_of (length front) (length front + length piece) (front ++ (piece ++ back)) ≡ ok piece
unfolding slice_of
slice_of-append front piece back =
    rw
      (
        leb-yes (length front + length piece) (length (front ++ (piece ++ back))) fits,
        drop_append front (piece ++ back),
        size,
      )
      (ap ok (take_append piece back))
  where
    fits : length front + length piece ≤ length (front ++ (piece ++ back))
    fits = omega (arith, length-append front (piece ++ back), length-append piece back)

    size : length front + length piece - length front ≡ length piece
    size = omega arith

slice_at :
    (a b : ℕ) (front piece back : List ℕ)
    → length front ≡ a
    → length front + length piece ≡ b
    → slice_of a b (front ++ (piece ++ back)) ≡ ok piece
slice_at a b front piece back ha hb = rw (← hb, ← ha) (slice_of-append front piece back)

-- What one extension is read as.
abbrev pub extension : List ℕ × List ℕ → BitIndexExtension
extension x = record { signature = x.0; size = length x.1; data_bytes = x.1 }

abbrev pub IsExtension : List ℕ × List ℕ → Type 0
IsExtension x = (length x.0 ≡ 4) × (length x.1 < 2 ^ 32)

-- The parts of one extension in their places.
parse_extension_parts :
    (signature size body rest : List ℕ)
    → length signature ≡ 4
    → length size ≡ 4
    → from_be_bytes 0 size ≡ length body
    → parse_extension (signature ++ (size ++ (body ++ rest)))
      ≡ ok (extension (signature, body), rest)
unfolding parse_extension
parse_extension_parts signature size body rest hs hz hv =
    rw
      (
        slice_at 0 4 [] signature (size ++ (body ++ rest)) refl (omega arith),
        slice_at 4 8 signature size (body ++ rest) hs (omega arith),
        hv,
        body_slice,
        behind,
      )
      refl
  where
    front : length (signature ++ size) ≡ 8
    front = omega (arith, length-append signature size)

    body_slice : slice_of 8 (8 + length body) (signature ++ (size ++ (body ++ rest))) ≡ ok body
    body_slice = rw (append_assoc signature size (body ++ rest)) at (
        slice_at 8 (8 + length body) (signature ++ size) body rest front
          (ap (λ (t : ℕ). t + length body) front))

    whole : length (signature ++ (size ++ body)) ≡ 8 + length body
    whole = omega (arith, length-append signature (size ++ body), length-append size body)

    behind : drop (8 + length body) (signature ++ (size ++ (body ++ rest))) ≡ rest
    behind =
        rw (whole, append_assoc signature (size ++ body) rest, append_assoc size body rest) at
          (drop_append (signature ++ (size ++ body)) rest)

parse_extension-write_extension :
    (x : List ℕ × List ℕ) (rest : List ℕ)
    → IsExtension x
    → parse_extension (write_extension x.0 x.1 ++ rest) ≡ ok (extension x, rest)
unfolding write_extension write_with_size write_u32
parse_extension-write_extension x rest h =
    let size = to_be_bytes 4 (length x.1 % 2 ^ 32) in
    rw (append_assoc x.0 (size ++ x.1) rest, append_assoc size x.1 rest)
      (parse_extension_parts x.0 size x.1 rest h.0 (length-to_be_bytes 4 _)
        (from_be_bytes_of 4 (length x.1 % 2 ^ 32) (omega arith) ∙ omega arith))

abbrev pub write_extensions : List (List ℕ × List ℕ) → List ℕ
write_extensions [] = []
write_extensions (x ∷ xs) = write_extension x.0 x.1 ++ write_extensions xs

abbrev pub insert_all : List (List ℕ × List ℕ) → List BitIndexExtension → List BitIndexExtension
insert_all [] found = found
insert_all (x ∷ xs) found = insert_all xs (insert_extension (extension x) found)

loop_done :
    (fuel : ℕ) (buf : List ℕ) (found : List BitIndexExtension)
    → length buf ≤ 20
    → extensions_loop fuel buf found ≡ ok found
unfolding extensions_loop
loop_done zero buf found h = rw (ltb-no 20 (length buf) h) refl
loop_done (suc fuel) buf found h = rw (ltb-no 20 (length buf) h) refl

loop_step :
    (fuel : ℕ) (buf rest : List ℕ) (e : BitIndexExtension) (found : List BitIndexExtension)
    → 20 < length buf
    → parse_extension buf ≡ ok (e, rest)
    → extensions_loop (suc fuel) buf found ≡ extensions_loop fuel rest (insert_extension e found)
unfolding extensions_loop
loop_step fuel buf rest e found long h = rw (lt→ltb 20 (length buf) long, h) refl

length-write_extension :
    (x : List ℕ × List ℕ) → length x.0 ≡ 4 → 4 ≤ length (write_extension x.0 x.1)
unfolding write_extension
length-write_extension x h = omega (arith, length-append x.0 (write_with_size x.1))

extensions_loop-write_extensions :
    (fuel : ℕ) (xs : List (List ℕ × List ℕ)) (hash : List ℕ) (found : List BitIndexExtension)
    → All IsExtension xs
    → length hash ≡ 20
    → length (write_extensions xs) ≤ fuel
    → extensions_loop fuel (write_extensions xs ++ hash) found ≡ ok (insert_all xs found)
extensions_loop-write_extensions fuel [] hash found hs hh h =
    loop_done fuel hash found (omega arith)
extensions_loop-write_extensions zero (x ∷ xs) hash found (hx, hs) hh h = absurd (
    omega (
      arith,
      length-append (write_extension x.0 x.1) (write_extensions xs),
      length-write_extension x hx.0,
    ))
extensions_loop-write_extensions (suc fuel) (x ∷ xs) hash found (hx, hs) hh h =
    rw (append_assoc (write_extension x.0 x.1) (write_extensions xs) hash) (
      loop_step fuel (write_extension x.0 x.1 ++ (write_extensions xs ++ hash))
        (write_extensions xs ++ hash) (extension x) found
        (omega (
          arith,
          length-write_extension x hx.0,
          length-append (write_extension x.0 x.1) (write_extensions xs ++ hash),
          length-append (write_extensions xs) hash,
        ))
        (parse_extension-write_extension x _ hx)
      ∙ extensions_loop-write_extensions fuel xs hash (insert_extension (extension x) found) hs hh (
          omega (
            arith,
            length-write_extension x hx.0,
            length-append (write_extension x.0 x.1) (write_extensions xs),
          )))

-- Extensions that are written one behind the other in front of the checksum are read back into the map
-- of extensions, each with the size and the bytes of its data.
pub parse_extensions-write_extensions :
    (xs : List (List ℕ × List ℕ)) (hash : List ℕ)
    → All IsExtension xs
    → length hash ≡ 20
    → parse_extensions (write_extensions xs ++ hash) ≡ ok (insert_all xs [])
unfolding parse_extensions
parse_extensions-write_extensions xs hash hs hh =
    extensions_loop-write_extensions (length (write_extensions xs ++ hash)) xs hash [] hs hh
      (omega (arith, length-append (write_extensions xs) hash))
