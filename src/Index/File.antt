-- ===== src/Index/File.antt =====
-- libbit/src/index/index_inner.rs, `parse_header` and `parse_extensions`: what surrounds the entries in
-- the index file. The map of extensions keeps the last extension of a signature.
pub mod Ends
pub mod RoundTrip
use bit.Prelude.{
  ℕ, zero, suc, ◌+◌, ◌-◌, ◌^◌, ltb, leb, ◌==◌, ◌&&◌, if◌then◌else◌, Bool, true, false, not, List,
  [], ◌∷◌, ◌++◌, length, take, drop, Option, none, some,
}
use bit.Result
use bit.Result.{Result, ok, err, panic, stuck, assert, bad_index_version}
use bit.Io.{Reader, ◌>>=◌, ◌>>◌, pure, lift, read_exact, read_u32, from_be_bytes}
use bit.Io.Write.{write_u32, write_with_size}
use bit.Obj.{same_bytes}
use bit.Index.{slice_to}

-- `DIRC`
abbrev pub bit_index_header_sig : List ℕ
bit_index_header_sig = b'D' ∷ b'I' ∷ b'R' ∷ b'C' ∷ []

pub record BitIndexHeader : Type 0 where
  pub signature : List ℕ
  pub version : ℕ
  pub entryc : ℕ

-- `BitIndexHeader::serialize`
unfoldable pub serialize_header : BitIndexHeader → List ℕ
serialize_header h = h.signature ++ (write_u32 h.version ++ write_u32 h.entryc)

unfoldable pub ensure_version : ℕ → Result (Unit {0})
ensure_version version =
    if version == 2 then ok tt else if version == 3 then ok tt else err (bad_index_version version)

unfoldable pub parse_header : Reader BitIndexHeader
parse_header = do
  signature ← read_exact 4
  lift (assert (same_bytes signature bit_index_header_sig))
  version ← read_u32
  lift (ensure_version version)
  entryc ← read_u32
  pure (record { signature = signature; version = version; entryc = entryc })

pub record BitIndexExtension : Type 0 where
  pub signature : List ℕ
  pub size : ℕ
  pub data_bytes : List ℕ

-- `extensions.insert`: the entry of the signature is replaced, if there is one.
unfoldable pub insert_extension :
    BitIndexExtension → List BitIndexExtension → List BitIndexExtension
insert_extension e [] = e ∷ []
insert_extension e (x ∷ xs) =
    let more = insert_extension e xs in
    if same_bytes e.signature x.signature then e ∷ xs else x ∷ more

-- `buf[a..b]`, where `a` is at most `b`.
unfoldable pub slice_of : ℕ → ℕ → List ℕ → Result (List ℕ)
slice_of a b buf = if leb b (length buf) then ok (take (b - a) (drop a buf)) else panic

-- One round: the extension in front and what is behind it. `8 + size` is below 2^64.
unfoldable pub parse_extension : List ℕ → Result (BitIndexExtension × List ℕ)
parse_extension buf = Result.◌>>=◌ (slice_of 0 4 buf) λ signature.
    Result.◌>>=◌ (slice_of 4 8 buf) λ size_bytes.
      let size = from_be_bytes 0 size_bytes in
      Result.◌>>=◌ (slice_of 8 (8 + size) buf) λ body.
        ok (record { signature = signature; size = size; data_bytes = body }, drop (8 + size) buf)

-- `while buf.len() > OID_SIZE`, with fuel: each round takes eight bytes at least.
unfoldable pub extensions_loop :
    ℕ → List ℕ → List BitIndexExtension → Result (List BitIndexExtension)
extensions_loop zero buf found = if ltb 20 (length buf) then stuck else ok found
extensions_loop (suc fuel) buf found =
    let more =
      Result.◌>>=◌ (parse_extension buf)
        λ r. extensions_loop fuel r.1 (insert_extension r.0 found) in
    if ltb 20 (length buf) then more else ok found

unfoldable pub parse_extensions : List ℕ → Result (List BitIndexExtension)
parse_extensions buf = extensions_loop (length buf) buf []

-- An extension as the index writes it: its signature, the size of its data and the data.
unfoldable pub write_extension : List ℕ → List ℕ → List ℕ
write_extension signature body = signature ++ write_with_size body
