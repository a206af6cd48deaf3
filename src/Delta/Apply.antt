-- ===== src/Delta/Apply.antt =====
-- libbit/src/delta.rs, `Delta::expand`: the target that a delta makes of a source.
use bit.Prelude.{ℕ, ◌+◌, leb, ◌==◌, if◌then◌else◌, List, [], ◌∷◌, ◌++◌, length, take, drop}
use bit.Result.{Result, ok, panic, ensure, bad_source_size, bad_target_size, ◌>>=◌, ◌>>◌}
use bit.Delta.{DeltaOp, copy, insert, Delta}

-- `&bytes[offset..offset + size]`, or the bytes to insert.
unfoldable pub op_slice : List ℕ → DeltaOp → Result (List ℕ)
op_slice bytes (copy offset size) =
    if leb (offset + size) (length bytes) then ok (take size (drop offset bytes)) else panic
op_slice bytes (insert slice) = ok slice

-- `for op in &self.ops`
unfoldable pub expand_ops : List ℕ → List DeltaOp → List ℕ → Result (List ℕ)
expand_ops bytes [] expanded = ok expanded
expand_ops bytes (op ∷ ops) expanded = do
  slice ← op_slice bytes op
  expand_ops bytes ops (expanded ++ slice)

unfoldable pub expand : Delta → List ℕ → Result (List ℕ)
expand d bytes = do
  ensure (d.source_size == length bytes) bad_source_size
  expanded ← expand_ops bytes d.ops []
  ensure (d.target_size == length expanded) bad_target_size
  ok expanded
