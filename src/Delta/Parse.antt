-- ===== src/Delta/Parse.antt =====
-- libbit/src/delta.rs: how much of its input each round of the parser takes.
use bit.Prelude.{ℕ, zero, suc, ◌+◌, ◌^◌, ◌≤◌, bit_and}
use bit.Prelude.{List, [], ◌∷◌, length, arith}
use bit.Prelude.{◌==◌, not}
use bit.Result.{assert}
use bit.Io.{read_u8, lift, take_to_vec}
use bit.Io.Within.{
  Within, Within-bind, Within-if, Within-choose, Within-read_u8, Within-take_to_vec, Within-assert,
}
use bit.Io.Varint.{packed_loop, read_le_packed}
use bit.Delta.{deserialize_op, ops_loop}

Within-packed_loop :
    (r i header value n : ℕ) (s : List ℕ) → length s ≤ n → Within n (packed_loop r i header value s)
unfolding packed_loop
Within-packed_loop zero i header value n s h = h
Within-packed_loop (suc r) i header value n s h =
    Within-if n (bit_and header (2 ^ i) == 0) _ _ (Within-packed_loop r (i + 1) header value n s h)
      (Within-bind n n read_u8 _ s (Within-read_u8 n s (omega arith))
        (λ byte s' h'. Within-packed_loop r (i + 1) header _ n s' h'))

-- An operation takes a byte at least.
Within-deserialize_op : (n : ℕ) (s : List ℕ) → length s ≤ suc n → Within n (deserialize_op s)
unfolding deserialize_op read_le_packed
Within-deserialize_op n s h = Within-bind n n read_u8 _ s (Within-read_u8 n s h) (λ byte s' h'.
    Within-choose n (not (bit_and byte 0x80 == 0)) _ _ s'
      (Within-bind n n (read_le_packed byte) _ s' (Within-packed_loop 7 0 byte 0 n s' h')
        (λ v t ht. ht))
      (Within-bind n n (lift (assert (not (byte == 0)))) _ s'
        (Within-assert (not (byte == 0)) s' n h')
        (λ u t ht.
          Within-bind n n (take_to_vec (bit_and byte 0x7f)) _ t (Within-take_to_vec _ t n ht)
            (λ v t' ht'. ht'))))

-- With fuel for each byte, the loop over operations does not get stuck on any input: it fails, or it
-- returns with no byte left.
pub Within-ops_loop : (fuel : ℕ) (s : List ℕ) → length s ≤ fuel → Within 0 (ops_loop fuel s)
unfolding ops_loop
Within-ops_loop fuel [] h = omega arith
Within-ops_loop zero (b ∷ s) h = absurd (omega arith)
Within-ops_loop (suc fuel) (b ∷ s) h =
    Within-bind (length s) 0 deserialize_op _ (b ∷ s)
      (Within-deserialize_op (length s) (b ∷ s) (omega arith))
      (λ op s' hs.
        Within-bind 0 0 (ops_loop fuel) _ s' (Within-ops_loop fuel s' (omega arith))
          (λ ops t ht. ht))
