-- ===== src/Obj/Tree/Ends.antt =====
-- libbit/src/obj/tree.rs: how much of its input each round over the entries takes.
use bit.Prelude.{
  ℕ, zero, suc, ◌^◌, ◌≤◌, ◌≢◌, refl, arith, List, [], ◌∷◌, length, take, drop, Option, none, some,
  length-take,
}
use bit.Result
use bit.Result.{Result, ok, err, panic, stuck}
use bit.Io.{lift, read_exact}
use bit.Io.Within.{Within, Within-bind, Within-lift, Within-read_exact_le, Within-ne-stuck}
use bit.Io.Text.{split_at, read_until, but_last, from_str_radix, unwrap}
use bit.Obj.{file_mode}
use bit.Obj.Tree.{deserialize, entries_loop, read_entries}

split_at_left : (sep : ℕ) (s : List ℕ) (n : ℕ) → length s ≤ suc n → length (split_at sep s).1 ≤ n
unfolding split_at
split_at_left sep [] n h = omega arith
split_at_left sep (b ∷ []) n h = ground arith
split_at_left sep (b ∷ c ∷ s) zero h = absurd (omega arith)
split_at_left sep (b ∷ c ∷ s) (suc n) h = ground (arith, split_at_left sep (c ∷ s) n (omega arith))

Within-read_until : (sep n : ℕ) (s : List ℕ) → length s ≤ suc n → Within n (read_until sep s)
unfolding read_until
Within-read_until sep n s h = split_at_left sep s n h

but_last-ne-stuck : (bs : List ℕ) → but_last bs ≢ stuck
unfolding but_last
but_last-ne-stuck [] e = cc
but_last-ne-stuck (b ∷ bs) e = cc

unwrap-ne-stuck : {A : Type 0} (o : Option A) → unwrap o ≢ stuck
unwrap-ne-stuck none e = cc
unwrap-ne-stuck (some a) e = cc

file_mode-ne-stuck : (u : ℕ) → file_mode u ≢ stuck
unfolding file_mode
file_mode-ne-stuck u e = ground arith

Within-deserialize : (n : ℕ) (s : List ℕ) → length s ≤ suc n → Within n (deserialize s)
unfolding deserialize
Within-deserialize n s h =
    Within-bind n n (read_until 0x20) _ s (Within-read_until 0x20 n s h) λ buf s₁ h₁.
      Within-bind n n (lift (but_last buf)) _ s₁ (Within-lift _ s₁ n (but_last-ne-stuck buf) h₁)
        λ digits s₂ h₂.
          Within-bind n n (lift (unwrap (from_str_radix 8 (2 ^ 32) digits))) _ s₂
            (Within-lift _ s₂ n (unwrap-ne-stuck _) h₂)
            λ bits s₃ h₃.
              Within-bind n n (lift (file_mode bits)) _ s₃
                (Within-lift _ s₃ n (file_mode-ne-stuck bits) h₃)
                λ mode s₄ h₄.
                  Within-bind n n (read_until 0x00) _ s₄ (Within-read_until 0x00 n s₄ (omega arith))
                    λ more s₅ h₅.
                      Within-bind n n (lift (but_last more)) _ s₅
                        (Within-lift _ s₅ n (but_last-ne-stuck more) h₅)
                        λ path s₆ h₆.
                          Within-bind n n (read_exact 20) _ s₆ (Within-read_exact_le 20 n s₆ h₆)
                            λ oid s₇ h₇. h₇

Within-entries_loop : (fuel : ℕ) (s : List ℕ) → length s ≤ fuel → Within 0 (entries_loop fuel s)
unfolding entries_loop
Within-entries_loop fuel [] h = omega arith
Within-entries_loop zero (b ∷ s) h = absurd (omega arith)
Within-entries_loop (suc fuel) (b ∷ s) h =
    Within-bind (length s) 0 deserialize _ (b ∷ s)
      (Within-deserialize (length s) (b ∷ s) (omega arith))
      λ e s' hs.
        Within-bind 0 0 (entries_loop fuel) _ s' (Within-entries_loop fuel s' (omega arith))
          λ es t ht. ht

bind-ne-stuck :
    {A B : Type 0} (m : Result A) (f : A → B) → m ≢ stuck → Result.◌>>=◌ m (λ a. ok (f a)) ≢ stuck
bind-ne-stuck (ok a) f h e = cc
bind-ne-stuck (err x) f h e = cc
bind-ne-stuck panic f h e = cc
bind-ne-stuck stuck f h e = h refl

-- On every input and for every size, the loop over entries ends.
pub read_entries-ne-stuck : (size : ℕ) (s : List ℕ) → read_entries size s ≢ stuck
unfolding read_entries
read_entries-ne-stuck size s =
    bind-ne-stuck (entries_loop (length s) (take size s)) (λ r. (r.0, drop size s))
      (Within-ne-stuck 0 _
        (Within-entries_loop (length s) (take size s) (omega (arith, length-take size s))))
