-- ===== src/Obj/Utf8.antt =====
-- `std::str::from_utf8`, as a test.
use bit.Prelude.{
  ℕ, zero, suc, ltb, leb, ◌==◌, ◌&&◌, if◌then◌else◌, Bool, true, false, List, [], ◌∷◌,
}
use bit.Prelude.{Option, none, some}

-- How many bytes come behind a first byte, and the bounds of the second one.
unfoldable pub lead : ℕ → Option (ℕ × ℕ × ℕ)
lead b =
    if ltb b 0x80
    then some (0, 0, 0)
    else if ltb b 0xC2
    then none
    else if ltb b 0xE0
    then some (1, 0x80, 0xBF)
    else if b == 0xE0
    then some (2, 0xA0, 0xBF)
    else if b == 0xED
    then some (2, 0x80, 0x9F)
    else if ltb b 0xF0
    then some (2, 0x80, 0xBF)
    else if b == 0xF0
    then some (3, 0x90, 0xBF)
    else if ltb b 0xF4
    then some (3, 0x80, 0xBF)
    else if b == 0xF4
    then some (3, 0x80, 0x8F)
    else none

-- Within a character, `n` more bytes are due, and the next one is bounded.
unfoldable pub utf8_from : ℕ → ℕ → ℕ → List ℕ → Bool
utf8_from zero lo hi [] = true
utf8_from (suc n) lo hi [] = false
utf8_from (suc n) lo hi (b ∷ s) = leb lo b && (leb b hi && utf8_from n 0x80 0xBF s)
utf8_from zero lo hi (b ∷ s) = elim (lead b) [ none ↦ false | some c ↦ utf8_from c.0 c.1 c.2 s ]

unfoldable pub is_utf8 : List ℕ → Bool
is_utf8 s = utf8_from 0 0 0 s
