-- ===== src/Types/Tagged.antt =====
-- types.h, `tagged_int<uint16_t>`: a payload with a tag in bit 15. `none` is a thrown exception.
use liss.Common.{
  ℕ, ◌+◌, ◌%◌, ◌≤◌, ◌<◌, ◌≡◌, Bool, true, false, Option, none, some, arith, ltb, ◌==◌,
  if◌then◌else◌,
}

-- `mask`, `invalid_` and `max_payload` at `uint16_t`.
abbrev pub mask : ℕ
mask = 0x8000

abbrev pub invalid : ℕ
invalid = 0xffff

abbrev pub max_payload : ℕ
max_payload = 0x7ffe

-- `data | mask` and `data & ~mask` for a word of 16 bits.
abbrev pub set_bit15 : ℕ → ℕ
set_bit15 w = w % mask + mask

abbrev pub clear_bit15 : ℕ → ℕ
clear_bit15 w = w % mask

-- A value is its word, `data`.
unfoldable pub tagged_set : ℕ → Option ℕ
tagged_set w = if w == invalid then none else some (set_bit15 w)

unfoldable pub tagged_clear : ℕ → Option ℕ
tagged_clear w = if w == invalid then none else some (clear_bit15 w)

unfoldable pub tagged_test : ℕ → Option Bool
tagged_test w = if w == invalid then none else some (if ltb w mask then false else true)

unfoldable pub payload : ℕ → Option ℕ
payload w = if w == invalid then none else some (clear_bit15 w)

-- `payload(value)`: the tag is kept and the payload is joined by `|` to nothing else.
unfoldable pub set_payload : ℕ → ℕ → Option ℕ
set_payload w value =
    if ltb max_payload value then none else some ((if ltb w mask then 0 else mask) + value)

-- `explicit tagged_int(i)`: the word starts at 0.
unfoldable pub tagged_int : ℕ → Option ℕ
unfolding set_payload
tagged_int i = set_payload 0 i

-- A payload that fits is read back, untagged.
pub payload-tagged_int :
    (i : ℕ)
    → i ≤ max_payload
    → (w : ℕ) × (tagged_int i ≡ some w) × (payload w ≡ some i) × (tagged_test w ≡ some false)
unfolding tagged_int payload tagged_test
payload-tagged_int i h = (i, ground arith, ground arith, ground arith)

-- Tagging a valid word of 16 bits keeps the payload, sets the tag, and gives a valid word unless
-- the payload is the one above `max_payload`.
pub tagged_set_lem :
    (w i : ℕ)
    → w < 0x10000
    → payload w ≡ some i
    → i ≤ max_payload
    → (w' : ℕ) × (tagged_set w ≡ some w')
      × (payload w' ≡ some i)
      × (tagged_test w' ≡ some true)
      × (tagged_clear w' ≡ some i)
unfolding tagged_set payload tagged_test tagged_clear
tagged_set_lem w i b p h = (w % mask + mask, ground arith, ground arith, ground arith, ground arith)
