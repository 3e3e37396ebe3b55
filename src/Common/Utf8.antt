-- ===== src/Common/Utf8.antt =====
-- What `encoding/json` keeps of a byte string that is stored as a JSON text: valid UTF-8 stays, and
-- each byte that starts no valid sequence becomes the replacement character U+FFFD.
use Prim.Native.Nat.{ℕ, zero, suc, ◌+◌, ◌-◌, ◌/◌, ◌%◌}
use Prim.Native.Char.{code}
use Prim.Native.String.{String}
use mathlib.Core.Path.{◌≡◌, refl, ap}
use mathlib.Core.Bool.{Bool, true, false, ◌&&◌}
use mathlib.Core.List.{List, [], ◌∷◌, ◌++◌}
use native.Mathlib.Omega.{arith}
use toll_mesh_store.Common.Tests.{leb, ltb, ◌==◌, if◌then◌else◌}

abbrev pub Bytes : Type 0
Bytes = List ℕ

-- The bytes of one character.
abbrev encode : ℕ → Bytes
encode c =
    if ltb c 0x80
    then c ∷ []
    else if ltb c 0x800
    then (0xC0 + c / 0x40) ∷ (0x80 + c % 0x40) ∷ []
    else if ltb c 0x10000
    then (0xE0 + c / 0x1000) ∷ (0x80 + c / 0x40 % 0x40) ∷ (0x80 + c % 0x40) ∷ []
    else (0xF0 + c / 0x40000)
      ∷ (0x80 + c / 0x1000 % 0x40)
      ∷ (0x80 + c / 0x40 % 0x40)
      ∷ (0x80 + c % 0x40)
      ∷ []

-- `[]byte(s)`.
unfoldable pub to_bytes : String → Bytes
to_bytes String.[] = []
to_bytes (String.◌∷◌ c s) = encode (code c) ++ to_bytes s

abbrev within : ℕ → ℕ → ℕ → Bool
within lo hi b = leb lo b && leb b hi

-- The ranges that the second byte may have after the first, which rule out overlong forms,
-- surrogates and numbers over U+10FFFF.
second_ok : ℕ → ℕ → Bool
second_ok b c =
    if b == 0xE0
    then within 0xA0 0xBF c
    else if b == 0xED
    then within 0x80 0x9F c
    else if b == 0xF0
    then within 0x90 0xBF c
    else if b == 0xF4
    then within 0x80 0x8F c
    else within 0x80 0xBF c

-- How many bytes the sequence at the head has, 0 if the head starts no valid one.
unfoldable pub seq_len : Bytes → ℕ
unfolding second_ok
seq_len [] = 0
seq_len (b ∷ []) = if ltb b 0x80 then 1 else 0
seq_len (b ∷ c ∷ []) =
    if ltb b 0x80 then 1 else if within 0xC2 0xDF b && within 0x80 0xBF c then 2 else 0
seq_len (b ∷ c ∷ d ∷ []) =
    if ltb b 0x80
    then 1
    else if within 0xC2 0xDF b && within 0x80 0xBF c
    then 2
    else if within 0xE0 0xEF b && second_ok b c && within 0x80 0xBF d
    then 3
    else 0
seq_len (b ∷ c ∷ d ∷ e ∷ rest) =
    if ltb b 0x80
    then 1
    else if within 0xC2 0xDF b && within 0x80 0xBF c
    then 2
    else if within 0xE0 0xEF b && second_ok b c && within 0x80 0xBF d
    then 3
    else if within 0xF0 0xF4 b && second_ok b c && within 0x80 0xBF d && within 0x80 0xBF e
    then 4
    else 0

-- `more` bytes of the current sequence are still to be copied.
unfoldable pub coerce_from : ℕ → Bytes → Bytes
coerce_from more [] = []
coerce_from zero (b ∷ rest) =
    let n = seq_len (b ∷ rest) in
    let bad = 0xEF ∷ 0xBF ∷ 0xBD ∷ coerce_from 0 rest in
    let good = b ∷ coerce_from (n - 1) rest in if n == 0 then bad else good
coerce_from (suc more) (b ∷ rest) = b ∷ coerce_from more rest

unfoldable pub to_valid_utf8 : Bytes → Bytes
unfolding coerce_from seq_len
to_valid_utf8 bytes = coerce_from 0 bytes

unfoldable pub valid_from : ℕ → Bytes → Bool
valid_from more [] = true
valid_from zero (b ∷ rest) =
    let n = seq_len (b ∷ rest) in
    let next = valid_from (n - 1) rest in if n == 0 then false else next
valid_from (suc more) (b ∷ rest) = valid_from more rest

unfoldable pub is_utf8 : Bytes → Bool
unfolding valid_from seq_len
is_utf8 bytes = valid_from 0 bytes

coerce_from_valid :
    (more : ℕ) (bytes : Bytes) → valid_from more bytes ≡ true → coerce_from more bytes ≡ bytes
unfolding coerce_from valid_from
coerce_from_valid more [] h = refl
coerce_from_valid zero (b ∷ rest) h =
    ground (arith, coerce_from_valid (seq_len (b ∷ rest) - 1) rest)
coerce_from_valid (suc more) (b ∷ rest) h = ap (◌∷◌ b) (coerce_from_valid more rest h)

pub to_valid_utf8_valid : (bytes : Bytes) → is_utf8 bytes ≡ true → to_valid_utf8 bytes ≡ bytes
unfolding to_valid_utf8 is_utf8
to_valid_utf8_valid bytes h = coerce_from_valid 0 bytes h

snowman_stays : to_valid_utf8 (0x61 ∷ 0xE2 ∷ 0x98 ∷ 0x83 ∷ []) ≡ 0x61 ∷ 0xE2 ∷ 0x98 ∷ 0x83 ∷ []
unfolding to_valid_utf8
snowman_stays = refl

stray_byte_replaced : to_valid_utf8 (0x61 ∷ 0xFF ∷ []) ≡ 0x61 ∷ 0xEF ∷ 0xBF ∷ 0xBD ∷ []
unfolding to_valid_utf8
stray_byte_replaced = refl

snowman_bytes : to_bytes "a☃" ≡ 0x61 ∷ 0xE2 ∷ 0x98 ∷ 0x83 ∷ []
unfolding to_bytes
snowman_bytes = refl
