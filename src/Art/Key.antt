-- ===== src/Art/Key.antt =====
-- src/storage/art.cpp: the bytes of a key.
use Prim.Native.Nat.{bit_xor}
use babydb_private.Prelude.{ℕ, zero, suc, ◌+◌, ◌*◌, ◌/◌, ◌%◌, ◌^◌, List, [], ◌∷◌}

-- `static_cast<uint8_t>` of the bytes of a word of that many bytes, the highest first.
pub bytes : ℕ → ℕ → List ℕ
bytes zero word = []
bytes (suc n) word = (word / 256 ^ n) % 256 ∷ bytes n word

-- `loadKey` on a little-endian machine swaps the eight bytes of the word, so the first one is the
-- highest.
unfoldable pub load_key : ℕ → List ℕ
unfolding bytes
load_key word = bytes 8 word

unfoldable pub flip_sign : ℕ → ℕ
flip_sign key_byte = bit_xor key_byte 128

-- The word that the bytes stand for.
unfoldable pub unload : List ℕ → ℕ → ℕ
unload [] acc = acc
unload (b ∷ bs) acc = unload bs (acc * 256 + b)
