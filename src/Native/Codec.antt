-- ===== src/Native/Codec.antt =====
-- src/nativeio.c: put32, put64, get32, get64, the little-endian integers of the protocol.
-- A byte is a number below 256. `v |= b << k` joins disjoint bits, so it is a sum here.
use ffmpeg_wasi.Base.{ℕ, ◌+◌, ◌*◌, ◌/◌, ◌%◌, ◌^◌, ◌<◌, ◌≡◌, [], ◌∷◌, arith, length, refl}
use ffmpeg_wasi.Base.Text.{Bytes}

abbrev byte : ℕ → ℕ → ℕ
byte v i = v / 2 ^ (8 * i) % 256

unfoldable pub put32 : ℕ → Bytes
put32 v = byte v 0 ∷ byte v 1 ∷ byte v 2 ∷ byte v 3 ∷ []

unfoldable pub put64 : ℕ → Bytes
put64 v = byte v 0 ∷ byte v 1 ∷ byte v 2 ∷ byte v 3 ∷ byte v 4 ∷ byte v 5 ∷ byte v 6 ∷ byte v 7 ∷ []

-- The loop of get32 and get64 over the bytes it is given.
unfoldable pub get_le : Bytes → ℕ
get_le [] = 0
get_le (b ∷ bs) = b + 2 ^ 8 * get_le bs

unfoldable pub get32 : Bytes → ℕ
unfolding get_le
get32 b = get_le b

unfoldable pub get64 : Bytes → ℕ
unfolding get_le
get64 b = get_le b

abbrev pub IsByte : ℕ → Type 0
IsByte b = b < 256

-- A 32-bit and a 64-bit number come back from their four and eight bytes.
pub get-put : (v w : ℕ) → v < 2 ^ 32 → w < 2 ^ 64 → (get32 (put32 v) ≡ v) × (get64 (put64 w) ≡ w)
unfolding get32 put32 get64 put64
get-put v w hv hw = (omega arith, omega arith)

pub put32-get32 :
    (a b c d : ℕ)
    → IsByte a
    → IsByte b
    → IsByte c
    → IsByte d
    → put32 (get32 (a ∷ b ∷ c ∷ d ∷ [])) ≡ a ∷ b ∷ c ∷ d ∷ []
unfolding get32 put32
put32-get32 a b c d ha hb hc hd = ground arith

pub length-put : (v : ℕ) → (length (put32 v) ≡ 4) × (length (put64 v) ≡ 8)
unfolding put32 put64
length-put v = (refl, refl)
