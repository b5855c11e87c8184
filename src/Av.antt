-- ===== src/Av.antt =====
-- The vocabulary that src/*.c takes from libav: error codes, media types, and a result type for the
-- functions that return 0 or a value on success and a negative AVERROR on failure.
use ffmpeg_wasi.Base.{ℕ, Bool, true, false, ◌≡◌, refl, subst}

-- The codes that the engine itself returns or tests; `other` is any further one.
pub data AvError : Type 0 where
  einval eio enomem enoent enosys enametoolong eof eagain : AvError
  stream_not_found demuxer_not_found decoder_not_found encoder_not_found : AvError
  other : ℕ → AvError

-- `rc == AVERROR_EOF` and `rc == AVERROR(EAGAIN)`.
abbrev pub is_eof : AvError → Bool
is_eof eof = true
is_eof _ = false

abbrev pub is_eagain : AvError → Bool
is_eagain eagain = true
is_eagain _ = false

-- `enum AVMediaType`
pub data MediaType : Type 0 where
  unknown video audio data_stream subtitle attachment : MediaType

abbrev pub eq_type : MediaType → MediaType → Bool
eq_type unknown unknown = true
eq_type video video = true
eq_type audio audio = true
eq_type data_stream data_stream = true
eq_type subtitle subtitle = true
eq_type attachment attachment = true
eq_type _ _ = false

pub data Result {κ} (A : Type κ) : Type κ where
  err : AvError → Result A
  ok : A → Result A

-- `if ((rc = m) < 0) return rc;`, and on to the rest.
infixl 5 ◌>>=◌
abbrev pub ◌>>=◌ {κ} : {A B : Type κ} → Result A → (A → Result B) → Result B
err code >>= rest = err code
ok value >>= rest = rest value

-- `AVRational`
pub record Rational : Type 0 where
  pub num : ℕ
  pub den : ℕ

-- A property of the answer, if there is one.
abbrev pub IfOk {ℓ κ} : {A : Type ℓ} → (A → Type κ) → Result A → Type κ
IfOk P (ok a) = P a
IfOk P (err e) = Unit

pub IfOk-bind {ℓ κ} :
    {A B : Type ℓ} (P : A → Type κ) (Q : B → Type κ) (m : Result A) (f : A → Result B)
    → IfOk P m
    → ((a : A) → P a → IfOk Q (f a))
    → IfOk Q (m >>= f)
IfOk-bind P Q (ok a) f p q = q a p
IfOk-bind P Q (err e) f p q = tt

-- The answer does not depend on the call before.
pub IfOk-behind {ℓ κ} :
    {A B : Type ℓ} (Q : B → Type κ) (m : Result A) (f : A → Result B)
    → ((a : A) → IfOk Q (f a))
    → IfOk Q (m >>= f)
IfOk-behind Q (ok a) f q = q a
IfOk-behind Q (err e) f q = tt

pub IfOk-weaken {ℓ κ} :
    {A : Type ℓ} (P Q : A → Type κ) (m : Result A) → ((a : A) → P a → Q a) → IfOk P m → IfOk Q m
IfOk-weaken P Q (ok a) f p = f a p
IfOk-weaken P Q (err e) f p = tt

-- The answer, with its equation, and a property of it at a known answer.
pub IfOk-known {ℓ} : {A : Type ℓ} (m : Result A) → IfOk (λ (a : A). m ≡ ok a) m
IfOk-known (ok a) = refl
IfOk-known (err e) = tt

pub IfOk-at {ℓ κ} : {A : Type ℓ} (P : A → Type κ) (m : Result A) (a : A) → m ≡ ok a → IfOk P m → P a
IfOk-at P m a e p = subst (IfOk P) e p

pub IfOk-any {ℓ} : {A : Type ℓ} (m : Result A) → IfOk (λ (a : A). Unit {0}) m
IfOk-any (ok a) = tt
IfOk-any (err e) = tt
