-- ===== src/Process/Mux/Accepts.antt =====
-- src/process.c: one packet after mux_fixup_ts is one that the muxer takes.
use ffmpeg_wasi.Base.{◌≡◌, refl, sym, subst, if_false, ◌∙◌, Bool, true, false, arith, ◌⊎◌, inl, inr}
use ffmpeg_wasi.Base.Int.{ℤ, pos, ◌≤ℤ◌, ◌<ℤ◌, IsInt64, int64_max, +ℤ_parts}
use ffmpeg_wasi.Av.{MediaType}
use ffmpeg_wasi.Process.Timestamps.{ts_add, median3, ts_add-clamp}
use ffmpeg_wasi.Process.Mux.{
  Packet, Format, is_set, guess_order, is_clamped_type, floor_after, clamp_dts, fixup,
}

-- Both timestamps are values of the type.
abbrev pub InRange : Packet → Type 0
InRange pkt = IsInt64 pkt.pts × IsInt64 pkt.dts

-- The median of two different values and a third lies between the two.
median3_between : (a b c : ℤ) → a <ℤ b → (a ≤ℤ median3 a b c) × (median3 a b c ≤ℤ b)
unfolding median3
median3_between a b c h = ground arith

-- What guess_order leaves: a dts that was set stays set, and it is at most a pts that is set.
pub guess_order_lem :
    (last : ℤ) (pkt : Packet)
    → InRange pkt
    → is_set pkt.dts ≡ true
    → let q = guess_order last pkt in
      InRange q
      × (is_set q.dts ≡ true)
      × (is_set q.pts ≡ is_set pkt.pts)
      × (is_set pkt.pts ≡ true → q.dts ≤ℤ q.pts)
unfolding guess_order
guess_order_lem last pkt r d = ground (arith, median3_between pkt.pts pkt.dts (ts_add last (pos 1)))

-- The floor is a value of the type, not before the last dts, and past it on a strict format unless
-- the last dts is INT64_MAX.
pub floor_after_lem :
    (fmt : Format) (last : ℤ)
    → IsInt64 last
    → IsInt64 (floor_after fmt last)
      × (last ≤ℤ floor_after fmt last)
      × (fmt.ts_nonstrict ≡ false → last <ℤ int64_max → last <ℤ floor_after fmt last)
unfolding floor_after
floor_after_lem fmt last il = ground (
  arith,
  ts_add-clamp last (pos 0) il (omega arith),
  ts_add-clamp last (pos 1) il (omega arith),
  +ℤ_parts last (pos 0),
  +ℤ_parts last (pos 1),
)

-- What is shown of the packet `q` that comes out for `pkt`.
abbrev pub Fixed : Format → ℤ → Packet → Packet → Type 0
Fixed fmt last pkt q =
    InRange q
    × (is_set q.dts ≡ true)
    × (is_set q.pts ≡ is_set pkt.pts)
    × (is_set pkt.pts ≡ true → q.dts ≤ℤ q.pts)
    × (is_set last ≡ true → floor_after fmt last ≤ℤ q.dts)

clamp_dts_lem :
    (fmt : Format) (type : MediaType) (last : ℤ) (pkt : Packet)
    → is_clamped_type type ≡ true
    → IsInt64 last
    → InRange pkt
    → is_set pkt.dts ≡ true
    → (is_set pkt.pts ≡ true → pkt.dts ≤ℤ pkt.pts)
    → Fixed fmt last pkt (clamp_dts fmt type last pkt)
unfolding clamp_dts
clamp_dts_lem fmt type last pkt av il ip d o = ground (arith, floor_after_lem fmt last il)

pub fixup_lem :
    (fmt : Format) (type : MediaType) (last : ℤ) (pkt : Packet)
    → fmt.no_timestamps ≡ false
    → is_clamped_type type ≡ true
    → IsInt64 last
    → InRange pkt
    → is_set pkt.dts ≡ true
    → Fixed fmt last pkt (fixup fmt type last pkt)
unfolding fixup
fixup_lem fmt type last pkt ts av il ip d =
    let q = guess_order last pkt in
    let (r, set, same, order) = guess_order_lem last pkt ip d in
    let (r', set', same', order', past) =
      clamp_dts_lem fmt type last q av il r set (λ e. order (sym same ∙ e)) in
    subst (Fixed fmt last pkt) (sym (if_false pkt (clamp_dts fmt type last q) ts))
      (r', set', same' ∙ same, λ e. order' (same ∙ e), past)

-- What is asked of the packet `q` that comes out for `pkt`.
abbrev pub Accepted : Format → ℤ → Packet → Packet → Type 0
Accepted fmt last pkt q =
    InRange q
    × (is_set q.dts ≡ true)
    × (is_set q.pts ≡ is_set pkt.pts)
    × ((is_set pkt.pts ≡ false) ⊎ (q.dts ≤ℤ q.pts))
    × ((is_set last ≡ false) ⊎ (floor_after fmt last ≤ℤ q.dts))

unless : {P : Type 0} (b : Bool) → (b ≡ true → P) → (b ≡ false) ⊎ P
unless true f = inr (f refl)
unless false f = inl refl

-- One packet with a dts, on an audio, video or subtitle stream of a format with timestamps: it
-- leaves mux_fixup_ts with a dts that is at least the floor which the muxer asks for after the last
-- one (the last dts, plus a tick unless the format takes repeats, at most INT64_MAX), with its pts
-- not before its dts if it has one, and it still has a dts, and a pts exactly if it had one.
pub fixup-Accepted :
    (fmt : Format) (type : MediaType) (last : ℤ) (pkt : Packet)
    → fmt.no_timestamps ≡ false
    → is_clamped_type type ≡ true
    → IsInt64 last
    → InRange pkt
    → is_set pkt.dts ≡ true
    → Accepted fmt last pkt (fixup fmt type last pkt)
fixup-Accepted fmt type last pkt ts av il ip d =
    let (r, set, same, order, past) = fixup_lem fmt type last pkt ts av il ip d in
    (r, set, same, unless (is_set pkt.pts) order, unless (is_set last) past)
