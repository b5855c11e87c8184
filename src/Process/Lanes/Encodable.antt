-- ===== src/Process/Lanes/Encodable.antt =====
-- src/process.c: the jobs that check_encodable_map lets through.
use ffmpeg_wasi.Base.{
  ◌≡◌, refl, ◌⊎◌, inl, inr, Bool, true, false, not, ◌&&◌, ◌||◌, List, [], ◌∷◌, any, if◌then◌else◌,
}
use ffmpeg_wasi.Av.{Result, ok, err, einval}
use ffmpeg_wasi.Process.Lanes.{Output, encodes, is_pad, is_unmapped, check_encodable_map}

-- An output whose `map` is there and has no pad, though a codec of its has to be encoded.
abbrev pub is_contradictory : Output → Bool
is_contradictory o =
    not (is_unmapped o.map) && not (any is_pad o.map) && (encodes o.vcodec || encodes o.acodec)

-- A job passes check_encodable_map unless an output asks for a video or audio encoder while its
-- `map`, which is not empty, names no graph pad; then the answer is -EINVAL.
pub check_encodable_map-any :
    (outs : List Output)
    → ((any is_contradictory outs ≡ false) × (check_encodable_map outs ≡ ok tt))
      ⊎ ((any is_contradictory outs ≡ true) × (check_encodable_map outs ≡ err einval))
unfolding check_encodable_map
check_encodable_map-any [] = inl (refl, refl)
check_encodable_map-any (o ∷ os) =
    step (is_unmapped o.map) (any is_pad o.map) (encodes o.vcodec || encodes o.acodec)
      (any is_contradictory os) (check_encodable_map os) (check_encodable_map-any os)
  where
    step :
        (a b c d : Bool) (r : Result (Unit {0}))
        → ((d ≡ false) × (r ≡ ok tt)) ⊎ ((d ≡ true) × (r ≡ err einval))
        → (((not a && not b && c || d) ≡ false)
            × ((if a || b then r else if c then err einval else r) ≡ ok tt))
          ⊎ (((not a && not b && c || d) ≡ true)
              × ((if a || b then r else if c then err einval else r) ≡ err einval))
    step true b c d r h = h
    step false true c d r h = h
    step false false true d r h = inr (refl, refl)
    step false false false d r h = h
