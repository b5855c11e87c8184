-- ===== src/Frames/Select/Bounded.antt =====
-- src/frames.c: the array of targets is never written past its end, nor past the cap.
use ffmpeg_wasi.Base.{
  ℕ, zero, suc, ◌-◌, ◌≤◌, ◌<◌, not, List, [], ◌∷◌, Option, none, some, leb, ◌==◌, length, arith,
  if_elim,
}
use mathlib.Core.Option
use ffmpeg_wasi.Base.Text.{codes, streq}
use ffmpeg_wasi.Frames.Select.{
  Doubles, Item, number, string, other, Member, absent, item, array, Select, Selection, at,
  thumbnail, threshold, frames_max_targets, and_target, listed, stepped, limit_of, scene_of,
  interval_of, timestamps_of, timestamp_of, parse_select, selectors, cap_of,
}

module _ {T : Type 0} (d : Doubles T) where
  -- The targets of a selection fit into the array and under the cap.
  abbrev pub Fits : ℕ → Option (Selection T) → Type 0
  Fits cap none = Unit
  Fits cap (some (at ts)) = (length ts ≤ frames_max_targets) × (length ts ≤ cap)
  Fits cap (some thumbnail) = Unit
  Fits cap (some (threshold x)) = Unit

  abbrev ShortList : ℕ → Option (List T) → Type 0
  ShortList n none = Unit
  ShortList n (some ts) = length ts ≤ n

  and_target-ShortList :
      (n : ℕ) (x : T) (o : Option (List T)) → ShortList n o → ShortList (suc n) (and_target d x o)
  and_target-ShortList n x none h = tt
  and_target-ShortList n x (some ts) h = omega (arith, h)

  ShortList-grow : (m n : ℕ) (o : Option (List T)) → m ≤ n → ShortList m o → ShortList n o
  ShortList-grow m n none l h = tt
  ShortList-grow m n (some ts) l h = omega (arith, l, h)

  listed-ShortList :
      (limit n : ℕ) (xs : List (Item T)) → ShortList (limit - n) (listed d limit n xs)
  unfolding listed
  listed-ShortList limit n [] = omega arith
  listed-ShortList limit n (number x ∷ xs) =
      if_elim (ShortList (limit - n)) (leb limit n) _ _ (λ e. omega arith)
        (λ e.
          ShortList-grow (suc (limit - suc n)) (limit - n) _ (ground (arith, e))
            (and_target-ShortList (limit - suc n) x _ (listed-ShortList limit (suc n) xs)))
  listed-ShortList limit n (string s ∷ xs) = tt
  listed-ShortList limit n (other ∷ xs) = tt

  stepped_fits : (n : ℕ) (dur : Option T) (step t : T) → length (stepped d n dur step t) ≤ n
  unfolding stepped
  stepped_fits zero dur step t = omega arith
  stepped_fits (suc n) none step t = omega (arith, stepped_fits n none step (d.plus t step))
  stepped_fits (suc n) (some end) step t =
      if_elim (λ (ts : List T). length ts ≤ suc n) (d.less t end) _ _
        (λ e. omega (arith, stepped_fits n (some end) step (d.plus t step))) (λ e. omega arith)

  limit_of_lem : (cap : ℕ) → (limit_of d cap ≤ frames_max_targets) × (limit_of d cap ≤ cap)
  limit_of_lem cap = ground arith

  at-Fits :
      (cap : ℕ) (o : Option (List T)) → ShortList (limit_of d cap) o → Fits cap (Option.map at o)
  at-Fits cap none h = tt
  at-Fits cap (some ts) h =
      let (a, b) = limit_of_lem cap in (omega (arith, a, h), omega (arith, b, h))

  scene_of-Fits : (cap : ℕ) (m : Member T) → Fits cap (scene_of d m)
  scene_of-Fits cap (item (string s)) =
      if_elim (Fits cap) (streq s (codes "thumbnail")) _ _ (λ e. tt) (λ e. tt)
  scene_of-Fits cap (item (number x)) = tt
  scene_of-Fits cap (item other) = tt
  scene_of-Fits cap absent = tt
  scene_of-Fits cap (array xs) = tt

  interval_of-Fits :
      (cap : ℕ) (dur : Option T) (m scene : Member T) → Fits cap (interval_of d cap dur m scene)
  interval_of-Fits cap dur (item (number step)) scene =
      if_elim (Fits cap) (d.less d.origin step) _ _
        (λ e.
          at-Fits cap (some (stepped d (limit_of d cap) dur step d.origin))
            (stepped_fits (limit_of d cap) dur step d.origin))
        (λ e. tt)
  interval_of-Fits cap dur (item (string s)) scene = scene_of-Fits cap scene
  interval_of-Fits cap dur (item other) scene = scene_of-Fits cap scene
  interval_of-Fits cap dur absent scene = scene_of-Fits cap scene
  interval_of-Fits cap dur (array xs) scene = scene_of-Fits cap scene

  timestamps_of-Fits :
      (cap : ℕ) (dur : Option T) (sel : Select T) (m : Member T)
      → Fits cap (timestamps_of d cap dur sel m)
  timestamps_of-Fits cap dur sel (array (x ∷ xs)) =
      at-Fits cap (listed d (limit_of d cap) 0 (x ∷ xs)) (
        ShortList-grow (limit_of d cap - 0) (limit_of d cap) _ (omega arith)
          (listed-ShortList (limit_of d cap) 0 (x ∷ xs)))
  timestamps_of-Fits cap dur sel (array []) = interval_of-Fits cap dur sel.interval sel.scene
  timestamps_of-Fits cap dur sel (item x) = interval_of-Fits cap dur sel.interval sel.scene
  timestamps_of-Fits cap dur sel absent = interval_of-Fits cap dur sel.interval sel.scene

  timestamp_of-Fits :
      (cap : ℕ) (dur : Option T) (sel : Select T) (m : Member T)
      → 0 < cap
      → Fits cap (timestamp_of d cap dur sel m)
  timestamp_of-Fits cap dur sel (item (number x)) h = (omega arith, omega (arith, h))
  timestamp_of-Fits cap dur sel (item (string s)) h = timestamps_of-Fits cap dur sel sel.timestamps
  timestamp_of-Fits cap dur sel (item other) h = timestamps_of-Fits cap dur sel sel.timestamps
  timestamp_of-Fits cap dur sel absent h = timestamps_of-Fits cap dur sel sel.timestamps
  timestamp_of-Fits cap dur sel (array xs) h = timestamps_of-Fits cap dur sel sel.timestamps

  -- For every `select`, every duration of the input and every `count`, the targets that parse_select
  -- puts into the array of FRAMES_MAX_TARGETS fit into it, and are at most the cap.
  pub parse_select-Fits :
      (sel : Select T) (dur : Option T) (count : Option ℕ)
      → Fits (cap_of count) (parse_select d sel dur (cap_of count))
  unfolding parse_select
  parse_select-Fits sel dur count =
      if_elim (Fits (cap_of count)) (not (selectors d sel == 1)) _ _ (λ e. tt)
        (λ e. timestamp_of-Fits (cap_of count) dur sel sel.timestamp (positive count))
    where
      positive : (c : Option ℕ) → 0 < cap_of c
      positive none = omega arith
      positive (some n) = ground arith
