-- ===== src/Process/Window/Duration.antt =====
-- src/process.c: the duration that op_process gives to the progress channel.
use ffmpeg_wasi.Base.{not, ◌||◌, List, [], ◌∷◌, All, arith, if◌then◌else◌, if_elim}
use ffmpeg_wasi.Base.Int.{ℤ, pos, ◌-ℤ◌, ◌≤ℤ◌, ltb_ℤ, leb_ℤ, ≤ℤ_trans}
use ffmpeg_wasi.Process.Mux.{is_set}
use ffmpeg_wasi.Process.Window.{Window, seek_base}

-- The length of an output by its window, 0 without one.
abbrev pub window_length : Window → ℤ
window_length o =
    if o.duration.is_positive
    then o.duration.micros
    else if o.end.is_positive
    then o.end.micros
    else pos 0

unfoldable pub longest_window : ℤ → List Window → ℤ
longest_window m [] = m
longest_window m (o ∷ os) =
    longest_window (if ltb_ℤ m (window_length o) then window_length o else m) os

-- An open input: its container's duration and its `seek_us`.
unfoldable pub longest_input : ℤ → List (ℤ × ℤ) → ℤ
longest_input m [] = m
longest_input m ((duration, seek) ∷ ins) =
    let left = duration -ℤ seek_base seek in
    longest_input
      (if not (is_set duration) || leb_ℤ duration (pos 0)
        then m
        else if ltb_ℤ m left
        then left
        else m)
      ins

-- `prog_dur_us`
unfoldable pub progress_duration : List Window → List (ℤ × ℤ) → ℤ
unfolding longest_window longest_input
progress_duration outs ins =
    let windows = longest_window (pos 0) outs in
    if leb_ℤ windows (pos 0) then longest_input windows ins else windows

greater : (m l : ℤ) → let n : ℤ = if ltb_ℤ m l then l else m in (m ≤ℤ n) × (l ≤ℤ n)
greater m l =
    if_elim (λ (n : ℤ). (m ≤ℤ n) × (l ≤ℤ n)) (ltb_ℤ m l) l m
      (λ e. (ground (arith, e), ground arith)) (λ e. (ground arith, ground (arith, e)))

longest_window-All :
    (m : ℤ) (os : List Window)
    → (m ≤ℤ longest_window m os) × All (λ (o : Window). window_length o ≤ℤ longest_window m os) os
unfolding longest_window
longest_window-All m [] = (omega arith, tt)
longest_window-All m (o ∷ os) =
    let n : ℤ = if ltb_ℤ m (window_length o) then window_length o else m in
    let (l, a) = longest_window-All n os in
    let (p, q) = greater m (window_length o) in
    (
      ≤ℤ_trans m n (longest_window n os) p l,
      (≤ℤ_trans (window_length o) n (longest_window n os) q l, a),
    )

longest_input_ge : (m : ℤ) (ins : List (ℤ × ℤ)) → m ≤ℤ longest_input m ins
unfolding longest_input
longest_input_ge m [] = omega arith
longest_input_ge m ((duration, seek) ∷ ins) =
    let left = duration -ℤ seek_base seek in
    let n : ℤ =
      if not (is_set duration) || leb_ℤ duration (pos 0)
      then m
      else if ltb_ℤ m left
      then left
      else m in
    ≤ℤ_trans m n (longest_input n ins)
      (if_elim (λ (t : ℤ). m ≤ℤ t) (not (is_set duration) || leb_ℤ duration (pos 0)) m
        (if ltb_ℤ m left then left else m) (λ e. omega arith) (λ e. (greater m left).0))
      (longest_input_ge n ins)

-- At least the length of each window.
abbrev AllWithin : List Window → ℤ → Type 0
AllWithin outs t = All (λ (o : Window). window_length o ≤ℤ t) outs

AllWithin-raise : (outs : List Window) (a b : ℤ) → a ≤ℤ b → AllWithin outs a → AllWithin outs b
AllWithin-raise [] a b l p = tt
AllWithin-raise (o ∷ outs) a b l (p, q) =
    (≤ℤ_trans (window_length o) a b p l, AllWithin-raise outs a b l q)

-- The duration on the progress channel is at least the length of each output's window, whatever the
-- inputs tell of theirs.
pub progress_duration-All :
    (outs : List Window) (ins : List (ℤ × ℤ))
    → All (λ (o : Window). window_length o ≤ℤ progress_duration outs ins) outs
unfolding progress_duration
progress_duration-All outs ins =
    let windows = longest_window (pos 0) outs in
    let (_, a) = longest_window-All (pos 0) outs in
    if_elim (AllWithin outs) (leb_ℤ windows (pos 0)) (longest_input windows ins) windows
      (λ e.
        AllWithin-raise outs windows (longest_input windows ins) (longest_input_ge windows ins) a)
      (λ e. a)
