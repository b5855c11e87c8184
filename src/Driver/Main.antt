-- ===== src/Driver/Main.antt =====
-- src/driver.c: main. What the operations themselves do is behind `run`, which gives the exit code
-- of the one that is called.
use ffmpeg_wasi.Base.{
  ℕ, ◌≡◌, ◌≤◌, refl, ◌∙◌, ◌⊎◌, inl, inr, Bool, true, false, not, ◌||◌, Option, none, some,
  if◌then◌else◌, ap, ◌≢◌, arith, Bool-cases, if_true, if_false,
}
use ffmpeg_wasi.Base.Int.{ℤ, pos, ltb_ℤ, ◌≤ℤ◌}
use ffmpeg_wasi.Base.Text.{Bytes, codes, streq}

-- AFMPEG_VOCAB_VERSION
abbrev pub vocab_version : ℤ
vocab_version = pos 10

-- A number in the specification: cJSON's valueint, whether valuedouble is that of its `int` part,
-- and whether it is below 0.
pub record Number : Type 0 where
  pub valueint : ℤ
  pub is_whole : Bool
  pub is_negative : Bool

-- The "version" of a specification; `null` stands for JSON's null and for no such field.
pub data Version : Type 0 where
  null not_number : Version
  number : Number → Version

-- The operations, and the two modes of invocation.
pub data Op : Type 0 where
  report capabilities probe process frames version : Op

-- What main comes to: a call, or an exit code of its own.
pub data Outcome : Type 0 where
  call : Op → Outcome
  exit : ℕ → Outcome

-- The fields of a specification that main reads.
pub record Spec : Type 0 where
  pub version : Version
  pub op : Option Bytes

-- EXIT_MALFORMED and EXIT_VERSION_TOO_NEW
abbrev pub exit_malformed : ℕ
exit_malformed = 2

abbrev pub exit_version_too_new : ℕ
exit_version_too_new = 3

-- The exit code of the version gate, `none` where it lets the specification through.
unfoldable pub version_gate : Version → Option ℕ
version_gate null = none
version_gate not_number = some exit_malformed
version_gate (number n) =
    if not n.is_whole || n.is_negative
    then some exit_malformed
    else if ltb_ℤ vocab_version n.valueint
    then some exit_version_too_new
    else none

unfoldable pub dispatch : Option Bytes → Outcome
dispatch none = exit 2
dispatch (some op) =
    if streq op (codes "probe")
    then call probe
    else if streq op (codes "process")
    then call process
    else if streq op (codes "frames")
    then call frames
    else if streq op (codes "version")
    then call version
    else exit 2

-- The first argument of the command line, if there is one. `parse` is cJSON_ParseWithOpts.
unfoldable pub main : (Bytes → Option Spec) → Option Bytes → Outcome
unfolding version_gate dispatch
main parse none = call report
main parse (some arg) =
    if streq arg (codes "--report")
    then call report
    else if streq arg (codes "--capabilities")
    then call capabilities
    else elim (parse arg) [
      | none ↦ exit 2
      | some spec ↦ elim (version_gate spec.version) [ some rc ↦ exit rc | none ↦ dispatch spec.op ]
    ]

-- The name that a job has for an operation; the two modes have none.
abbrev pub name_of : Op → Option Bytes
name_of report = none
name_of capabilities = none
name_of probe = some (codes "probe")
name_of process = some (codes "process")
name_of frames = some (codes "frames")
name_of version = some (codes "version")

-- A version that this engine can run: none, or a whole number from 0 to vocab_version.
abbrev pub IsSupported : Version → Type 0
IsSupported null = Unit
IsSupported not_number = ⊥
IsSupported (number n) =
    (n.is_whole ≡ true) × (n.is_negative ≡ false) × (n.valueint ≤ℤ vocab_version)

dispatch-name_of : (o : Op) → name_of o ≢ none → dispatch (name_of o) ≡ call o
unfolding dispatch streq
dispatch-name_of report h = absurd (h refl)
dispatch-name_of capabilities h = absurd (h refl)
dispatch-name_of probe h = refl
dispatch-name_of process h = refl
dispatch-name_of frames h = refl
dispatch-name_of version h = refl

version_gate_lem :
    (v : Version)
    → (IsSupported v × (version_gate v ≡ none))
      ⊎ ((¬ IsSupported v) × (rc : ℕ) × (version_gate v ≡ some rc) × (2 ≤ rc) × (rc ≤ 3))
unfolding version_gate
version_gate_lem null = inl (tt, refl)
version_gate_lem not_number = inr (λ b. b, 2, refl, omega arith, omega arith)
version_gate_lem (number n) = elim (Bool-cases (not n.is_whole || n.is_negative)) [
  | inl e ↦ inr (λ (w, g, l). ground (arith, e, w, g), 2, if_true _ _ e, omega arith, omega arith)
  | inr e ↦ elim (Bool-cases (ltb_ℤ vocab_version n.valueint)) [
    | inl f ↦ inr (
      λ (w, g, l). ground (arith, f, l),
      3,
      if_false _ _ e ∙ if_true _ _ f,
      omega arith,
      omega arith,
    )
    | inr f ↦
        inl (
          (ground (arith, e), ground (arith, e), ground (arith, f)),
          if_false _ _ e ∙ if_false _ _ f,
        )
  ]
]

-- An argument that is a job specification naming the operation `o` reaches `o` if the version in
-- it is one that this engine can run, and otherwise ends with exit code 2 or 3 and reaches
-- no operation.
pub main-IsSupported :
    (parse : Bytes → Option Spec) (arg : Bytes) (v : Version) (o : Op)
    → streq arg (codes "--report") ≡ false
    → streq arg (codes "--capabilities") ≡ false
    → name_of o ≢ none
    → parse arg ≡ some (record { version = v; op = name_of o })
    → (IsSupported v × (main parse (some arg) ≡ call o))
      ⊎ ((¬ IsSupported v) × (rc : ℕ) × (main parse (some arg) ≡ exit rc) × (2 ≤ rc) × (rc ≤ 3))
unfolding main
main-IsSupported parse arg v o r c n p = elim (version_gate_lem v) [
  | inl (s, g) ↦ inl (
    s,
    if_false _ _ r ∙ if_false _ _ c ∙ ap job p ∙ ap (gated (name_of o)) g ∙ dispatch-name_of o n,
  )
  | inr (s, rc, g, lo, hi) ↦
      inr (s, rc, if_false _ _ r ∙ if_false _ _ c ∙ ap job p ∙ ap (gated (name_of o)) g, lo, hi)
]
  where
    gated : Option Bytes → Option ℕ → Outcome
    gated op (some rc) = exit rc
    gated op none = dispatch op

    job : Option Spec → Outcome
    job none = exit 2
    job (some spec) = gated spec.op (version_gate spec.version)
