-- ===== src/Process/Spec/Several.antt =====
-- src/process.c: the loop of op_process over `outputs`, with the check on several outputs.
use ffmpeg_wasi.Base.{
  Pairwise, ◌≡◌, refl, sym, ap, subst, ◌∙◌, ◌↔◌, inl, inr, ℕ, ◌+◌, ◌≤◌, ◌<◌, true, false, not, ◌&&◌,
  List, [], ◌∷◌, ◌++◌, Option, All, all, arith, length, length-append, leb, ltb, append_assoc,
  append-nil, if_elim, if_false, Bool-cases,
}
use ffmpeg_wasi.Base.Text.{Bytes}
use ffmpeg_wasi.Av.{einval}
use ffmpeg_wasi.Process.Lanes.{is_unmapped}
use ffmpeg_wasi.Process.Spec.{Json, Doubles}
use ffmpeg_wasi.Process.Spec.Options.{Dictionary}
use ffmpeg_wasi.Process.Spec.Outputs.{
  max_outputs, Out, Parse, malformed, unresolved, parsed, Reading, rejected, failed, read,
  parse_output, next_output, parse_outputs, mapped_all, check_maps, read_outputs,
}

abbrev IfRead {κ} : {A : Type 0} → (A → Type κ) → Reading A → Type κ
IfRead P (read a) = P a
IfRead P _ = Unit

module _ {J T D M : Type 0} (js : Json J T) (num : Doubles T) (dict : Dictionary D)
    (alloc : Option Bytes → Bytes → Option M) where
  abbrev pub Parses : J → Out J D M → Type 0
  Parses spec o = parse_output js num dict alloc spec ≡ parsed o

  abbrev pub AllMapped : List (Out J D M) → Type 0
  AllMapped outs = All (λ (o : Out J D M). is_unmapped o.lanes.map ≡ false) outs

  -- What the loop adds to the outputs before it.
  abbrev Extends : List J → List (Out J D M) → List (Out J D M) → Type 0
  Extends specs before outs =
      (new : List (Out J D M)) × (outs ≡ before ++ new)
      × Pairwise Parses specs new
      × (length outs ≤ max_outputs)

  parse_outputs-Extends :
      (specs : List J) (before : List (Out J D M))
      → length before ≤ max_outputs
      → IfRead (Extends specs before) (parse_outputs js num dict alloc specs before)
  unfolding parse_outputs
  parse_outputs-Extends [] before l = ([], sym (append-nil before), tt, l)
  parse_outputs-Extends (os ∷ specs) before l =
      if_elim (IfRead (Extends (os ∷ specs) before)) (leb max_outputs (length before))
        (failed einval)
        (next_output js num dict alloc (parse_outputs js num dict alloc specs) before
          (parse_output js num dict alloc os))
        (λ full. tt)
        (λ room.
          on
            (λ o.
              parse_outputs-Extends specs (before ++ (o ∷ []))
                (omega (arith, length-append before (o ∷ []), ltb_lem (length before) room)))
            (parse_output js num dict alloc os) refl)
    where
      ltb_lem : (n : ℕ) → leb max_outputs n ≡ false → n < max_outputs
      ltb_lem n e = ground arith

      cons :
          (o : Out J D M) (outs : List (Out J D M))
          → Parses os o
          → Extends specs (before ++ (o ∷ [])) outs
          → Extends (os ∷ specs) before outs
      cons o outs p (new, e, q, b) = (o ∷ new, e ∙ append_assoc before (o ∷ []) new, (p, q), b)

      weaken :
          (P Q : List (Out J D M) → Type 0) (r : Reading (List (Out J D M)))
          → ((outs : List (Out J D M)) → P outs → Q outs)
          → IfRead P r
          → IfRead Q r
      weaken P Q rejected f p = tt
      weaken P Q (failed code) f p = tt
      weaken P Q (read outs) f p = f outs p

      on :
          ((o : Out J D M)
            → IfRead
                (Extends specs (before ++ (o ∷ [])))
                (parse_outputs js num dict alloc specs (before ++ (o ∷ []))))
          → (r : Parse (Out J D M)) → parse_output js num dict alloc os ≡ r
          → IfRead
              (Extends (os ∷ specs) before)
              (next_output js num dict alloc (parse_outputs js num dict alloc specs) before r)
      on f malformed e = tt
      on f unresolved e = tt
      on f (parsed o) e =
          weaken (Extends specs (before ++ (o ∷ []))) (Extends (os ∷ specs) before)
            (parse_outputs js num dict alloc specs (before ++ (o ∷ []))) (λ outs x. cons o outs e x)
            (f o)

  parse_outputs_complete :
      (specs : List J) (before outs : List (Out J D M))
      → Pairwise Parses specs outs
      → length before + length outs ≤ max_outputs
      → parse_outputs js num dict alloc specs before ≡ read (before ++ outs)
  unfolding parse_outputs
  parse_outputs_complete [] before [] p l = ap read (sym (append-nil before))
  parse_outputs_complete [] before (o ∷ outs) p l = absurd p
  parse_outputs_complete (os ∷ specs) before [] p l = absurd p
  parse_outputs_complete (os ∷ specs) before (o ∷ outs) (p, q) l =
      if_false (failed einval)
        (next_output js num dict alloc (parse_outputs js num dict alloc specs) before
          (parse_output js num dict alloc os))
        (ground arith)
      ∙ ap (next_output js num dict alloc (parse_outputs js num dict alloc specs) before) p
      ∙ parse_outputs_complete specs (before ++ (o ∷ [])) outs q
          (omega (arith, length-append before (o ∷ [])))
      ∙ ap read (append_assoc before (o ∷ []) outs)

  all-AllMapped :
      (outs : List (Out J D M))
      → all (λ (o : Out J D M). not (is_unmapped o.lanes.map)) outs ≡ true
      → AllMapped outs
  all-AllMapped [] e = tt
  all-AllMapped (o ∷ outs) e = (ground (arith, e), all-AllMapped outs (ground (arith, e)))

  AllMapped-all :
      (outs : List (Out J D M))
      → AllMapped outs
      → all (λ (o : Out J D M). not (is_unmapped o.lanes.map)) outs ≡ true
  AllMapped-all [] a = refl
  AllMapped-all (o ∷ outs) (p, q) = ground (arith, AllMapped-all outs q)

  mapped_all_lem :
      (outs : List (Out J D M))
      → (1 < length outs → AllMapped outs)
      → mapped_all js num dict alloc outs ≡ read outs
  mapped_all_lem outs m = elim (Bool-cases (ltb 1 (length outs))) [
    | inl e ↦
        if_false (failed einval) (read outs)
          (ground (arith, AllMapped-all outs (m (ground (arith, e)))))
    | inr e ↦ if_false (failed einval) (read outs) (ground (arith, e))
  ]

  all_mapped :
      (before outs : List (Out J D M))
      → mapped_all js num dict alloc before ≡ read outs
      → (before ≡ outs) × (1 < length before → AllMapped before)
  all_mapped before outs e =
      if_elim
        (λ (r : Reading (List (Out J D M))).
          r ≡ read outs → (before ≡ outs) × (1 < length before → AllMapped before))
        (ltb 1 (length before)
          && not (all (λ (o : Out J D M). not (is_unmapped o.lanes.map)) before))
        (failed einval) (read before) (λ b x. absurd (ground (arith, x)))
        (λ b x. (ground (arith, x), λ l. all-AllMapped before (ground (arith, b, l)))) e

  -- The outputs of a job are read exactly where parse_output accepts each, in their order, there are
  -- at most 8 of them, and each has a `map` where there is more than one.
  pub read_outputs_iff :
      (specs : List J) (outs : List (Out J D M))
      → (read_outputs js num dict alloc specs ≡ read outs) ↔ (
          Pairwise Parses specs outs
          × (length outs ≤ max_outputs)
          × (1 < length outs → AllMapped outs))
  unfolding read_outputs
  read_outputs_iff specs outs = (to, from)
    where
      accepted :
          (r : Reading (List (Out J D M)))
          → IfRead (Extends specs []) r
          → check_maps js num dict alloc r ≡ read outs
          → Pairwise Parses specs outs
            × (length outs ≤ max_outputs)
            × (1 < length outs → AllMapped outs)
      accepted rejected x e = absurd (ground (arith, e))
      accepted (failed code) x e = absurd (ground (arith, e))
      accepted (read os) (new, p, q, l) e =
          let (same, m) = all_mapped os outs e in
          (
            subst (Pairwise Parses specs) (sym p ∙ same) q,
            subst (λ o. length o ≤ max_outputs) same l,
            subst (λ o. 1 < length o → AllMapped o) same m,
          )

      to :
          check_maps js num dict alloc (parse_outputs js num dict alloc specs []) ≡ read outs
          → Pairwise Parses specs outs
            × (length outs ≤ max_outputs)
            × (1 < length outs → AllMapped outs)
      to e =
          accepted (parse_outputs js num dict alloc specs [])
            (parse_outputs-Extends specs [] (omega arith)) e

      from :
          Pairwise Parses specs outs
            × (length outs ≤ max_outputs)
            × (1 < length outs → AllMapped outs)
          → check_maps js num dict alloc (parse_outputs js num dict alloc specs []) ≡ read outs
      from (p, l, m) =
          ap (check_maps js num dict alloc) (parse_outputs_complete specs [] outs p (omega arith))
          ∙ mapped_all_lem outs m
