-- ===== src/Process/Spec/Tree.antt =====
-- A concrete parser's items, doubles and dictionaries, for the tests of src/process.c.
use ffmpeg_wasi.Base.{
  ◌≡◌, refl, sym, ap, ℕ, ◌*◌, Bool, true, false, List, [], ◌∷◌, ◌++◌, Option, none, some, arith,
  ltb, length, if◌then◌else◌,
}
use ffmpeg_wasi.Base.Int.{pos}
use ffmpeg_wasi.Base.Text.{Bytes, streq}
use ffmpeg_wasi.Av.{einval, Result, ok, err}
use ffmpeg_wasi.Process.Spec.{Json, Doubles}
use ffmpeg_wasi.Process.Spec.Options.{Dictionary}
use ffmpeg_wasi.Process.Spec.Assigned.{IsDictionary, otherwise}

mutual
  pub data Value : Type 0 where
    yes : Value
    number : ℕ → Value
    string : Bytes → Value
    array : Fields → Value
    object : Fields → Value

  pub data Fields : Type 0 where
    end : Fields
    field : Bytes → Value → Fields → Fields

abbrev pub lookup : Fields → Bytes → Option Value
lookup end name = none
lookup (field k v fs) name = let rest = lookup fs name in if streq k name then some v else rest

abbrev pub named_children : Fields → List (Option Bytes × Value)
named_children end = []
named_children (field k v fs) = (some k, v) ∷ named_children fs

abbrev pub unnamed_children : Fields → List (Option Bytes × Value)
unnamed_children end = []
unnamed_children (field k v fs) = (none, v) ∷ unnamed_children fs

abbrev pub children_in : Value → List (Option Bytes × Value)
children_in (array fs) = unnamed_children fs
children_in (object fs) = named_children fs
children_in _ = []

abbrev pub item_in : Value → Bytes → Option Value
item_in (object fs) name = lookup fs name
item_in _ name = none

abbrev pub is_object_value : Value → Bool
is_object_value (object fs) = true
is_object_value _ = false

abbrev pub is_array_value : Value → Bool
is_array_value (array fs) = true
is_array_value _ = false

abbrev pub is_yes : Value → Bool
is_yes yes = true
is_yes _ = false

abbrev pub text_in : Value → Option Bytes
text_in (string s) = some s
text_in _ = none

abbrev pub number_in : Value → Option ℕ
number_in (number n) = some n
number_in _ = none

abbrev pub tree : Json Value ℕ
tree = record {
  get_object_item = item_in;
  children = children_in;
  is_object = is_object_value;
  is_array = is_array_value;
  is_true = is_yes;
  string_of = text_in;
  number_of = number_in;
}

-- Whole seconds.
abbrev pub whole : Doubles ℕ
whole = record {
  is_finite = λ n. true;
  origin = 0;
  spec_seconds_max = 32000000000;
  less = ltb;
  micros = λ n. pos (n * 1000000);
}

abbrev pub set_entry : List (Bytes × Bytes) → Option Bytes → Bytes → Result (List (Bytes × Bytes))
set_entry d none v = err einval
set_entry d (some k) v = ok ((k, v) ∷ d)

abbrev pub entries : Dictionary (List (Bytes × Bytes))
entries = record { null = []; dict_set = set_entry; dict_copy = λ d e. e ++ d; dict_count = length }

abbrev pub entry : List (Bytes × Bytes) → Bytes → Option Bytes
entry [] q = none
entry ((k, v) ∷ d) q = if streq k q then some v else entry d q

abbrev pub entry_of : Result (List (Bytes × Bytes)) → Bytes → Option Bytes
entry_of (err code) q = none
entry_of (ok d) q = entry d q

entry_append :
    (d e : List (Bytes × Bytes)) (q : Bytes) → entry (e ++ d) q ≡ otherwise (entry e q) (entry d q)
entry_append d [] q = refl
entry_append d ((k, v) ∷ e) q = branch (streq k q) (entry_append d e q)
  where
    branch :
        (b : Bool)
        → entry (e ++ d) q ≡ otherwise (entry e q) (entry d q)
        → (if b then some v else entry (e ++ d) q)
          ≡ otherwise (if b then some v else entry e q) (entry d q)
    branch true p = refl
    branch false p = p

err_ne_ok : (d : List (Bytes × Bytes)) → ¬ err einval ≡ ok d
err_ne_ok d e = ground (arith, e)

pub entries-IsDictionary : IsDictionary entries streq entry
entries-IsDictionary = record {
  get-null = λ q. refl;
  set_unnamed = λ d e v p. err_ne_ok e p;
  get-set = λ d e k v q p. ap (λ r. entry_of r q) (sym p);
  get-copy = λ d e q. entry_append d e q;
}
