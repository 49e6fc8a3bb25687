-- ===== src/Diagnosis/Canonical.antt =====
-- `canonicalize` of tools/viewer/web/diagnostic_snapshot.js, and the ids of evidence that `stableId` makes
-- of it. How `JSON.stringify` writes a string and a finite number are parameters. A value has no
-- `undefined` in it, as those that come from JSON.
pub mod Shuffle
use open_fpgastudio.Base.{
  ℕ, ◌*◌, ◌^◌, ◌%◌, Bool, true, false, Option, none, some, List, [], ◌∷◌, ◌++◌, map, ltb, ◌==◌,
  if◌then◌else◌, bit_xor,
}
use open_fpgastudio.Base.Texts.{Text, codes, to_text, pad_start}
use open_fpgastudio.Page.{join}
use open_fpgastudio.Diagnosis.Json.{
  Number, Value, Items, Fields, null, bool, num, str, arr, obj, nil, cons, end, field,
}
use open_fpgastudio.Diagnosis.Redaction.{lower}

pub record Printer : Type 0 where
  pub of_string : Text → Text
  pub of_number : Number → Text

-- The order in which `sort` puts keys.
unfoldable pub before : Text → Text → Bool
before [] [] = false
before [] (d ∷ t) = true
before (c ∷ s) [] = false
before (c ∷ s) (d ∷ t) =
    let rest = before s t in if ltb c d then true else if ltb d c then false else rest

-- A key with the canonical text of its value.
abbrev pub KeyText : Type 0
KeyText = Text × Text

-- A field takes its place among those that are sorted.
unfoldable pub insert_key : KeyText → List KeyText → List KeyText
unfolding before
insert_key x [] = x ∷ []
insert_key x (y ∷ ys) =
    let rest = insert_key x ys in if before x.0 y.0 then x ∷ y ∷ ys else y ∷ rest

abbrev pub add_text : Option Text → Option (List Text) → Option (List Text)
add_text (some t) (some ts) = some (t ∷ ts)
add_text _ _ = none

abbrev pub add_key : Text → Option Text → Option (List KeyText) → Option (List KeyText)
add_key key (some t) (some xs) = some (insert_key (key, t) xs)
add_key key _ _ = none

abbrev pub between : Text → Text → List Text → Text
between open_text close_text parts = open_text ++ (join (codes ",") parts ++ close_text)

-- `Math.imul(hash ^ code, prime)` for each code, as a pattern of 32 bits.
unfoldable pub hash_text : ℕ → ℕ → Text → ℕ
hash_text prime hash [] = hash
hash_text prime hash (c ∷ cs) = hash_text prime ((bit_xor hash c * prime) % 2 ^ 32) cs

-- `(value >>> 0).toString(16).padStart(8, "0")`
unfoldable pub hash_digits : ℕ → Text
hash_digits n = pad_start 8 (lower (to_text 16 n))

unfoldable pub evidence_text : Text → Text
unfolding hash_text hash_digits
evidence_text input =
    codes "ev_"
    ++ (hash_digits (hash_text 16777619 2166136261 input)
        ++ hash_digits (hash_text 3266489909 2246822507 input))

abbrev pub id_of_text : Option Text → Option Text
id_of_text none = none
id_of_text (some input) = some (evidence_text input)

module _ (p : Printer) where
  abbrev pub array_text : Option (List Text) → Option Text
  array_text none = none
  array_text (some parts) = some (between (codes "[") (codes "]") parts)

  abbrev pub object_text : Option (List KeyText) → Option Text
  object_text none = none
  object_text (some keys) = some (
      between (codes "{") (codes "}")
        (map (λ (x : KeyText). p.of_string x.0 ++ (codes ":" ++ x.1)) keys))

  -- `canonicalize`; `none` where it throws.
  unfoldable mutual
    unfolding insert_key

    pub canonicalize : Value → Option Text
    canonicalize null = some (codes "null")
    canonicalize (bool b) = some (if b then codes "true" else codes "false")
    canonicalize (num n) = if n.bottom == 0 then none else some (p.of_number n)
    canonicalize (str t) = some (p.of_string t)
    canonicalize (arr items) = array_text (canonical_items items)
    canonicalize (obj fields) = object_text (canonical_fields fields)

    pub canonical_items : Items → Option (List Text)
    canonical_items nil = some []
    canonical_items (cons v items) = add_text (canonicalize v) (canonical_items items)

    pub canonical_fields : Fields → Option (List KeyText)
    canonical_fields end = some []
    canonical_fields (field key v fields) = add_key key (canonicalize v) (canonical_fields fields)

  -- `stableId` with the prefix "ev"; `none` where it throws.
  unfoldable pub evidence_id : Value → Option Text
  unfolding canonicalize evidence_text
  evidence_id v = id_of_text (canonicalize v)
