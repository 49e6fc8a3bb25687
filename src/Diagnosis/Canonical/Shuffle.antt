-- ===== src/Diagnosis/Canonical/Shuffle.antt =====
-- Canonical texts do not depend on the order of an object's fields (`canonicalize` and `stableId` of
-- tools/viewer/web/diagnostic_snapshot.js).
use open_fpgastudio.Base.{
  ◌≡◌, ◌≢◌, refl, ap, ◌∙◌, true, not, Bool-cases, inl, inr, Option, none, some, List, [], ◌∷◌, ◌==◌,
  arith, ==_iff,
}
use open_fpgastudio.Base.Texts.{Text}
use open_fpgastudio.Diagnosis.Json.{Value, Items, Fields, arr, obj, nil, cons, end, field}
use open_fpgastudio.Diagnosis.Canonical.{
  Printer, before, KeyText, insert_key, add_text, add_key, array_text, object_text, canonicalize,
  canonical_items, canonical_fields, id_of_text, evidence_id,
}

before_trans : (r s t : Text) → before r s ≡ true → before s t ≡ true → before r t ≡ true
unfolding before
before_trans [] [] t h k = cc
before_trans [] (d ∷ s) [] h k = cc
before_trans [] (d ∷ s) (e ∷ t) h k = refl
before_trans (c ∷ r) [] t h k = cc
before_trans (c ∷ r) (d ∷ s) [] h k = cc
before_trans (c ∷ r) (d ∷ s) (e ∷ t) h k = ground (arith, before_trans r s t)

before_other : (s t : Text) → s ≢ t → before s t ≡ not (before t s)
unfolding before
before_other [] [] h = absurd (h refl)
before_other [] (d ∷ t) h = refl
before_other (c ∷ s) [] h = refl
before_other (c ∷ s) (d ∷ t) h = elim (Bool-cases (c == d)) [
  | inl same ↦
      let e : c ≡ d = (==_iff c d).0 same in
      let rest : before s t ≡ not (before t s) =
        before_other s t (λ tails. h (λ i. e i ∷ tails i)) in
      ground arith
  | inr other ↦ ground arith
]

-- Two keys that differ may be put in place in either order.
insert_comm :
    (x y : KeyText) (zs : List KeyText)
    → x.0 ≢ y.0
    → insert_key x (insert_key y zs) ≡ insert_key y (insert_key x zs)
unfolding insert_key
insert_comm x y [] h = let other = before_other x.0 y.0 h in ground arith
insert_comm x y (z ∷ zs) h =
    let other = before_other x.0 y.0 h in
    ground (arith, before_trans x.0 y.0 z.0, before_trans y.0 x.0 z.0, insert_comm x y zs h)

-- One object or array in another order of its fields, at any depth.
mutual
  pub data Shuffled : Value → Value → Type 0 where
    same : (v : Value) → Shuffled v v
    in_array : {xs ys : Items} → ShuffledItems xs ys → Shuffled (arr xs) (arr ys)
    in_object : {fs gs : Fields} → ShuffledFields fs gs → Shuffled (obj fs) (obj gs)

  pub data ShuffledItems : Items → Items → Type 0 where
    no_items : ShuffledItems nil nil
    each_item :
        {v w : Value} {xs ys : Items}
        → Shuffled v w
        → ShuffledItems xs ys
        → ShuffledItems (cons v xs) (cons w ys)

  pub data ShuffledFields : Fields → Fields → Type 0 where
    no_fields : ShuffledFields end end
    each_field :
        {v w : Value} {fs gs : Fields} (key : Text)
        → Shuffled v w
        → ShuffledFields fs gs
        → ShuffledFields (field key v fs) (field key w gs)
    swapped :
        (j k : Text) (v w : Value) (fs : Fields)
        → j ≢ k
        → ShuffledFields (field j v (field k w fs)) (field k w (field j v fs))
    and_then :
        {fs gs hs : Fields} → ShuffledFields fs gs → ShuffledFields gs hs → ShuffledFields fs hs

add_key_comm :
    (j k : Text) (a b : Option Text) (xs : Option (List KeyText))
    → j ≢ k
    → add_key j a (add_key k b xs) ≡ add_key k b (add_key j a xs)
add_key_comm j k (some a) (some b) (some xs) h = ap some (insert_comm (j, a) (k, b) xs h)
add_key_comm j k (some a) (some b) none h = refl
add_key_comm j k (some a) none (some xs) h = refl
add_key_comm j k (some a) none none h = refl
add_key_comm j k none (some b) (some xs) h = refl
add_key_comm j k none (some b) none h = refl
add_key_comm j k none none xs h = refl

module _ (p : Printer) where
  mutual
    unfolding canonicalize canonical_items canonical_fields

    canonical_same : {v w : Value} → Shuffled v w → canonicalize p v ≡ canonicalize p w
    canonical_same (same v) = refl
    canonical_same (in_array h) = ap (array_text p) (items_same h)
    canonical_same (in_object h) = ap (object_text p) (fields_same h)

    items_same : {xs ys : Items} → ShuffledItems xs ys → canonical_items p xs ≡ canonical_items p ys
    items_same no_items = refl
    items_same (each_item h more) = λ i. add_text (canonical_same h i) (items_same more i)

    fields_same :
        {fs gs : Fields} → ShuffledFields fs gs → canonical_fields p fs ≡ canonical_fields p gs
    fields_same no_fields = refl
    fields_same (each_field key h more) = λ i. add_key key (canonical_same h i) (fields_same more i)
    fields_same (swapped j k v w fs h) =
        add_key_comm j k (canonicalize p v) (canonicalize p w) (canonical_fields p fs) h
    fields_same (and_then a b) = fields_same a ∙ fields_same b

-- Two values that differ only in the order of the fields of objects in them, at any depth, have the same
-- canonical text, or none, and are evidence with the same id.
pub canonicalize-Shuffled :
    (p : Printer) {v w : Value}
    → Shuffled v w
    → (canonicalize p v ≡ canonicalize p w) × (evidence_id p v ≡ evidence_id p w)
canonicalize-Shuffled p h =
    let canonical = canonical_same p h in (canonical, unfold evidence_id in ap id_of_text canonical)
