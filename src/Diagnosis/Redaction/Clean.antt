-- ===== src/Diagnosis/Redaction/Clean.antt =====
-- What redaction leaves (`redactValue` of tools/viewer/web/diagnostic_snapshot.js).
use open_fpgastudio.Base.{
  ℕ, ◌+◌, ◌≡◌, refl, Bool, true, false, Bool-cases, inl, inr, not, ◌&&◌, ◌||◌, Option, none, some,
  List, [], ◌∷◌, ◌++◌, if◌then◌else◌,
}
use open_fpgastudio.Base.Texts.{Text, codes, dec}
use open_fpgastudio.Base.Dict.{same_text}
use open_fpgastudio.Diagnosis.Json.{
  Value, Items, Fields, null, bool, num, str, arr, obj, nil, cons, end, field, as_text, texts,
}
use open_fpgastudio.Diagnosis.Redaction.{
  Profile, local_export, provider_preview, is_preview, is_sensitive, mask, redact_value,
  redact_items, redact_fields,
}

-- Whether a text is the mask.
abbrev pub is_mask : Option Text → Bool
is_mask none = false
is_mask (some t) = same_text t (codes "[REDACTED]")

-- No sensitive field is left in a value, however deep, but one that holds the mask of an export.
unfoldable mutual
  pub is_clean : Profile → Value → Bool
  is_clean profile null = true
  is_clean profile (bool b) = true
  is_clean profile (num n) = true
  is_clean profile (str t) = true
  is_clean profile (arr items) = are_clean profile items
  is_clean profile (obj fields) = fields_clean profile fields

  pub are_clean : Profile → Items → Bool
  are_clean profile nil = true
  are_clean profile (cons item items) = is_clean profile item && are_clean profile items

  pub fields_clean : Profile → Fields → Bool
  fields_clean profile end = true
  fields_clean profile (field key item fields) =
      (not (is_sensitive profile key (as_text item))
        || (not (is_preview profile) && is_mask (as_text item)))
      && (is_clean profile item && fields_clean profile fields)

as_text-redact :
    (profile : Profile) (path : Text) (v : Value)
    → as_text (redact_value profile path v).0 ≡ as_text v
unfolding redact_value
as_text-redact profile path null = refl
as_text-redact profile path (bool b) = refl
as_text-redact profile path (num n) = refl
as_text-redact profile path (str t) = refl
as_text-redact profile path (arr items) = refl
as_text-redact profile path (obj fields) = refl

mask_lem : is_mask (as_text mask) ≡ true
unfolding same_text
mask_lem = refl

and_parts : (a b : Bool) → (a && b) ≡ true → (a ≡ true) × (b ≡ true)
and_parts true b h = (refl, h)
and_parts false b h = cc

not_lem : (b : Bool) → (not b || false) ≡ true → b ≡ false
not_lem true h = cc
not_lem false h = refl

masked_lem : (s : Bool) → (not s || true) ≡ true
masked_lem true = refl
masked_lem false = refl

-- A field that is sensitive, when what follows it is clean.
dropped-clean :
    (profile : Profile) (key : Text) (fields : Fields)
    → fields_clean profile fields ≡ true
    → fields_clean profile (if is_preview profile then fields else field key mask fields) ≡ true
unfolding fields_clean is_clean
dropped-clean local_export key fields h =
    rw (mask_lem, masked_lem (is_sensitive local_export key (as_text mask)), h)
dropped-clean provider_preview key fields h = h

mutual
  unfolding redact_value redact_items redact_fields is_clean are_clean fields_clean

  value-clean :
      (profile : Profile) (path : Text) (v : Value)
      → is_clean profile (redact_value profile path v).0 ≡ true
  value-clean profile path null = refl
  value-clean profile path (bool b) = refl
  value-clean profile path (num n) = refl
  value-clean profile path (str t) = refl
  value-clean profile path (arr items) = items-clean profile path 0 items
  value-clean profile path (obj fields) = fields-clean_lem profile path fields

  items-clean :
      (profile : Profile) (path : Text) (index : ℕ) (items : Items)
      → are_clean profile (redact_items profile path index items).0 ≡ true
  items-clean profile path index nil = refl
  items-clean profile path index (cons item items) = rw (
    value-clean profile (path ++ codes "/" ++ dec index) item,
    items-clean profile path (index + 1) items,
  )

  fields-clean_lem :
      (profile : Profile) (path : Text) (fields : Fields)
      → fields_clean profile (redact_fields profile path fields).0 ≡ true
  fields-clean_lem profile path end = refl
  fields-clean_lem profile path (field key item fields) =
      let item_path : Text = path ++ codes "/" ++ key in
      let rest = fields-clean_lem profile path fields in
      elim (Bool-cases (is_sensitive profile key (as_text item))) [
        | inl e ↦ rw e (dropped-clean profile key _ rest)
        | inr e ↦
            rw (
              e,
              as_text-redact profile item_path item,
              e,
              value-clean profile item_path item,
              rest,
            )
      ]

-- What stays when there is nothing to take out.
mutual
  unfolding redact_value redact_items redact_fields is_clean are_clean fields_clean

  value-kept :
      (path : Text) (v : Value)
      → is_clean provider_preview v ≡ true
      → redact_value provider_preview path v ≡ (v, [])
  value-kept path null h = refl
  value-kept path (bool b) h = refl
  value-kept path (num n) h = refl
  value-kept path (str t) h = refl
  value-kept path (arr items) h = rw (items-kept path 0 items h)
  value-kept path (obj fields) h = rw (fields-kept path fields h)

  items-kept :
      (path : Text) (index : ℕ) (items : Items)
      → are_clean provider_preview items ≡ true
      → redact_items provider_preview path index items ≡ (items, [])
  items-kept path index nil h = refl
  items-kept path index (cons item items) h =
      let parts = and_parts (is_clean provider_preview item) _ h in
      rw (
        value-kept (path ++ codes "/" ++ dec index) item parts.0,
        items-kept path (index + 1) items parts.1,
      )

  fields-kept :
      (path : Text) (fields : Fields)
      → fields_clean provider_preview fields ≡ true
      → redact_fields provider_preview path fields ≡ (fields, [])
  fields-kept path end h = refl
  fields-kept path (field key item fields) h =
      let outer = and_parts _ _ h in
      let inner = and_parts (is_clean provider_preview item) _ outer.1 in
      let plain : is_sensitive provider_preview key (as_text item) ≡ false = not_lem _ outer.0 in
      rw
        (plain, value-kept (path ++ codes "/" ++ key) item inner.0, fields-kept path fields inner.1)

-- A value without a sensitive field comes through the redaction for a provider as it is, with nothing
-- in the audit.
pub redact_value_kept :
    (path : Text) (v : Value)
    → is_clean provider_preview v ≡ true
    → redact_value provider_preview path v ≡ (v, [])
redact_value_kept path v h = value-kept path v h

texts_pass :
    (profile : Profile) (path : Text) (index : ℕ) (ts : List Text)
    → redact_items profile path index (texts ts) ≡ (texts ts, [])
unfolding redact_items
texts_pass profile path index [] = refl
texts_pass profile path index (t ∷ ts) = rw (texts_pass profile path (index + 1) ts)

-- Whatever a value holds, after redaction no field of any object in it is sensitive, but for one that
-- holds the mask in a local export. The strings of an array are never taken out, whatever they hold, a
-- path or a serial device too: the array comes through as it is, and the audit says nothing.
pub redact_value_cases :
    (profile : Profile) (path : Text) (v : Value) (ts : List Text)
    → (is_clean profile (redact_value profile path v).0 ≡ true)
      × (redact_value profile path (arr (texts ts)) ≡ (arr (texts ts), []))
redact_value_cases profile path v ts =
    (value-clean profile path v, unfold redact_value in rw (texts_pass profile path 0 ts))
