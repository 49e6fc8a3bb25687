-- ===== src/Diagnosis/Redaction.antt =====
-- Redaction of a snapshot: `redactValue` of tools/viewer/web/diagnostic_snapshot.js. The hash that
-- `redact` renews is left out.
pub mod Clean
use open_fpgastudio.Base.{
  ℕ, suc, ◌+◌, Bool, true, false, not, ◌&&◌, ◌||◌, Option, none, some, List, [], ◌∷◌, ◌++◌, leb,
  ◌==◌, if◌then◌else◌,
}
use open_fpgastudio.Base.Texts.{Text, codes, dec}
use open_fpgastudio.Base.Dict.{same_text}
use open_fpgastudio.Diagnosis.Json.{
  Value, Items, Fields, null, bool, num, str, arr, obj, nil, cons, end, field, as_text,
}

pub data Profile : Type 0 where
  local_export provider_preview : Profile

abbrev pub is_preview : Profile → Bool
is_preview local_export = false
is_preview provider_preview = true

unfoldable pub is_upper : ℕ → Bool
is_upper c = leb b'A' c && leb c b'Z'

unfoldable pub is_letter : ℕ → Bool
unfolding is_upper
is_letter c = is_upper c || (leb b'a' c && leb c b'z')

unfoldable pub is_digit : ℕ → Bool
is_digit c = leb b'0' c && leb c b'9'

-- `toLowerCase`, on the letters of the keys that are looked for.
unfoldable pub lower : Text → Text
unfolding is_upper
lower [] = []
lower (c ∷ cs) = (if is_upper c then c + 32 else c) ∷ lower cs

-- `/^prefix/`
unfoldable pub starts_with : Text → Text → Bool
starts_with [] t = true
starts_with (p ∷ ps) [] = false
starts_with (p ∷ ps) (c ∷ cs) = p == c && starts_with ps cs

-- `text.includes(part)`
unfoldable pub includes : Text → Text → Bool
unfolding starts_with
includes part [] = starts_with part []
includes part (c ∷ cs) = starts_with part (c ∷ cs) || includes part cs

-- `/^(?:[A-Za-z]:[\\/]|\/)/`
unfoldable pub is_absolute : Text → Bool
unfolding is_letter starts_with
is_absolute (a ∷ b ∷ c ∷ cs) =
    a == b'/' || (is_letter a && (b == b':' && (c == b'\\' || c == b'/')))
is_absolute t = starts_with (codes "/") t

unfoldable pub all_digits : Text → Bool
unfolding is_digit
all_digits [] = true
all_digits (c ∷ cs) = is_digit c && all_digits cs

-- `/^COM\d+$/i`
unfoldable pub is_com_port : Text → Bool
unfolding lower all_digits
is_com_port (a ∷ b ∷ c ∷ d ∷ ds) =
    same_text (lower (a ∷ b ∷ c ∷ [])) (codes "com") && all_digits (d ∷ ds)
is_com_port t = false

unfoldable pub is_serial_device : Text → Bool
unfolding is_com_port starts_with
is_serial_device t = is_com_port t || starts_with (codes "/dev/") t

abbrev pub sensitive_keys : List Text
sensitive_keys =
    codes "project"
    ∷ codes "project_name"
    ∷ codes "serial_port"
    ∷ codes "device_path"
    ∷ codes "note"
    ∷ codes "notes"
    ∷ codes "comment"
    ∷ []

unfoldable pub contains : List Text → Text → Bool
contains [] t = false
contains (k ∷ ks) t = same_text k t || contains ks t

-- `typeof item === "string" && …`
abbrev pub text_is : (Text → Bool) → Option Text → Bool
text_is test none = false
text_is test (some t) = test t

-- `sensitive`, from the key and the string that the item is, if it is one.
unfoldable pub is_sensitive : Profile → Text → Option Text → Bool
unfolding contains lower includes is_absolute is_serial_device
is_sensitive profile key item =
    contains sensitive_keys (lower key)
    || text_is is_absolute item
    || text_is is_serial_device item
    || (is_preview profile && includes (codes "text") (lower key))

pub data Action : Type 0 where
  removed masked : Action

pub data Reason : Type 0 where
  absolute_path serial_device sensitive_field : Reason

pub record AuditEntry : Type 0 where
  pub path : Text
  pub action : Action
  pub reason : Reason

unfoldable pub audit_entry : Profile → Text → Option Text → AuditEntry
unfolding is_absolute is_serial_device
audit_entry profile path item = record {
  path = path;
  action = if is_preview profile then removed else masked;
  reason =
      if text_is is_absolute item
      then absolute_path
      else if text_is is_serial_device item
      then serial_device
      else sensitive_field;
}

abbrev pub mask : Value
mask = str (codes "[REDACTED]")

-- `redactValue`, with what it adds to the audit.
unfoldable mutual
  unfolding audit_entry

  pub redact_value : Profile → Text → Value → Value × List AuditEntry
  redact_value profile path null = (null, [])
  redact_value profile path (bool b) = (bool b, [])
  redact_value profile path (num n) = (num n, [])
  redact_value profile path (str t) = (str t, [])
  redact_value profile path (arr items) =
      let done = redact_items profile path 0 items in (arr done.0, done.1)
  redact_value profile path (obj fields) =
      let done = redact_fields profile path fields in (obj done.0, done.1)

  pub redact_items : Profile → Text → ℕ → Items → Items × List AuditEntry
  redact_items profile path index nil = (nil, [])
  redact_items profile path index (cons item items) =
      let first = redact_value profile (path ++ codes "/" ++ dec index) item in
      let others = redact_items profile path (index + 1) items in
      (cons first.0 others.0, first.1 ++ others.1)

  pub redact_fields : Profile → Text → Fields → Fields × List AuditEntry
  redact_fields profile path end = (end, [])
  redact_fields profile path (field key item fields) =
      let item_path = path ++ codes "/" ++ key in
      let entry = audit_entry profile item_path (as_text item) in
      let others = redact_fields profile path fields in
      let inner = redact_value profile item_path item in
      if is_sensitive profile key (as_text item)
      then (if is_preview profile then others.0 else field key mask others.0, entry ∷ others.1)
      else (field key inner.0 others.0, inner.1 ++ others.1)
