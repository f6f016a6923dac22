-- ===== src/Pkcs11/Uri/Accepts.antt =====
-- Which PKCS #11 URIs describe a key.
use skc_library.Base.{
  ℕ, ◌≤◌, ◌≡◌, ◌⊎◌, ◌↔◌, refl, true, false, Option, none, some, Str, arith, codes, length, ◌==◌,
  beq_bytes_iff, contains, c_str, get_or, if◌then◌else◌, Bool-cases, inl, inr, sym, ap,
}
use skc_library.Pkcs11.Cryptoki.{cko_secret_key, cko_private_key}
use skc_library.Pkcs11.Label.{utf8_to_char}
use skc_library.Pkcs11.Uri.{
  P11Uri, UriData, uri_id, uri_type, uri_pin, uri_token, uri_fields, uri_to_uri_data,
  kms_prefix_token,
}

-- A description from its parts.
abbrev pub described : Str → Str → Str → Str → ℕ → UriData
described name label id pin type = record {
  token_label = some name;
  key_label = some label;
  key_id = some id;
  pin = some pin;
  type = type;
  slot_id = 0;
}

record Parts (l i p n : Option Str) (t : Option ℕ) (d : UriData) : Type 0 where
  label : Str
  id : Str
  pin : Str
  name : Str
  type : ℕ
  is_label : l ≡ some label
  is_id : i ≡ some id
  is_pin : p ≡ some pin
  is_name : n ≡ some name
  is_type : t ≡ some type
  is_described : d ≡ described name label id pin type

abbrev combine : Option Str → Option Str → Option ℕ → Option Str → Option Str → Option UriData
combine l i t p n = elim l [
  | none ↦ none
  | some label ↦ elim i [
    | none ↦ none
    | some id ↦ elim t [
      | none ↦ none
      | some type ↦ elim p [
        | none ↦ none
        | some pin ↦ elim n [ none ↦ none | some name ↦ some (described name label id pin type) ]
      ]
    ]
  ]
]

or_else : UriData → Option UriData → UriData
or_else d none = d
or_else d (some e) = e

impossible : (d : UriData) → Path (Option UriData) none (some d) → ⊥
impossible d h = ground (arith, h)

parts :
    (l i p n : Option Str) (t : Option ℕ) (d : UriData)
    → combine l i t p n ≡ some d
    → Parts l i p n t d
unfolding or_else
parts none i p n t d h = absurd (impossible d h)
parts (some l) none p n t d h = absurd (impossible d h)
parts (some l) (some i) p n none d h = absurd (impossible d h)
parts (some l) (some i) none n (some t) d h = absurd (impossible d h)
parts (some l) (some i) (some p) none (some t) d h = absurd (impossible d h)
parts (some l) (some i) (some p) (some n) (some t) d h = record {
  label = l;
  id = i;
  pin = p;
  name = n;
  type = t;
  is_label = refl;
  is_id = refl;
  is_pin = refl;
  is_name = refl;
  is_type = refl;
  is_described = sym (ap (or_else d) h);
}

-- What the source asks of a URI and its parts.
pub record Describes (uri : Str) (u : P11Uri) (name label id pin : Str) (type : ℕ) : Type 0 where
  pub has_label : u.label ≡ some label
  pub has_id : u.id ≡ some id
  pub long_id : 36 ≤ length id
  pub says_type : contains (codes "type=") uri ≡ true
  pub has_class : u.class ≡ some type
  pub key_class : (type ≡ cko_secret_key) ⊎ (type ≡ cko_private_key)
  pub has_pin : u.pin_value ≡ some pin
  pub pin_size : (4 ≤ length pin) × (length pin ≤ 255)
  pub has_name : utf8_to_char u.token_label ≡ some name
  pub kms : c_str name ≡ kms_prefix_token
  pub starts : get_or u.token_label 0 0 ≡ 0 → ⊥

module _ (uri : Str) (u : P11Uri) where
  uri_id_sound : (id : Str) → uri_id u ≡ some id → (u.id ≡ some id) × (36 ≤ length id)
  unfolding uri_id
  uri_id_sound id h = ground (arith, h)

  uri_id_complete : (id : Str) → u.id ≡ some id → 36 ≤ length id → uri_id u ≡ some id
  unfolding uri_id
  uri_id_complete id h l = ground (arith, h)

  uri_pin_sound :
      (pin : Str)
      → uri_pin u ≡ some pin
      → (u.pin_value ≡ some pin) × (4 ≤ length pin) × (length pin ≤ 255)
  unfolding uri_pin
  uri_pin_sound pin h = ground (arith, h)

  uri_pin_complete :
      (pin : Str)
      → u.pin_value ≡ some pin
      → 4 ≤ length pin
      → length pin ≤ 255
      → uri_pin u ≡ some pin
  unfolding uri_pin
  uri_pin_complete pin h l m = ground (arith, h)

  uri_type_sound :
      (type : ℕ)
      → uri_type uri u ≡ some type
      → (contains (codes "type=") uri ≡ true)
        × (u.class ≡ some type)
        × ((type ≡ cko_secret_key) ⊎ (type ≡ cko_private_key))
  unfolding uri_type
  uri_type_sound type h = ground (arith, h)

  uri_type_complete :
      (type : ℕ)
      → contains (codes "type=") uri ≡ true
      → u.class ≡ some type
      → (type ≡ cko_secret_key) ⊎ (type ≡ cko_private_key)
      → uri_type uri u ≡ some type
  unfolding uri_type
  uri_type_complete type c h k = ground (arith, h, c, k)

  uri_token_sound :
      (name : Str)
      → uri_token u ≡ some name
      → (utf8_to_char u.token_label ≡ some name) × (c_str name ≡ kms_prefix_token)
  unfolding uri_token
  uri_token_sound name h = ground (arith, h, beq_bytes_iff (c_str name) kms_prefix_token)

  uri_token_complete :
      (name : Str)
      → utf8_to_char u.token_label ≡ some name
      → c_str name ≡ kms_prefix_token
      → uri_token u ≡ some name
  unfolding uri_token
  uri_token_complete name h k = ground (arith, h, k, beq_bytes_iff (c_str name) kms_prefix_token)

-- A URI that the parser reads into parts that describe a key, and its description.
pub record Accepted (parse : Str → Option P11Uri) (uri : Str) (d : UriData) : Type 0 where
  pub u : P11Uri
  pub name : Str
  pub label : Str
  pub id : Str
  pub pin : Str
  pub type : ℕ
  pub parsed : parse uri ≡ some u
  pub describes : Describes uri u name label id pin type
  pub description : d ≡ described name label id pin type

module _ (parse : Str → Option P11Uri) (uri : Str) (d : UriData) where
  fields_sound :
      (u : P11Uri)
      → parse uri ≡ some u
      → (get_or u.token_label 0 0 ≡ 0 → ⊥)
      → uri_fields uri u ≡ some d
      → Accepted parse uri d
  unfolding uri_fields
  fields_sound u parsed starts h =
      let q = parts u.label (uri_id u) (uri_pin u) (uri_token u) (uri_type uri u) d h in
      let (has_id, long_id) = uri_id_sound uri u q.id q.is_id in
      let (says_type, has_class, key_class) = uri_type_sound uri u q.type q.is_type in
      let (has_pin, low, high) = uri_pin_sound uri u q.pin q.is_pin in
      let (has_name, kms) = uri_token_sound uri u q.name q.is_name in
      record {
        u = u;
        name = q.name;
        label = q.label;
        id = q.id;
        pin = q.pin;
        type = q.type;
        parsed = parsed;
        describes = record {
          has_label = q.is_label;
          has_id = has_id;
          long_id = long_id;
          says_type = says_type;
          has_class = has_class;
          key_class = key_class;
          has_pin = has_pin;
          pin_size = (low, high);
          has_name = has_name;
          kms = kms;
          starts = starts;
        };
        description = q.is_described;
      }

  sound : uri_to_uri_data parse uri ≡ some d → Accepted parse uri d
  unfolding uri_to_uri_data
  sound h = by_parse (parse uri) refl h
    where
      by_parse :
          (o : Option P11Uri)
          → parse uri ≡ o
          → (elim o as (λ _. Option UriData) [
            | none ↦ none
            | some u ↦ if get_or u.token_label 0 0 == 0 then none else uri_fields uri u
          ])
            ≡ some d
          → Accepted parse uri d
      by_parse none e h = absurd (impossible d h)
      by_parse (some u) e h = elim (Bool-cases (get_or u.token_label 0 0 == 0)) [
        | inl k ↦ absurd (ground (arith, h, k))
        | inr k ↦ fields_sound u e (λ z. ground (arith, z, k)) (ground (arith, h, k))
      ]

  starts_ok :
      (u : P11Uri) → (get_or u.token_label 0 0 ≡ 0 → ⊥) → (get_or u.token_label 0 0 == 0) ≡ false
  starts_ok u h = ground (arith, h)

  complete : Accepted parse uri d → uri_to_uri_data parse uri ≡ some d
  unfolding uri_to_uri_data uri_fields
  complete x =
      let s = x.describes in
      rw
        (
          uri_to_uri_data,
          x.parsed,
          starts_ok x.u s.starts,
          uri_fields,
          s.has_label,
          uri_id_complete uri x.u x.id s.has_id s.long_id,
          uri_type_complete uri x.u x.type s.says_type s.has_class s.key_class,
          uri_pin_complete uri x.u x.pin s.has_pin s.pin_size.0 s.pin_size.1,
          uri_token_complete uri x.u x.name s.has_name s.kms,
          x.description,
        )
        refl

  -- A description is made of a URI exactly if it parses and names the token KMS, a key label, a key
  -- identifier of at least 36 bytes, the type private or secret, and a pin of 4 to 255 characters;
  -- and then it holds just these.
  pub uri_to_uri_data-Accepted : (uri_to_uri_data parse uri ≡ some d) ↔ Accepted parse uri d
  uri_to_uri_data-Accepted = (sound, complete)
