-- ===== src/Gae/Store.antt =====
-- The parts of App Engine's datastore that server/gae uses: keys, properties, and the loop in which
-- a codec of server/gae/gae_codec.go loads properties.
use bitwrk.Base.{
  ℕ, ◌≡◌, refl, ap, ◌∙◌, Bool, true, false, Option, none, some, List, [], ◌∷◌, ◌++◌, Str, Result,
  ok, err, panic, ◌>>=◌,
}
use bitwrk.Int.{ℤ}

-- `datastore.Key`: how it is written as a string, and made of its kind, name, number and parent.
pub record Keys : Type 1 where
  pub Key : Type 0
  pub encode : Key → Str
  -- `DecodeKey`; `none` on an error
  pub decode : Str → Option Key
  pub new_key : Str → Str → ℕ → Option Key → Key
  pub string_id : Key → Str

-- `DecodeKey` reads back what `Encode` writes.
abbrev pub IsHonest : Keys → Type 0
IsHonest K = (k : K.Key) → K.decode (K.encode k) ≡ some k

-- The string of a key that may be missing.
abbrev pub encoded : (K : Keys) → Option K.Key → Option Str
encoded K none = none
encoded K (some k) = some (K.encode k)

module _ (K : Keys) where
  open K use {Key, encode, decode}

  -- `Property.Value`; a nil key is stored and loaded as `nil_value`.
  pub data Value : Type 0 where
    int_value : ℤ → Value
    string_value : Str → Value
    time_value : ℕ → Value
    bytes_value : Str → Value
    bool_value : Bool → Value
    key_value : Key → Value
    nil_value : Value

  -- `datastore.Property`
  pub record Property : Type 0 where
    pub name : Str
    pub value : Value
    pub no_index : Bool

  abbrev pub indexed : Str → Value → Property
  indexed name value = record { name = name; value = value; no_index = false }

  abbrev pub unindexed : Str → Value → Property
  unindexed name value = record { name = name; value = value; no_index = true }

  -- Type assertions, `p.Value.(int64)` and its kin, panic on another type.
  abbrev pub as_int : Value → Result ℤ
  as_int (int_value n) = ok n
  as_int _ = panic

  abbrev pub as_string : Value → Result Str
  as_string (string_value s) = ok s
  as_string _ = panic

  abbrev pub as_time : Value → Result ℕ
  as_time (time_value t) = ok t
  as_time _ = panic

  abbrev pub as_bytes : Value → Result Str
  as_bytes (bytes_value b) = ok b
  as_bytes _ = panic

  abbrev pub as_bool : Value → Result Bool
  as_bool (bool_value b) = ok b
  as_bool _ = panic

  -- `p.Value.(*datastore.Key).Encode()`
  abbrev pub as_key : Value → Result Str
  as_key (key_value k) = ok (encode k)
  as_key _ = panic

  abbrev pub key_or_panic : Option Key → Result Key
  key_or_panic none = panic
  key_or_panic (some k) = ok k

  -- `mustDecodeKey` of a string, and of a pointer that may be nil.
  abbrev pub must_decode : Str → Result Key
  must_decode s = key_or_panic (decode s)

  unfoldable pub must_decode_key : Option Str → Result Value
  must_decode_key none = ok nil_value
  must_decode_key (some s) = must_decode s >>= λ k. ok (key_value k)

  -- `for _, p := range props`
  unfoldable pub load_all {ℓ} :
      {A : Type ℓ} → (Property → A → Result A) → List Property → A → Result A
  load_all f [] a = ok a
  load_all f (p ∷ ps) a = f p a >>= load_all f ps

  load_all-append {ℓ} :
      {A : Type ℓ} (f : Property → A → Result A) (ps qs : List Property) (a : A)
      → load_all f (ps ++ qs) a ≡ (load_all f ps a >>= load_all f qs)
  unfolding load_all
  load_all-append f [] qs a = refl
  load_all-append {A = A} f (p ∷ ps) qs a = go (f p a) (load_all-append f ps qs)
    where
      go :
          (r : Result A)
          → ((b : A) → load_all f (ps ++ qs) b ≡ (load_all f ps b >>= load_all f qs))
          → (r >>= load_all f (ps ++ qs)) ≡ ((r >>= load_all f ps) >>= load_all f qs)
      go (ok b) h = h b
      go (err e) h = refl
      go panic h = refl

  -- The properties that follow those that have been loaded.
  pub load_all-then {ℓ} :
      {A : Type ℓ} (f : Property → A → Result A) (ps qs : List Property) (a : A) {b : A}
      → load_all f ps a ≡ ok b
      → load_all f (ps ++ qs) a ≡ load_all f qs b
  load_all-then f ps qs a h = load_all-append f ps qs a ∙ ap (λ r. r >>= load_all f qs) h

  -- The value of a key that may be nil.
  abbrev pub key_or_nil : Option Key → Value
  key_or_nil none = nil_value
  key_or_nil (some k) = key_value k

  pub must_decode_key-encoded :
      (k : Option Key) → IsHonest K → must_decode_key (encoded K k) ≡ ok (key_or_nil k)
  unfolding must_decode_key
  must_decode_key-encoded none honest = refl
  must_decode_key-encoded (some k) honest =
      ap (λ o. key_or_panic o >>= λ k. ok (key_value k)) (honest k)
