-- ===== src/Json.antt =====
-- JSON documents, and how encoding/json writes one into the program's structs. The program never
-- looks at the bytes of a document, so a document is its value; numbers that are not integers keep
-- their text.
use Prim.Native.Char.{code}
use cognitiveosd.Prelude.{
  ℕ, ◌+◌, String, Bool, true, false, ◌&&◌, Option, none, some, List, [], ◌∷◌, leb, eqb, ◌==◌,
  if◌then◌else◌,
}
use cognitiveosd.Prelude.Int.{ℤ, is_int64}
use cognitiveosd.Prelude.Opt.{◌>>=◌}

mutual
  pub data Json : Type 0 where
    null : Json
    bool : Bool → Json
    int : ℤ → Json
    real : String → Json
    str : String → Json
    arr : Items → Json
    obj : Fields → Json

  pub data Items : Type 0 where
    nil : Items
    cons : Json → Items → Items

  pub data Fields : Type 0 where
    end : Fields
    field : String → Json → Fields → Fields

-- The folding by which encoding/json matches a key: ASCII letters, and the two other characters
-- that fold into ASCII, U+017F and U+212A.
abbrev fold : ℕ → ℕ
fold c =
    if leb b'A' c && leb c b'Z'
    then c + 32
    else if eqb c 0x17f
    then b's'
    else if eqb c 0x212a
    then b'k'
    else c

-- A key against the name of a struct's field.
abbrev pub fold_eq : String → String → Bool
fold_eq String.[] String.[] = true
fold_eq (String.◌∷◌ c s) (String.◌∷◌ d t) = eqb (fold (code c)) (fold (code d)) && fold_eq s t
fold_eq String.[] (String.◌∷◌ d t) = false
fold_eq (String.◌∷◌ c s) String.[] = false

-- What `Unmarshal` makes of the variable's old value and a document; `none` is its error.
abbrev pub Decoder {ℓ} : Type ℓ → Type ℓ
Decoder A = A → Json → Option A

abbrev pub d_string : Decoder String
d_string old null = some old
d_string old (str s) = some s
d_string old _ = none

abbrev pub d_bool : Decoder Bool
d_bool old null = some old
d_bool old (bool b) = some b
d_bool old _ = none

abbrev pub d_int : Decoder ℤ
d_int old null = some old
d_int old (int n) = if is_int64 n then some n else none
d_int old _ = none

-- json.RawMessage and interface{}: any document, `null` included.
abbrev pub d_raw : Decoder (Option Json)
d_raw old v = some (some v)

module _ {ℓ} {A : Type ℓ} where
  -- The later of two equal keys writes over the earlier.
  abbrev pub member : Decoder A → String → Fields → A → Option A
  member d name end old = some old
  member d name (field key v fs) old =
      if fold_eq key name then (d old v >>= member d name fs) else member d name fs old

  -- A struct, by what its fields make of an object.
  abbrev pub d_struct : (Fields → A → Option A) → Decoder A
  d_struct read old null = some old
  d_struct read old (obj fs) = read fs old
  d_struct read old _ = none

  -- A pointer to a struct, over the struct's zero value.
  abbrev pub d_pointer : A → Decoder A → Decoder (Option A)
  d_pointer zero_value d old null = some none
  d_pointer zero_value d none v = d zero_value v >>= λ a. some (some a)
  d_pointer zero_value d (some a) v = d a v >>= λ b. some (some b)

  abbrev pub d_items : A → Decoder A → Items → Option (List A)
  d_items zero_value d nil = some []
  d_items zero_value d (cons v vs) =
      d zero_value v >>= λ a. d_items zero_value d vs >>= λ as'. some (a ∷ as')

  abbrev pub d_slice : A → Decoder A → Decoder (List A)
  d_slice zero_value d old null = some []
  d_slice zero_value d old (arr vs) = d_items zero_value d vs
  d_slice zero_value d old _ = none

-- `m[key]` of a decoded `map[string]interface{}`: exact keys, the last one wins.
abbrev get_from : String → Fields → Option Json → Option Json
get_from name end old = old
get_from name (field key v fs) old = get_from name fs (if key == name then some v else old)

abbrev pub get : String → Fields → Option Json
get name fs = get_from name fs none
