-- ===== src/Utils/Json.antt =====
-- common/utils/src/utils_json.c: the scanner of JSON text. A pointer into a text is the bytes from it on,
-- up to the NUL. The remaining length only falls and is only compared with 0, so that it stops at 0 here.
pub mod Members
pub mod Ends
pub mod Printed
pub mod Strip
pub mod Data
mod Tests
pub mod Scan
use iot_hub_device_c_sdk.Prelude.{
  ℕ, zero, suc, ◌+◌, ◌-◌, List, [], ◌∷◌, ◌++◌, ℤ, pos, negsuc, Bool, true, false, not, ◌&&◌, ◌||◌,
  Option, none, some, ltb, leb, ◌==◌, ◌==ℤ◌, sub_ℕ, eq_bytes, length, take, drop, if◌then◌else◌,
}
use iot_hub_device_c_sdk.Utils.Strings.{starts_with}
use iot_hub_device_c_sdk.Utils.Json.Scan.{
  ElementType, JsonElement, is_begin_matched, matched_at, is_number_end, is_true_text,
  is_false_text, boolean_offset, null_offset, is_end_matched, passed_over, find_json_delimiter,
  one_further, end_at, find_value_element_end, array, object, value_string, value_number,
  value_boolean, value_null, element_key,
}

infixl 5 ◌>>=◌
abbrev pub ◌>>=◌ : {A B : Type 0} → Option A → (A → Option B) → Option B
◌>>=◌ none f = none
◌>>=◌ (some a) f = f a

-- _get_json_key
unfoldable pub get_json_key : List ℕ → ℕ → Option (JsonElement × ℕ)
unfolding find_json_delimiter
get_json_key node_begin remain = do
  (quote, remain1) ← find_json_delimiter b'"' b' ' node_begin remain
  let key_begin = drop 1 quote
  (key_end, remain2) ← find_json_delimiter b'"' 0 key_begin (remain1 - 1)
  some (
    record {
      type = element_key;
      pos_begin = key_begin;
      pos_end = key_end;
      element_len = length key_begin - length key_end;
    },
    remain2,
  )

-- The loop of _get_json_value over the spaces before a value.
unfoldable pub filter_space : List ℕ → ℕ → Option (List ℕ × ℕ)
filter_space [] remain = some ([], remain)
filter_space (c ∷ cs) remain =
    let rest = filter_space cs (remain - 1) in
    if c == b' ' then (if leb remain 1 then none else rest) else some (c ∷ cs, remain)

-- The type of a value, from its first byte.
unfoldable pub value_type : List ℕ → ElementType
value_type [] = value_number
value_type (c ∷ cs) =
    if c == b'['
    then array
    else if c == b'{'
    then object
    else if c == b'"'
    then value_string
    else if c == b'T' || (c == b't' || (c == b'F' || c == b'f'))
    then value_boolean
    else if c == b'N' || c == b'n'
    then value_null
    else value_number

abbrev pub is_object_or_array : ElementType → ℕ
is_object_or_array array = 1
is_object_or_array object = 1
is_object_or_array value_string = 0
is_object_or_array value_number = 0
is_object_or_array value_boolean = 0
is_object_or_array value_null = 0
is_object_or_array element_key = 0

abbrev pub is_object_or_array_or_string : ElementType → ℕ
is_object_or_array_or_string value_string = 1
is_object_or_array_or_string type = is_object_or_array type

-- _get_json_value. The byte before a string is the quote that opens it.
unfoldable pub get_json_value : List ℕ → ℕ → Option (JsonElement × ℕ)
unfolding find_json_delimiter filter_space value_type find_value_element_end
get_json_value key_end remain = do
  (colon, remain1) ← find_json_delimiter b':' b' ' key_end remain
  (first, remain2) ← filter_space (drop 1 colon) (remain1 - 1)
  let type = value_type first
  let opening = is_object_or_array_or_string type
  let value_begin = drop opening first
  (count, remain3) ← find_value_element_end type 0 b'"' value_begin (remain2 - opening)
  some (
    record {
      type = type;
      pos_begin = drop (opening - is_object_or_array type) first;
      pos_end = drop (count + opening) value_begin;
      element_len = count + is_object_or_array type + is_object_or_array type;
    },
    remain3,
  )

-- The test of json_get_value_by_key for the key that it wants.
unfoldable pub is_key_wanted : List ℕ → ℤ → JsonElement → Bool
is_key_wanted key key_len found =
    (key_len ==ℤ pos found.element_len)
    && eq_bytes (take found.element_len key) (take found.element_len found.pos_begin)

abbrev pub increase_pos : List ℕ × ℕ → List ℕ × ℕ
increase_pos (str, remain) = (drop 1 str, remain - 1)

abbrev pub further_pos : Option (List ℕ × ℕ) → Option (List ℕ × ℕ)
further_pos none = none
further_pos (some next) = some (increase_pos next)

-- The loop of json_get_value_by_key; nothing if the fuel is out.
unfoldable pub key_loop : ℕ → List ℕ → ℤ → Option (List ℕ × ℕ) → Option (Option JsonElement)
unfolding get_json_key get_json_value find_json_delimiter is_key_wanted
key_loop zero key key_len object_begin = none
key_loop (suc fuel) key key_len none = some none
key_loop (suc fuel) key key_len (some (object_begin, str_len)) =
    elim (get_json_key object_begin str_len) [
      | none ↦ some none
      | some (key_found, len1) ↦ elim (get_json_value (drop 1 key_found.pos_end) (len1 - 1)) [
        | none ↦ some none
        | some (value, len2) ↦
            let next = find_json_delimiter b',' b' ' value.pos_end len2 in
            let rest = key_loop fuel key key_len (further_pos next) in
            if is_key_wanted key key_len key_found then some (some value) else rest
      ]
    ]

-- json_get_value_by_key
unfoldable pub json_get_value_by_key : List ℕ → ℕ → List ℕ → ℤ → Option (Option JsonElement)
unfolding find_json_delimiter key_loop
json_get_value_by_key str str_len key key_len = elim (find_json_delimiter b'{' b' ' str str_len) [
  | none ↦ some none
  | some begin ↦ key_loop (suc str_len) key key_len (some (increase_pos begin))
]

-- utils_json_value_get: `part` is what was read of the key since the last point, and the key before it has
-- `used` bytes.
unfoldable pub value_get :
    List ℕ → ℕ → (used : ℕ) → (part : List ℕ) → List ℕ → ℕ → Option (Option JsonElement)
unfolding json_get_value_by_key
value_get src src_len used part [] key_len =
    json_get_value_by_key src src_len part (sub_ℕ key_len used)
value_get src src_len used part (c ∷ cs) key_len =
    let same = value_get src src_len used (part ++ (c ∷ [])) cs key_len in
    let inner : JsonElement → Option (Option JsonElement) =
      λ v. value_get v.pos_begin v.element_len (used + (length part + 1)) [] cs key_len in
    if c == b'.'
    then elim (json_get_value_by_key src src_len (part ++ (c ∷ cs)) (pos (length part))) [
      | none ↦ none
      | some found ↦ elim found [ none ↦ some none | some v ↦ inner v ]
    ]
    else same

-- utils_json_value_get; nothing if the fuel of a lookup is out, which Json.Ends excludes.
unfoldable pub utils_json_value_get : List ℕ → ℕ → List ℕ → ℕ → Option (Option JsonElement)
unfolding value_get
utils_json_value_get key key_len src src_len = value_get src src_len 0 [] key key_len

-- utils_json_strip_transfer, on the bytes from src_tmp to the end: what it leaves of them.
unfoldable pub utils_json_strip_transfer : List ℕ → List ℕ
utils_json_strip_transfer [] = []
utils_json_strip_transfer (c ∷ []) = if c == b'\\' then [] else c ∷ []
utils_json_strip_transfer (c ∷ d ∷ src) =
    let escaped = utils_json_strip_transfer src in
    let whole = utils_json_strip_transfer (d ∷ src) in if c == b'\\' then d ∷ escaped else c ∷ whole
