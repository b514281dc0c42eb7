-- ===== src/Utils/Json/Scan.antt =====
-- common/utils/src/utils_json.c: the elements of JSON text, the search for a delimiter and for the end of a value.
use iot_hub_device_c_sdk.Prelude.{
  ℕ, zero, suc, ◌-◌, List, [], ◌∷◌, ℤ, pos, negsuc, Bool, true, false, not, ◌&&◌, ◌||◌, Option,
  none, some, ltb, ◌==◌, if◌then◌else◌,
}
use iot_hub_device_c_sdk.Utils.Strings.{starts_with}

-- JsonElementType
pub data ElementType : Type 0 where
  array object value_string value_number value_boolean value_null element_key : ElementType

-- JsonElement
pub record JsonElement : Type 0 where
  pub type : ElementType
  pub pos_begin : List ℕ
  pub pos_end : List ℕ
  pub element_len : ℕ

-- is_begin_matched of sg_element_matched_func
unfoldable pub is_begin_matched : ElementType → ℕ → Bool
is_begin_matched array c = c == b'['
is_begin_matched object c = c == b'{'
is_begin_matched value_string c = false
is_begin_matched value_number c = false
is_begin_matched value_boolean c = false
is_begin_matched value_null c = false
is_begin_matched element_key c = false

abbrev pub matched_at : Bool → Option ℤ
matched_at true = some (pos 0)
matched_at false = none

-- _is_number_end_matched
unfoldable pub is_number_end : ℕ → Bool
is_number_end c =
    (ltb c b'0' || ltb b'9' c) && (not (c == b'.') && (not (c == b'f') && not (c == b'-')))

abbrev pub is_true_text : List ℕ → Bool
is_true_text str =
    starts_with (b't' ∷ b'r' ∷ b'u' ∷ b'e' ∷ []) str
    || starts_with (b'T' ∷ b'R' ∷ b'U' ∷ b'E' ∷ []) str

abbrev pub is_false_text : List ℕ → Bool
is_false_text str =
    starts_with (b'f' ∷ b'a' ∷ b'l' ∷ b's' ∷ b'e' ∷ []) str
    || starts_with (b'F' ∷ b'A' ∷ b'L' ∷ b'S' ∷ b'E' ∷ []) str

-- _is_boolean_end_matched: the offset, -1 for an error
unfoldable pub boolean_offset : List ℕ → ℤ
boolean_offset str =
    if is_false_text str then pos 5 else if is_true_text str then pos 4 else negsuc 0

-- _is_null_end_matched
unfoldable pub null_offset : List ℕ → ℤ
null_offset str =
    if starts_with (b'n' ∷ b'u' ∷ b'l' ∷ b'l' ∷ []) str
      || starts_with (b'N' ∷ b'U' ∷ b'L' ∷ b'L' ∷ []) str
    then pos 4
    else negsuc 0

-- is_end_matched of sg_element_matched_func, at a byte and the bytes behind it, `last` being the byte before
-- it: the offset if it matches. The table has no function for a key.
unfoldable pub is_end_matched : ElementType → (last c : ℕ) → List ℕ → Option ℤ
unfolding is_number_end boolean_offset null_offset
is_end_matched array last c cs = matched_at (c == b']')
is_end_matched object last c cs = matched_at (c == b'}')
is_end_matched value_string last c cs = matched_at (c == b'"' && not (last == b'\\'))
is_end_matched value_number last c cs = matched_at (is_number_end c)
is_end_matched value_boolean last c cs = some (boolean_offset (c ∷ cs))
is_end_matched value_null last c cs = some (null_offset (c ∷ cs))
is_end_matched element_key last c cs = none

-- The test of _find_json_delimiter for a byte that is passed over.
unfoldable pub passed_over : (ch split c : ℕ) → Bool
passed_over ch split c = if split == 0 then not (c == ch) else c == split

-- _find_json_delimiter: the delimiter and the length that remains from it on.
unfoldable pub find_json_delimiter : (ch split : ℕ) → List ℕ → ℕ → Option (List ℕ × ℕ)
unfolding passed_over
find_json_delimiter ch split [] remain = none
find_json_delimiter ch split (c ∷ cs) zero = none
find_json_delimiter ch split (c ∷ cs) (suc remain) =
    let rest = find_json_delimiter ch split cs remain in
    if passed_over ch split c then rest else if c == ch then some (c ∷ cs, suc remain) else none

abbrev pub one_further : Option (ℕ × ℕ) → Option (ℕ × ℕ)
one_further none = none
one_further (some (count, remain)) = some (suc count, remain)

-- Where the end is, `offset` bytes on.
abbrev pub end_at : ℤ → ℕ → Option (ℕ × ℕ)
end_at (pos offset) remain = some (offset, remain - offset)
end_at (negsuc n) remain = none

-- _find_json_value_element_end: how many bytes on the end is, and the length that remains there.
unfoldable pub find_value_element_end : ElementType → (depth last : ℕ) → List ℕ → ℕ → Option (ℕ × ℕ)
unfolding is_begin_matched is_end_matched
find_value_element_end type depth last [] remain = none
find_value_element_end type depth last (c ∷ cs) zero = none
find_value_element_end type depth last (c ∷ cs) (suc remain) =
    let further : ℕ → Option (ℕ × ℕ) =
      λ d. one_further (find_value_element_end type d c cs remain) in
    let depth' = if is_begin_matched type c then suc depth else depth in
    elim (is_end_matched type last c cs) [
      | none ↦ further depth'
      | some offset ↦ if depth' == 0 then end_at offset (suc remain) else further (depth' - 1)
    ]
