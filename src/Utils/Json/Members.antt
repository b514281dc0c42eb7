-- ===== src/Utils/Json/Members.antt =====
-- common/utils/src/utils_json.c: the scanner at a member of an object that was printed.
use iot_hub_device_c_sdk.Prelude.{
  ℕ, suc, ◌+◌, ◌-◌, ◌≡◌, refl, List, [], ◌∷◌, ◌++◌, pos, false, Option, none, some, ◌==◌, take,
  drop, length, if◌then◌else◌, arith, Bool-cases, inl, inr, eq_bytes, eq_bytes_sound, length-append,
  take-append, ap,
}
use iot_hub_device_c_sdk.Utils.Strings.{Lacks, take_all}
use iot_hub_device_c_sdk.Utils.Json.{
  get_json_key, filter_space, value_type, get_json_value, is_key_wanted,
}
use iot_hub_device_c_sdk.Utils.Json.Scan.{
  value_string, element_key, JsonElement, passed_over, find_json_delimiter, is_begin_matched,
  is_end_matched, find_value_element_end,
}

-- A text without quotes and backslashes, which JSON prints as it is.
abbrev pub Plain : List ℕ → Type 0
Plain cs = Lacks b'"' cs × Lacks b'\\' cs

-- "k":"v" and what comes behind it
abbrev pub member_text : List ℕ → List ℕ → List ℕ → List ℕ
member_text k v after = b'"' ∷ (k ++ (b'"' ∷ b':' ∷ b'"' ∷ (v ++ (b'"' ∷ after))))

unfoldable pub members_text : List (List ℕ × List ℕ) → List ℕ
members_text [] = b'}' ∷ []
members_text ((k, v) ∷ []) = member_text k v (b'}' ∷ [])
members_text ((k, v) ∷ next ∷ pairs) = member_text k v (b',' ∷ members_text (next ∷ pairs))

-- The text of an object whose values are strings.
abbrev pub object_text : List (List ℕ × List ℕ) → List ℕ
object_text pairs = b'{' ∷ members_text pairs

-- The value of the first pair with the key.
unfoldable pub lookup : List ℕ → List (List ℕ × List ℕ) → Option (List ℕ)
lookup key [] = none
lookup key ((k, v) ∷ pairs) = if eq_bytes key k then some v else lookup key pairs

-- A result that is the string, or a failure for none.
abbrev pub Shows : Option (List ℕ) → Option (Option JsonElement) → Type 0
Shows none r = r ≡ some none
Shows (some v) r =
    (e : JsonElement) × (r ≡ some (some e))
    × (e.type ≡ value_string)
    × (take e.element_len e.pos_begin ≡ v)

-- A number that is greater by the length of a text.
unfoldable pub behind : List ℕ → ℕ → ℕ
behind [] m = m
behind (c ∷ cs) m = suc (behind cs m)

pub behind_lem : (cs : List ℕ) (m : ℕ) → behind cs m ≡ length cs + m
unfolding behind
behind_lem [] m = omega arith
behind_lem (c ∷ cs) m = ground (arith, behind_lem cs m)

pub less_one : (n : ℕ) → suc n - 1 ≡ n
less_one n = omega arith

find_quote :
    (k rest : List ℕ) (m : ℕ)
    → Lacks b'"' k
    → find_json_delimiter b'"' 0 (k ++ (b'"' ∷ rest)) (behind k (suc m)) ≡ some (b'"' ∷ rest, suc m)
unfolding behind find_json_delimiter passed_over
find_quote [] rest m plain = refl
find_quote (c ∷ k) rest m plain = rw (plain.0) (find_quote k rest m plain.1)

pub key_lem :
    (k rest : List ℕ) (m : ℕ)
    → Lacks b'"' k
    → get_json_key (b'"' ∷ (k ++ (b'"' ∷ rest))) (suc (behind k (suc m)))
      ≡ some (
        record {
          type = element_key;
          pos_begin = k ++ (b'"' ∷ rest);
          pos_end = b'"' ∷ rest;
          element_len = length k;
        },
        suc m,
      )
unfolding get_json_key find_json_delimiter passed_over
key_lem k rest m plain =
    let len : length (k ++ (b'"' ∷ rest)) - length (b'"' ∷ rest) ≡ length k =
      ground (arith, length-append k (b'"' ∷ rest)) in
    rw (get_json_key, less_one (behind k (suc m)), find_quote k rest m plain, len) refl

string_end :
    (v rest : List ℕ) (last m : ℕ)
    → (last == b'\\') ≡ false
    → Plain v
    → find_value_element_end value_string 0 last (v ++ (b'"' ∷ rest)) (behind v (suc m))
      ≡ some (length v, suc m)
unfolding behind find_value_element_end is_begin_matched is_end_matched
string_end [] rest last m ok plain = ground (arith, ok)
string_end (c ∷ v) rest last m ok plain =
    rw
      (
        find_value_element_end,
        is_begin_matched,
        is_end_matched,
        plain.0.0,
        string_end v rest c m plain.1.0 (plain.0.1, plain.1.1),
      )
      refl

one_more : (n : ℕ) → suc n + 1 ≡ suc (n + 1)
one_more n = omega arith

no_bracket : (n : ℕ) → n + 0 + 0 ≡ n
no_bracket n = omega arith

drop_end : (v rest : List ℕ) → drop (length v + 1) (v ++ (b'"' ∷ rest)) ≡ rest
drop_end [] rest = refl
drop_end (c ∷ v) rest = rw (one_more (length v)) (drop_end v rest)

pub value_lem :
    (v rest : List ℕ) (m : ℕ)
    → Plain v
    → get_json_value (b':' ∷ b'"' ∷ (v ++ (b'"' ∷ rest))) (suc (suc (behind v (suc m))))
      ≡ some (
        record {
          type = value_string;
          pos_begin = v ++ (b'"' ∷ rest);
          pos_end = rest;
          element_len = length v;
        },
        suc m,
      )
unfolding get_json_value find_json_delimiter passed_over filter_space value_type
value_lem v rest m plain =
    rw
      (
        get_json_value,
        less_one (suc (behind v (suc m))),
        less_one (behind v (suc m)),
        string_end v rest b'"' m refl plain,
        drop_end v rest,
        no_bracket (length v),
      )
      refl

abbrev pub found_key : List ℕ → List ℕ → JsonElement
found_key k rest = record {
  type = element_key;
  pos_begin = k ++ (b'"' ∷ rest);
  pos_end = b'"' ∷ rest;
  element_len = length k;
}

pub wanted_lem :
    (wanted k rest : List ℕ)
    → is_key_wanted wanted (pos (length wanted)) (found_key k rest) ≡ eq_bytes wanted k
unfolding is_key_wanted
wanted_lem wanted k rest = elim (Bool-cases (length wanted == length k)) [
  | inl e ↦
      let same : length wanted ≡ length k = ground (arith, e) in
      rw (is_key_wanted, take-append k (b'"' ∷ rest), e, ← same, take_all wanted) refl
  | inr e ↦ elim (Bool-cases (eq_bytes wanted k)) [
    | inl equal ↦
        absurd (ground (arith, e, ap (λ (l : List ℕ). length l) (eq_bytes_sound wanted k equal)))
    | inr other ↦ ground (arith, e, other)
  ]
]
