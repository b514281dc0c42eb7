-- ===== src/Utils/Json/Ends.antt =====
-- common/utils/src/utils_json.c: the search for a key ends.
use iot_hub_device_c_sdk.Prelude.{
  ℕ, zero, suc, ◌+◌, ◌-◌, ◌≤◌, ◌<◌, ◌≡◌, ◌≢◌, List, [], ◌∷◌, ◌++◌, ℤ, pos, negsuc, Option, none,
  some, leb, ◌==◌, sub_ℕ, drop, length, subst, if◌then◌else◌, arith, Bool-cases, Option-cases, inl,
  inr,
}
use iot_hub_device_c_sdk.Utils.Json.{
  ◌>>=◌, get_json_key, filter_space, value_type, is_object_or_array_or_string, get_json_value,
  is_key_wanted, increase_pos, further_pos, key_loop, json_get_value_by_key, value_get,
  utils_json_value_get,
}
use iot_hub_device_c_sdk.Utils.Json.Scan.{
  ElementType, passed_over, find_json_delimiter, one_further, end_at, is_begin_matched,
  is_end_matched, find_value_element_end,
}

-- The result is nothing, or its remaining length has the property.
abbrev Remains : {A : Type 0} → (ℕ → Type 0) → Option (A × ℕ) → Type 0
Remains P none = Unit
Remains P (some (a, m)) = P m

Remains-bind :
    {A B : Type 0} (P Q : ℕ → Type 0) (o : Option (A × ℕ)) (f : A × ℕ → Option (B × ℕ))
    → Remains P o
    → ((a : A) (m : ℕ) → P m → Remains Q (f (a, m)))
    → Remains Q (o >>= f)
Remains-bind P Q none f h rule = tt
Remains-bind P Q (some (a, m)) f h rule = rule a m h

abbrev UpTo : ℕ → ℕ → Type 0
UpTo n m = m ≤ n

abbrev Part : ℕ → ℕ → Type 0
Part n m = (0 < m) × (m ≤ n)

Part-suc : {A : Type 0} (n : ℕ) (o : Option (A × ℕ)) → Remains (Part n) o → Remains (Part (suc n)) o
Part-suc n none h = tt
Part-suc n (some (a, m)) h = (h.0, omega arith)

find-Remains :
    (ch split : ℕ) (str : List ℕ) (n : ℕ) → Remains (Part n) (find_json_delimiter ch split str n)
unfolding find_json_delimiter
find-Remains ch split [] n = tt
find-Remains ch split (c ∷ cs) zero = tt
find-Remains ch split (c ∷ cs) (suc n) = elim (Bool-cases (passed_over ch split c)) [
  | inl e ↦ rw e (Part-suc n (find_json_delimiter ch split cs n) (find-Remains ch split cs n))
  | inr e ↦ elim (Bool-cases (c == ch)) [
    | inl e' ↦ rw (e, e') (omega arith, omega arith)
    | inr e' ↦ rw (e, e') tt
  ]
]

one_further-Remains :
    (n : ℕ) (o : Option (ℕ × ℕ)) → Remains (UpTo n) o → Remains (UpTo (suc n)) (one_further o)
one_further-Remains n none h = tt
one_further-Remains n (some (k, m)) h = omega arith

end_at-Remains : (offset : ℤ) (n : ℕ) → Remains (UpTo n) (end_at offset n)
end_at-Remains (pos k) n = omega arith
end_at-Remains (negsuc k) n = tt

element_end-Remains :
    (type : ElementType) (depth last : ℕ) (str : List ℕ) (n : ℕ)
    → Remains (UpTo n) (find_value_element_end type depth last str n)
unfolding find_value_element_end
element_end-Remains type depth last [] n = tt
element_end-Remains type depth last (c ∷ cs) zero = tt
element_end-Remains type depth last (c ∷ cs) (suc n) =
    let further : (d : ℕ)
        → Remains (UpTo (suc n)) (one_further (find_value_element_end type d c cs n)) =
      λ d.
        one_further-Remains n (find_value_element_end type d c cs n)
          (element_end-Remains type d c cs n) in
    let depth' : ℕ = if is_begin_matched type c then suc depth else depth in
    elim (Option-cases (is_end_matched type last c cs)) [
      | inl e ↦ rw (find_value_element_end, e) (further depth')
      | inr (offset, e) ↦ elim (Bool-cases (depth' == 0)) [
        | inl flat ↦ rw (find_value_element_end, e, flat) (end_at-Remains offset (suc n))
        | inr deep ↦ rw (find_value_element_end, e, deep) (further (depth' - 1))
      ]
    ]

UpTo-pred :
    {A : Type 0} (n : ℕ) (o : Option (A × ℕ)) → Remains (UpTo (n - 1)) o → Remains (UpTo n) o
UpTo-pred n none h = tt
UpTo-pred n (some (a, m)) h = omega arith

filter_space-Remains : (str : List ℕ) (n : ℕ) → Remains (UpTo n) (filter_space str n)
unfolding filter_space
filter_space-Remains [] n = omega arith
filter_space-Remains (c ∷ cs) n = elim (Bool-cases (c == b' ')) [
  | inl e ↦ elim (Bool-cases (leb n 1)) [
    | inl e' ↦ rw (e, e') tt
    | inr e' ↦ rw (e, e') (UpTo-pred n (filter_space cs (n - 1)) (filter_space-Remains cs (n - 1)))
  ]
  | inr e ↦ rw e (omega arith)
]

-- A key takes at least its quote.
get_json_key-Remains : (str : List ℕ) (n : ℕ) → Remains (λ m. m < n) (get_json_key str n)
unfolding get_json_key
get_json_key-Remains str n =
    Remains-bind (Part n) (λ m. m < n) (find_json_delimiter b'"' b' ' str n) _
      (find-Remains b'"' b' ' str n)
      (λ quote m part.
        Remains-bind (Part (m - 1)) (λ k. k < n) (find_json_delimiter b'"' 0 (drop 1 quote) (m - 1))
          _ (find-Remains b'"' 0 (drop 1 quote) (m - 1)) (λ key_end k inner. omega arith))

get_json_value-Remains : (str : List ℕ) (n : ℕ) → Remains (UpTo n) (get_json_value str n)
unfolding get_json_value
get_json_value-Remains str n =
    Remains-bind (Part n) (UpTo n) (find_json_delimiter b':' b' ' str n) _
      (find-Remains b':' b' ' str n)
      (λ colon m part.
        Remains-bind (UpTo (m - 1)) (UpTo n) (filter_space (drop 1 colon) (m - 1)) _
          (filter_space-Remains (drop 1 colon) (m - 1))
          (λ first k upto.
            let opening : ℕ = is_object_or_array_or_string (value_type first) in
            Remains-bind (UpTo (k - opening)) (UpTo n)
              (find_value_element_end (value_type first) 0 b'"' (drop opening first) (k - opening))
              _ (element_end-Remains (value_type first) 0 b'"' (drop opening first) (k - opening))
              (λ count r inner. omega arith)))

-- What is left where the next element begins.
abbrev Left : ℕ → Option (List ℕ × ℕ) → Type 0
Left n none = Unit
Left n (some (str, m)) = m < n

further-Left :
    (n m : ℕ) (next : Option (List ℕ × ℕ))
    → m ≤ n
    → Remains (Part m) next
    → Left n (further_pos next)
further-Left n m none h part = tt
further-Left n m (some (str, k)) h part = omega arith

Remains-at :
    {A : Type 0} (P : ℕ → Type 0) (o : Option (A × ℕ)) (a : A) (m : ℕ)
    → o ≡ some (a, m)
    → Remains P o
    → P m
Remains-at P o a m e h = subst (Remains P) e h

module _ (key : List ℕ) (key_len : ℤ) where
  key_loop-ends :
      (fuel : ℕ) (begin : Option (List ℕ × ℕ))
      → 0 < fuel
      → Left fuel begin
      → key_loop fuel key key_len begin ≢ none
  unfolding key_loop
  key_loop-ends zero begin fuelled left = absurd (omega arith)
  key_loop-ends (suc fuel) none fuelled left = λ e. cc
  key_loop-ends (suc fuel) (some (str, n)) fuelled left = elim (Option-cases (get_json_key str n)) [
    | inl e ↦ rw (key_loop, e) (λ e'. cc)
    | inr ((found, m), e) ↦
        let read : m < n =
          Remains-at (λ k. k < n) (get_json_key str n) found m e (get_json_key-Remains str n) in
        elim (Option-cases (get_json_value (drop 1 found.pos_end) (m - 1))) [
          | inl e' ↦ rw (key_loop, e, e') (λ e''. cc)
          | inr ((value, r), e') ↦
              let upto : r ≤ m - 1 =
                Remains-at (UpTo (m - 1)) (get_json_value (drop 1 found.pos_end) (m - 1)) value r e'
                  (get_json_value-Remains (drop 1 found.pos_end) (m - 1)) in
              elim (Bool-cases (is_key_wanted key key_len found)) [
                | inl e'' ↦ rw (key_loop, e, e', e'') (λ e3. cc)
                | inr e'' ↦
                    let next : Option (List ℕ × ℕ) =
                      find_json_delimiter b',' b' ' value.pos_end r in
                    rw (key_loop, e, e', e'')
                      (key_loop-ends fuel (further_pos next) (omega arith) (
                        further-Left fuel r next (omega arith)
                          (find-Remains b',' b' ' value.pos_end r)))
              ]
        ]
  ]

-- json_get_value_by_key ends on every text, whatever its length is said to be: its loop has at most as many
-- rounds as that length.
pub json_get_value_by_key_ends :
    (str : List ℕ) (str_len : ℕ) (key : List ℕ) (key_len : ℤ)
    → json_get_value_by_key str str_len key key_len ≢ none
unfolding json_get_value_by_key
json_get_value_by_key_ends str str_len key key_len =
    elim (Option-cases (find_json_delimiter b'{' b' ' str str_len)) [
      | inl e ↦ rw (json_get_value_by_key, e) (λ e'. cc)
      | inr ((begin, n), e) ↦
          let part : Part str_len n =
            Remains-at (Part str_len) (find_json_delimiter b'{' b' ' str str_len) begin n e
              (find-Remains b'{' b' ' str str_len) in
          rw (json_get_value_by_key, e)
            (key_loop-ends key key_len (suc str_len) (some (increase_pos (begin, n))) (omega arith)
              (omega arith))
    ]

module _ (key_len : ℕ) where
  value_get-ends :
      (key : List ℕ) (src : List ℕ) (src_len used : ℕ) (part : List ℕ)
      → value_get src src_len used part key key_len ≢ none
  unfolding value_get
  value_get-ends [] src src_len used part =
      json_get_value_by_key_ends src src_len part (sub_ℕ key_len used)
  value_get-ends (c ∷ cs) src src_len used part = elim (Bool-cases (c == b'.')) [
    | inr e ↦ rw (value_get, e) (value_get-ends cs src src_len used (part ++ (c ∷ [])))
    | inl e ↦
        elim (Option-cases
          (json_get_value_by_key src src_len (part ++ (c ∷ cs)) (pos (length part)))) [
            | inl e' ↦
                absurd
                  (json_get_value_by_key_ends src src_len (part ++ (c ∷ cs)) (pos (length part)) e')
            | inr (none, e') ↦ rw (value_get, e, e') (λ e''. cc)
            | inr (some v, e') ↦
                rw (value_get, e, e')
                  (value_get-ends cs v.pos_begin v.element_len (used + (length part + 1)) [])
          ]
  ]

-- utils_json_value_get ends on every key and every text.
pub utils_json_value_get_ends :
    (key : List ℕ) (key_len : ℕ) (src : List ℕ) (src_len : ℕ)
    → utils_json_value_get key key_len src src_len ≢ none
unfolding utils_json_value_get
utils_json_value_get_ends key key_len src src_len = value_get-ends key_len key src src_len 0 []
