-- ===== src/Utils/Json/Strip.antt =====
-- common/utils/src/utils_json.c: the removal of the backslashes of a text.
use iot_hub_device_c_sdk.Prelude.{
  ℕ, ◌≡◌, refl, List, [], ◌∷◌, Bool, false, ◌||◌, ◌==◌, if◌then◌else◌, arith, Bool-cases, inl, inr,
  ap,
}
use iot_hub_device_c_sdk.Utils.Json.{utils_json_strip_transfer}

abbrev is_escaped : ℕ → Bool
is_escaped c = c == b'"' || c == b'\\'

-- A text with a backslash before each quote and each backslash, as JSON inside JSON is sent.
unfoldable pub escape : List ℕ → List ℕ
escape [] = []
escape (c ∷ cs) = let rest = escape cs in if is_escaped c then b'\\' ∷ c ∷ rest else c ∷ rest

strip-kept :
    (c : ℕ) (cs : List ℕ)
    → (c == b'\\') ≡ false
    → utils_json_strip_transfer (c ∷ cs) ≡ c ∷ utils_json_strip_transfer cs
unfolding utils_json_strip_transfer
strip-kept c [] h = ground (arith, h)
strip-kept c (d ∷ cs) h = ground (arith, h)

strip-escaped :
    (c : ℕ) (cs : List ℕ)
    → utils_json_strip_transfer (b'\\' ∷ c ∷ cs) ≡ c ∷ utils_json_strip_transfer cs
unfolding utils_json_strip_transfer
strip-escaped c cs = refl

strip_nothing : utils_json_strip_transfer [] ≡ []
unfolding utils_json_strip_transfer
strip_nothing = refl

-- utils_json_strip_transfer gives back every text that was escaped with a backslash before each
-- quote and each backslash.
pub strip_transfer-escape : (cs : List ℕ) → utils_json_strip_transfer (escape cs) ≡ cs
unfolding escape
strip_transfer-escape [] = strip_nothing
strip_transfer-escape (c ∷ cs) = elim (Bool-cases (is_escaped c)) [
  | inl e ↦
      rw (e, strip-escaped c (escape cs)) (ap (λ (l : List ℕ). c ∷ l) (strip_transfer-escape cs))
  | inr e ↦
      rw (e, strip-kept c (escape cs) (ground (arith, e)))
        (ap (λ (l : List ℕ). c ∷ l) (strip_transfer-escape cs))
]
