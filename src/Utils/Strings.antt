-- ===== src/Utils/Strings.antt =====
-- strchr and strstr of the C library, on the bytes of a string before its NUL.
use iot_hub_device_c_sdk.Prelude.{
  ℕ, suc, ◌≡◌, refl, List, [], ◌∷◌, ◌++◌, Bool, true, false, ◌&&◌, Option, none, some, ◌==◌, length,
  take, if◌then◌else◌, arith, All, ap,
}

abbrev pub after_first : Option ℕ → Option ℕ
after_first none = none
after_first (some k) = some (suc k)

-- strchr: how far the first such byte is.
unfoldable pub find_byte : ℕ → List ℕ → Option ℕ
find_byte b [] = none
find_byte b (c ∷ cs) = if c == b then some 0 else after_first (find_byte b cs)

unfoldable pub starts_with : List ℕ → List ℕ → Bool
starts_with [] cs = true
starts_with (b ∷ bs) [] = false
starts_with (b ∷ bs) (c ∷ cs) = (b == c) && starts_with bs cs

-- strstr: how far the first such text is.
unfoldable pub find_text : List ℕ → List ℕ → Option ℕ
unfolding starts_with
find_text text [] = if starts_with text [] then some 0 else none
find_text text (c ∷ cs) =
    if starts_with text (c ∷ cs) then some 0 else after_first (find_text text cs)

-- The bytes before a byte that none of them is.
pub find_byte-append :
    (b : ℕ) (before after : List ℕ)
    → All (λ c. (c == b) ≡ false) before
    → find_byte b (before ++ (b ∷ after)) ≡ some (length before)
unfolding find_byte
find_byte-append b [] after none_before = ground arith
find_byte-append b (c ∷ before) after none_before =
    rw (none_before.0, find_byte-append b before after none_before.1) refl

pub find_byte-none : (b : ℕ) (cs : List ℕ) → All (λ c. (c == b) ≡ false) cs → find_byte b cs ≡ none
unfolding find_byte
find_byte-none b [] h = refl
find_byte-none b (c ∷ cs) h = rw (h.0, find_byte-none b cs h.1) refl

starts_with-append : (text after : List ℕ) → starts_with text (text ++ after) ≡ true
unfolding starts_with
starts_with-append [] after = refl
starts_with-append (b ∷ text) after = ground (arith, starts_with-append text after)

not_at_first :
    (b : ℕ) (bs : List ℕ) (c : ℕ) (cs : List ℕ)
    → (c == b) ≡ false
    → starts_with (b ∷ bs) (c ∷ cs) ≡ false
unfolding starts_with
not_at_first b bs c cs other = ground arith

-- A text behind bytes that its first byte is none of.
pub find_text-append :
    (b : ℕ) (bs before after : List ℕ)
    → All (λ c. (c == b) ≡ false) before
    → find_text (b ∷ bs) (before ++ (b ∷ (bs ++ after))) ≡ some (length before)
unfolding find_text
find_text-append b bs [] after none_before = rw (starts_with-append (b ∷ bs) after) refl
find_text-append b bs (c ∷ before) after none_before =
    rw
      (
        not_at_first b bs c (before ++ (b ∷ (bs ++ after))) none_before.0,
        find_text-append b bs before after none_before.1,
      )
      refl

-- None of the bytes is `b`.
abbrev pub Lacks : ℕ → List ℕ → Type 0
Lacks b cs = All (λ c. (c == b) ≡ false) cs

pub take_all : (xs : List ℕ) → take (length xs) xs ≡ xs
take_all [] = refl
take_all (x ∷ xs) = ap (λ (l : List ℕ). x ∷ l) (take_all xs)
