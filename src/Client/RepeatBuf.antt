-- ===== src/Client/RepeatBuf.antt =====
-- The filter for repeated packets of services/common/mqtt_client/src/mqtt_client_publish.c: a ring of the
-- last packet identifiers.
use iot_hub_device_c_sdk.Prelude.{
  ℕ, zero, suc, ◌+◌, ◌%◌, ◌<◌, ◌≡◌, refl, sym, ap, ◌∙◌, arith, if◌then◌else◌, ◌==◌, List, [], ◌∷◌,
  ◌++◌, Bool, true, false, ◌||◌, length, set, take, drop, length-set, take-append-drop, Bool-cases,
  inl, inr, subst, append-nil, append_assoc,
}
use native.Mathlib.Decide.{dec_lt}
pub mod Age

abbrev pub mqtt_max_repeat_buf_len : ℕ
mqtt_max_repeat_buf_len = 10

-- repeat_packet_id_buf and current_packet_id_cnt
pub record RepeatBuf : Type 0 where
  pub ids : List ℕ
  pub cnt : ℕ

-- _get_packet_id_repeat_buf: whether the identifier is found, that is, the result is not -1.
unfoldable pub get_packet_id_repeat_buf : List ℕ → ℕ → Bool
get_packet_id_repeat_buf [] packet_id = false
get_packet_id_repeat_buf (i ∷ ids) packet_id =
    packet_id == i || get_packet_id_repeat_buf ids packet_id

-- _add_packet_id_to_repeat_buf
unfoldable pub add_packet_id_to_repeat_buf : RepeatBuf → ℕ → RepeatBuf
add_packet_id_to_repeat_buf b packet_id =
    if get_packet_id_repeat_buf b.ids packet_id
    then b
    else record { ids = set b.ids b.cnt packet_id; cnt = (b.cnt + 1) % mqtt_max_repeat_buf_len }

pub record IsValid (b : RepeatBuf) : Type 0 where
  pub full : length b.ids ≡ mqtt_max_repeat_buf_len
  pub inside : b.cnt < mqtt_max_repeat_buf_len

-- Adding keeps the index inside the buffer.
pub add_packet_id-IsValid :
    {b : RepeatBuf} (packet_id : ℕ) → IsValid b → IsValid (add_packet_id_to_repeat_buf b packet_id)
unfolding add_packet_id_to_repeat_buf
add_packet_id-IsValid {b} packet_id v = ground (arith, length-set b.ids b.cnt packet_id)

-- The identifiers, oldest first.
pub recent : RepeatBuf → List ℕ
recent b = drop b.cnt b.ids ++ take b.cnt b.ids

-- The abstract filter: a known identifier changes nothing, and a new one takes the oldest one's place.
pub remember : List ℕ → ℕ → List ℕ
remember [] packet_id = packet_id ∷ []
remember (oldest ∷ ids) packet_id =
    if get_packet_id_repeat_buf (oldest ∷ ids) packet_id
    then oldest ∷ ids
    else ids ++ (packet_id ∷ [])

pub get-append :
    (xs ys : List ℕ) (i : ℕ)
    → get_packet_id_repeat_buf (xs ++ ys) i
      ≡ (get_packet_id_repeat_buf xs i || get_packet_id_repeat_buf ys i)
unfolding get_packet_id_repeat_buf
get-append [] ys i = refl
get-append (x ∷ xs) ys i = rw (get-append xs ys i) (ground arith)

-- The order of the identifiers makes no difference to the search.
pub get-recent :
    (b : RepeatBuf) (i : ℕ)
    → get_packet_id_repeat_buf (recent b) i ≡ get_packet_id_repeat_buf b.ids i
unfolding recent
get-recent b i = ground (
  arith,
  get-append (drop b.cnt b.ids) (take b.cnt b.ids) i,
  get-append (take b.cnt b.ids) (drop b.cnt b.ids) i,
  ap (λ l. get_packet_id_repeat_buf l i) (take-append-drop b.cnt b.ids),
)

pub drop-cons : (k : ℕ) (xs : List ℕ) → k < length xs → (x : ℕ) × (drop k xs ≡ x ∷ drop (suc k) xs)
drop-cons k [] h = absurd (omega arith)
drop-cons zero (x ∷ xs) h = (x, refl)
drop-cons (suc k) (x ∷ xs) h = drop-cons k xs (omega arith)

drop-set : (k : ℕ) (xs : List ℕ) (v : ℕ) → drop (suc k) (set xs k v) ≡ drop (suc k) xs
drop-set k [] v = refl
drop-set zero (x ∷ xs) v = refl
drop-set (suc k) (x ∷ xs) v = drop-set k xs v

take-set :
    (k : ℕ) (xs : List ℕ) (v : ℕ)
    → k < length xs
    → take (suc k) (set xs k v) ≡ take k xs ++ (v ∷ [])
take-set k [] v h = absurd (omega arith)
take-set zero (x ∷ xs) v h = refl
take-set (suc k) (x ∷ xs) v h = ap (λ l. x ∷ l) (take-set k xs v (omega arith))

take-all : (xs : List ℕ) → take (length xs) xs ≡ xs
take-all [] = refl
take-all (x ∷ xs) = ap (λ l. x ∷ l) (take-all xs)

drop-all : (xs : List ℕ) → drop (length xs) xs ≡ []
drop-all [] = refl
drop-all (x ∷ xs) = drop-all xs

-- A write at the index, and the move of the index, put the new identifier last.
recent-write :
    (ids : List ℕ) (k v : ℕ)
    → length ids ≡ 10
    → k < 10
    → recent (record { ids = set ids k v; cnt = (k + 1) % 10 })
      ≡ drop (suc k) ids ++ (take k ids ++ (v ∷ []))
unfolding recent
recent-write ids k v full h = elim (dec_lt k 9) [
  | yes more ↦
      let next : (k + 1) % 10 ≡ suc k = omega arith in
      rw (next, drop-set k ids v, take-set k ids v (omega arith))
  | no last ↦
      let next : (k + 1) % 10 ≡ 0 = omega arith in
      let size : suc k ≡ length ids = omega arith in
      let gone : drop (suc k) ids ≡ [] = rw size (drop-all ids) in
      let kept : take (suc k) (set ids k v) ≡ set ids k v =
        subst (λ n. take n (set ids k v) ≡ set ids k v) (length-set ids k v ∙ sym size)
          (take-all (set ids k v)) in
      rw (next, append-nil, gone) (sym kept ∙ take-set k ids v (omega arith))
]

pub remember-known : (l : List ℕ) (i : ℕ) → get_packet_id_repeat_buf l i ≡ true → remember l i ≡ l
unfolding remember
remember-known [] i h = unfold get_packet_id_repeat_buf in cc
remember-known (x ∷ l) i h = rw h

pub remember-new :
    (x : ℕ) (l : List ℕ) (i : ℕ)
    → get_packet_id_repeat_buf (x ∷ l) i ≡ false
    → remember (x ∷ l) i ≡ l ++ (i ∷ [])
unfolding remember
remember-new x l i h = rw h

-- On a valid ring, oldest identifier first, _add_packet_id_to_repeat_buf changes nothing for an
-- identifier that is known, and puts one that is not last, in the place of the oldest.
pub add_packet_id_refines :
    {b : RepeatBuf} (packet_id : ℕ)
    → IsValid b
    → recent (add_packet_id_to_repeat_buf b packet_id) ≡ remember (recent b) packet_id
unfolding add_packet_id_to_repeat_buf
add_packet_id_refines {b} packet_id v =
    elim (Bool-cases (get_packet_id_repeat_buf b.ids packet_id)) [
      | inl known ↦
          rw known (sym (remember-known (recent b) packet_id (get-recent b packet_id ∙ known)))
      | inr new ↦
          let (oldest, at) = drop-cons b.cnt b.ids (omega arith) in
          let shape : recent b ≡ oldest ∷ (drop (suc b.cnt) b.ids ++ take b.cnt b.ids) =
            unfold recent in rw at in
          let unknown =
            sym (ap (λ l. get_packet_id_repeat_buf l packet_id) shape)
            ∙ get-recent b packet_id
            ∙ new in
          rw (new, shape)
            (recent-write b.ids b.cnt packet_id v.full v.inside
              ∙ sym (append_assoc (drop (suc b.cnt) b.ids) _ _)
              ∙ sym (remember-new oldest _ packet_id unknown))
    ]
