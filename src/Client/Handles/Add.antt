-- ===== src/Client/Handles/Add.antt =====
-- _add_sub_handle_to_array: which slot it takes, when there is none, and what it does to the
-- subscriptions.
use iot_hub_device_c_sdk.Prelude.{
  ℕ, zero, suc, ◌+◌, ◌≡◌, ◌↔◌, refl, ap, List, [], ◌∷◌, true, false, Option, none, some,
  if◌then◌else◌, eq_bytes, eq_bytes_comm, set, arith, Option-cases, inl, inr,
}
use iot_hub_device_c_sdk.Client.State.{SubTopicHandle, Effect}
use iot_hub_device_c_sdk.Client.Handles.{is_named, is_free, find_slot, add_handle}
use iot_hub_device_c_sdk.Client.Handles.Laws.{find, is_named_eq}

-- The first slots that hold the topic, and that are free.
pub first_named : List ℕ → List SubTopicHandle → Option ℕ
first_named topic [] = none
first_named topic (h ∷ hs) =
    if is_named topic h
    then some 0
    else elim (first_named topic hs) [ none ↦ none | some k ↦ some (suc k) ]

pub first_free : List SubTopicHandle → Option ℕ
first_free [] = none
first_free (h ∷ hs) =
    if is_free h then some 0 else elim (first_free hs) [ none ↦ none | some k ↦ some (suc k) ]

abbrev shift : ℕ → Option ℕ → Option ℕ
shift i none = none
shift i (some k) = some (i + k)

abbrev or_else : Option ℕ → Option ℕ → Option ℕ
or_else none b = b
or_else (some a) b = some a

-- The loop finds the first identical topic, or else the first free slot.
find_slot_lem :
    (topic : List ℕ) (hs : List SubTopicHandle) (i : ℕ) (i_free : Option ℕ)
    → find_slot topic hs i i_free ≡ elim (first_named topic hs) [
      | none ↦ (or_else i_free (shift i (first_free hs)), false)
      | some k ↦ (some (i + k), true)
    ]
unfolding find_slot first_named first_free
find_slot_lem topic [] i i_free =
    elim i_free as (λ x. find_slot topic [] i x ≡ (or_else x none, false)) [
      | none ↦ refl
      | some a ↦ refl
    ]
find_slot_lem topic (h ∷ hs) i i_free = ground (
  arith,
  find_slot_lem topic hs (i + 1)
      (elim i_free [ none ↦ (if is_free h then some i else none) | some k ↦ some k ]),
)

module _ (topic other : List ℕ) (new : SubTopicHandle) (named : is_named topic new ≡ true) where
  find-set_named :
      (hs : List SubTopicHandle) (k : ℕ)
      → first_named topic hs ≡ some k
      → find other (set hs k new) ≡ (if eq_bytes topic other then some new else find other hs)
  unfolding find first_named
  find-set_named [] k e = cc
  find-set_named (h ∷ hs) zero e = ground (
    arith,
    is_named_eq topic other h,
    is_named_eq other topic h,
    eq_bytes_comm topic other,
    is_named_eq topic other new,
    named,
  )
  find-set_named (h ∷ hs) (suc k) e = ground (
    arith,
    is_named_eq topic other h,
    is_named_eq other topic h,
    eq_bytes_comm topic other,
    is_named_eq topic other new,
    named,
    find-set_named hs k,
  )

  find-set_free :
      (hs : List SubTopicHandle) (k : ℕ)
      → first_named topic hs ≡ none
      → first_free hs ≡ some k
      → find other (set hs k new) ≡ (if eq_bytes topic other then some new else find other hs)
  unfolding find first_named first_free
  find-set_free [] k n e = cc
  find-set_free (h ∷ hs) zero n e = ground (
    arith,
    is_named_eq topic other h,
    is_named_eq other topic h,
    eq_bytes_comm topic other,
    is_named_eq topic other new,
    named,
  )
  find-set_free (h ∷ hs) (suc k) n e = ground (
    arith,
    is_named_eq topic other h,
    is_named_eq other topic h,
    eq_bytes_comm topic other,
    is_named_eq topic other new,
    named,
    find-set_free hs k,
  )

slot_named :
    (topic : List ℕ) (hs : List SubTopicHandle) (k : ℕ)
    → first_named topic hs ≡ some k
    → find_slot topic hs 0 none ≡ (some k, true)
slot_named topic hs k e =
    rw (find_slot_lem topic hs 0 none, e) (ap (λ n. (some n, true)) (omega arith))

slot_free :
    (topic : List ℕ) (hs : List SubTopicHandle) (k : ℕ)
    → first_named topic hs ≡ none
    → first_free hs ≡ some k
    → find_slot topic hs 0 none ≡ (some k, false)
slot_free topic hs k n e =
    rw (find_slot_lem topic hs 0 none, n, e) (ap (λ m. (some m, false)) (omega arith))

slot_none :
    (topic : List ℕ) (hs : List SubTopicHandle)
    → first_named topic hs ≡ none
    → first_free hs ≡ none
    → find_slot topic hs 0 none ≡ (none, false)
slot_none topic hs n e = rw (find_slot_lem topic hs 0 none, n, e)

-- A subscription is refused exactly when its topic is not in the array and no slot is free.
pub add_handle_full :
    (topic : List ℕ) (new : SubTopicHandle) (hs : List SubTopicHandle)
    → (add_handle new topic hs ≡ none) ↔ ((first_named topic hs ≡ none) × (first_free hs ≡ none))
unfolding add_handle
add_handle_full topic new hs = elim (Option-cases (first_named topic hs)) [
  | inr (k, e) ↦ ground (arith, slot_named topic hs k e)
  | inl n ↦ elim (Option-cases (first_free hs)) [
    | inr (k, e) ↦ ground (arith, slot_free topic hs k n e)
    | inl e ↦ ground (arith, slot_none topic hs n e)
  ]
]

-- A subscription that is stored becomes that of its topic, and those of the other topics stay.
pub find-add_handle :
    (topic other : List ℕ) (new : SubTopicHandle) (hs : List SubTopicHandle)
    → {effects : List Effect} {hs' : List SubTopicHandle} → is_named topic new ≡ true
    → add_handle new topic hs ≡ some (effects, hs')
    → find other hs' ≡ (if eq_bytes topic other then some new else find other hs)
unfolding add_handle
find-add_handle topic other new hs named h = elim (Option-cases (first_named topic hs)) [
  | inr (k, e) ↦
      ground (arith, slot_named topic hs k e, find-set_named topic other new named hs k e)
  | inl n ↦ elim (Option-cases (first_free hs)) [
    | inr (k, e) ↦
        ground (arith, slot_free topic hs k n e, find-set_free topic other new named hs k n e)
    | inl e ↦ ground (arith, slot_none topic hs n e)
  ]
]
