-- ===== src/Client/Handles/Laws.antt =====
-- What the operations on `sub_handles` do to the subscription of each topic.
use iot_hub_device_c_sdk.Prelude.{
  ℕ, ◌≡◌, refl, ap, ◌∙◌, List, [], ◌∷◌, Bool, true, false, Option, none, some, if◌then◌else◌,
  eq_bytes, eq_bytes_sound, eq_bytes_comm, Option-cases, Bool-cases, arith, inl, inr,
}
use iot_hub_device_c_sdk.Client.State.{SubTopicHandle}
use iot_hub_device_c_sdk.Client.Handles.{
  is_named, clear_sub_handle, remove_handles, set_status, has_wildcard, is_sub_ready,
}

-- The subscription of a topic: the first handle of that name.
unfoldable pub find : List ℕ → List SubTopicHandle → Option SubTopicHandle
find topic [] = none
find topic (h ∷ hs) = if is_named topic h then some h else find topic hs

-- Names are compared as the topics are: a handle has one name at most.
pub is_named_eq :
    (t u : List ℕ) (h : SubTopicHandle) → is_named t h ≡ true → is_named u h ≡ eq_bytes t u
is_named_eq t u h e = elim (Option-cases h.topic_filter) [
  | inl free ↦ ground arith
  | inr (x, f) ↦
      let named : eq_bytes x.bytes t ≡ true = ground arith in
      let same : x.bytes ≡ t = eq_bytes_sound x.bytes t named in
      let read : is_named u h ≡ eq_bytes x.bytes u = ground arith in
      read ∙ ap (λ l. eq_bytes l u) same
]

cleared_name : (t : List ℕ) (h : SubTopicHandle) → is_named t (clear_sub_handle h) ≡ false
unfolding clear_sub_handle
cleared_name t h = refl

-- Removing a topic without a wildcard removes its subscriptions and no other.
pub find-remove_handles :
    (topic other : List ℕ) (hs : List SubTopicHandle)
    → has_wildcard topic ≡ false
    → find other (remove_handles topic hs).2
      ≡ (if eq_bytes topic other then none else find other hs)
unfolding find remove_handles
find-remove_handles topic other [] w = ground arith
find-remove_handles topic other (h ∷ hs) w = ground (
  arith,
  is_named_eq topic other h,
  is_named_eq other topic h,
  eq_bytes_comm topic other,
  cleared_name other h,
  find-remove_handles topic other hs w,
)

-- Removing a topic with a wildcard removes every subscription.
pub find-remove_handles_wildcard :
    (topic other : List ℕ) (hs : List SubTopicHandle)
    → has_wildcard topic ≡ true
    → find other (remove_handles topic hs).2 ≡ none
unfolding find remove_handles
find-remove_handles_wildcard topic other [] w = refl
find-remove_handles_wildcard topic other (h ∷ hs) w =
    ground (arith, cleared_name other h, find-remove_handles_wildcard topic other hs w)

-- A change of status reaches the subscription of the topic and no other.
pub find-set_status :
    (topic other : List ℕ) (status : Bool) (hs : List SubTopicHandle)
    → find other (set_status topic status hs) ≡ (
        if eq_bytes topic other
        then elim (find other hs) [ none ↦ none | some h ↦ some (record h { status = status }) ]
        else find other hs)
unfolding find set_status
find-set_status topic other status [] = ground arith
find-set_status topic other status (h ∷ hs) = ground (
  arith,
  is_named_eq topic other h,
  is_named_eq other topic h,
  eq_bytes_comm topic other,
  find-set_status topic other status hs,
)

-- For a topic without a wildcard, being ready is that the topic has a subscription that is acknowledged.
pub is_sub_ready-find :
    (topic : List ℕ) (hs : List SubTopicHandle)
    → has_wildcard topic ≡ false
    → is_sub_ready topic hs ≡ true
    → (h : SubTopicHandle) × (find topic hs ≡ some h) × (h.status ≡ true)
unfolding find is_sub_ready
is_sub_ready-find topic [] w e = cc
is_sub_ready-find topic (h ∷ hs) w e = elim (Bool-cases (is_named topic h)) [
  | inl named ↦ (h, rw named refl, ground (arith, named, e))
  | inr other ↦
      let (h', found, ready) = is_sub_ready-find topic hs w (ground (arith, other, w, e)) in
      (h', rw other found, ready)
]
