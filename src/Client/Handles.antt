-- ===== src/Client/Handles.antt =====
-- The array of subscriptions, `sub_handles`, of
-- services/common/mqtt_client/src/mqtt_client_subscribe.c.
pub mod Laws
pub mod Add
use iot_hub_device_c_sdk.Prelude.{
  ℕ, zero, suc, ◌+◌, ◌<◌, ◌≡◌, refl, List, [], ◌∷◌, ◌++◌, Bool, true, false, not, ◌&&◌, ◌||◌,
  Option, none, some, if◌then◌else◌, ◌==◌, eq_bytes, set, arith,
}
use iot_hub_device_c_sdk.Client.State.{
  Text, SubTopicHandle, Effect, sub_event, free_text, free_user_data, event_unsubscribe,
  event_client_destroy,
}

-- `topic_filter && !strcmp(topic_filter, topic)`
abbrev pub is_named : List ℕ → SubTopicHandle → Bool
is_named topic h = elim h.topic_filter [ none ↦ false | some t ↦ eq_bytes t.bytes topic ]

abbrev pub is_free : SubTopicHandle → Bool
is_free h = elim h.topic_filter [ none ↦ true | some t ↦ false ]

-- _clear_sub_handle: the handle that it leaves, and what it frees.
unfoldable pub clear_sub_handle : SubTopicHandle → SubTopicHandle
clear_sub_handle h = record h {
  topic_filter = none;
  params = record (h.params) {
    user_data =
        if not (h.params.user_data == 0) && h.params.user_data_free then 0 else h.params.user_data;
  };
}

unfoldable pub clear_effects : SubTopicHandle → List Effect
clear_effects h =
    elim h.topic_filter [ none ↦ [] | some t ↦ free_text t.addr ∷ [] ]
    ++ (if not (h.params.user_data == 0) && h.params.user_data_free
        then free_user_data h.params.user_data ∷ []
        else [])

-- `strstr(topic_filter, "/#") || strstr(topic_filter, "/+")`
unfoldable pub has_wildcard : List ℕ → Bool
has_wildcard [] = false
has_wildcard (a ∷ []) = false
has_wildcard (a ∷ b ∷ cs) = (a == b'/' && (b == b'#' || b == b'+')) || has_wildcard (b ∷ cs)

-- The test of the loops that look for a topic.
abbrev pub is_hit : List ℕ → SubTopicHandle → Bool
is_hit topic h = is_named topic h || has_wildcard topic

-- The loop of _remove_sub_handle_from_array: whether the topic exists, what is called and freed, and
-- the array.
unfoldable pub remove_handles :
    List ℕ → List SubTopicHandle → Bool × List Effect × List SubTopicHandle
remove_handles topic [] = (false, [], [])
remove_handles topic (h ∷ hs) =
    let (exists, effects, rest) = remove_handles topic hs in
    if is_hit topic h
    then (
      true,
      (if h.params.on_sub_event_handler
            then sub_event event_unsubscribe h.params.user_data ∷ []
            else [])
          ++ (clear_effects h ++ effects),
      clear_sub_handle h ∷ rest,
    )
    else (exists, effects, h ∷ rest)

-- The loop of _add_sub_handle_to_array from index `i` on: `i_free`, and whether it stopped at an
-- identical topic.
unfoldable pub find_slot : List ℕ → List SubTopicHandle → ℕ → Option ℕ → Option ℕ × Bool
find_slot topic [] i i_free = (i_free, false)
find_slot topic (h ∷ hs) i i_free =
    let free : Option ℕ = elim i_free [
      | none ↦ (if is_free h then some i else none)
      | some k ↦ some k
    ] in
    let rest = find_slot topic hs (i + 1) free in if is_named topic h then (some i, true) else rest

-- What the slot at an index frees when the loop stops there.
unfoldable pub slot_effects : List SubTopicHandle → ℕ → List Effect
slot_effects [] i = []
slot_effects (h ∷ hs) zero = clear_effects h
slot_effects (h ∷ hs) (suc i) = slot_effects hs i

-- _add_sub_handle_to_array: nothing if there is no space left.
unfoldable pub add_handle :
    SubTopicHandle → List ℕ → List SubTopicHandle → Option (List Effect × List SubTopicHandle)
add_handle sub_handle topic hs =
    let (slot, identical) = find_slot topic hs 0 none in
    elim slot [
      | none ↦ none
      | some i ↦ some ((if identical then slot_effects hs i else []), set hs i sub_handle)
    ]

-- _set_sub_handle_status_to_array
unfoldable pub set_status : List ℕ → Bool → List SubTopicHandle → List SubTopicHandle
set_status topic status [] = []
set_status topic status (h ∷ hs) =
    if is_named topic h then record h { status = status } ∷ hs else h ∷ set_status topic status hs

-- qcloud_iot_mqtt_is_sub_ready
unfoldable pub is_sub_ready : List ℕ → List SubTopicHandle → Bool
is_sub_ready topic [] = false
is_sub_ready topic (h ∷ hs) = if is_hit topic h then h.status else is_sub_ready topic hs

-- qcloud_iot_mqtt_get_subscribe_usr_data; 0 is NULL.
unfoldable pub get_subscribe_usr_data : List ℕ → List SubTopicHandle → ℕ
get_subscribe_usr_data topic [] = 0
get_subscribe_usr_data topic (h ∷ hs) =
    if is_hit topic h then h.params.user_data else get_subscribe_usr_data topic hs

-- qcloud_iot_mqtt_sub_handle_array_clear
unfoldable pub sub_handle_array_clear : List SubTopicHandle → List Effect × List SubTopicHandle
sub_handle_array_clear [] = ([], [])
sub_handle_array_clear (h ∷ hs) =
    let (effects, rest) = sub_handle_array_clear hs in
    (
      (if not (is_free h) && h.params.on_sub_event_handler
            then sub_event event_client_destroy h.params.user_data ∷ []
            else [])
          ++ (clear_effects h ++ effects),
      clear_sub_handle h ∷ rest,
    )
