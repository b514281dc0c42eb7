-- ===== src/Client/Examples/Topics.antt =====
-- Topics, packet identifiers, the filter of repeated packets and the array of subscriptions.
use iot_hub_device_c_sdk.Prelude.{
  ℕ, ◌+◌, ◌-◌, ◌%◌, ◌≡◌, ◌↔◌, refl, List, [], ◌∷◌, arith, none, some, true, false, if◌then◌else◌,
  eq_bytes,
}
use iot_hub_device_c_sdk.Client.State.{SubTopicHandle}
use iot_hub_device_c_sdk.Client.Topic.{is_topic_matched, skip_level, Matches, is_topic_matched_iff}
use iot_hub_device_c_sdk.Client.Topic.Levels.{FilterLevel, named, single_level}
use iot_hub_device_c_sdk.Client.PacketId.{after_calls, after_calls_lem}
use iot_hub_device_c_sdk.Client.RepeatBuf.{
  RepeatBuf, IsValid, add_packet_id_to_repeat_buf, recent, remember, add_packet_id-IsValid,
  add_packet_id_refines,
}
use iot_hub_device_c_sdk.Client.Handles.{has_wildcard, remove_handles, add_handle, find_slot}
use iot_hub_device_c_sdk.Client.Handles.Laws.{
  find, find-remove_handles, find-remove_handles_wildcard,
}
use iot_hub_device_c_sdk.Client.Handles.Add.{
  first_named, first_free, add_handle_full, find-add_handle,
}
use iot_hub_device_c_sdk.Client.WaitList.{no_handle}
use iot_hub_device_c_sdk.Client.Examples.{client, topic, handle}

is_topic_matched_iff_at :
    (is_topic_matched (b'a' ∷ b'/' ∷ b'+' ∷ []) topic ≡ true)
    ↔ Matches (b'a' ∷ b'/' ∷ b'+' ∷ []) topic
is_topic_matched_iff_at = is_topic_matched_iff (b'a' ∷ b'/' ∷ b'+' ∷ []) topic

-- The filter a/+ and the topic a/b.
abbrev filter_levels : List FilterLevel
filter_levels = named (b'a' ∷ []) ∷ single_level ∷ []

abbrev topic_levels : List (List ℕ)
topic_levels = (b'a' ∷ []) ∷ (b'b' ∷ []) ∷ []

topic_matched : is_topic_matched (b'a' ∷ b'/' ∷ b'+' ∷ []) topic ≡ true
unfolding is_topic_matched skip_level
topic_matched = refl

after_calls_lem_at : after_calls 2 65534 ≡ (65534 - 1 + 2) % 65535 + 1
after_calls_lem_at = after_calls_lem 2 65534 (omega arith) (omega arith)

abbrev pub ring : RepeatBuf
ring = client.repeat_buf

abbrev pub handles : List SubTopicHandle
handles = client.sub_handles

pub valid : IsValid ring
valid = record { full = refl; inside = omega arith }

ring_stays-IsValid : IsValid (add_packet_id_to_repeat_buf ring 5)
ring_stays-IsValid = add_packet_id-IsValid {b = ring} 5 valid

add_packet_id_refines_example :
    recent (add_packet_id_to_repeat_buf ring 5) ≡ remember (recent ring) 5
add_packet_id_refines_example = add_packet_id_refines {b = ring} 5 valid

pub topic_plain : has_wildcard topic ≡ false
unfolding has_wildcard
topic_plain = refl

abbrev all_topics : List ℕ
all_topics = b'c' ∷ b'/' ∷ b'#' ∷ []

all_wild : has_wildcard all_topics ≡ true
unfolding has_wildcard
all_wild = refl

find-remove_handles_at :
    find topic (remove_handles topic handles).2
    ≡ (if eq_bytes topic topic then none else find topic handles)
find-remove_handles_at = find-remove_handles topic topic handles topic_plain

find-remove_handles_wildcard_at : find topic (remove_handles all_topics handles).2 ≡ none
find-remove_handles_wildcard_at = find-remove_handles_wildcard all_topics topic handles all_wild

add_handle_full_at :
    (add_handle handle topic (handle ∷ []) ≡ none)
    ↔ ((first_named topic (handle ∷ []) ≡ none) × (first_free (handle ∷ []) ≡ none))
add_handle_full_at = add_handle_full topic handle (handle ∷ [])

handle_added : add_handle handle topic (no_handle ∷ []) ≡ some ([], handle ∷ [])
unfolding add_handle find_slot
handle_added = refl

find-add_handle_at :
    find topic (handle ∷ [])
    ≡ (if eq_bytes topic topic then some handle else find topic (no_handle ∷ []))
unfolding eq_bytes
find-add_handle_at = find-add_handle topic topic handle (no_handle ∷ []) refl handle_added
