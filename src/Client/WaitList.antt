-- ===== src/Client/WaitList.antt =====
-- The lists of packets that wait for an acknowledgement, of
-- services/common/mqtt_client/src/mqtt_client_publish.c and mqtt_client_subscribe.c. A list is the
-- values of its nodes from the head on, each with its node's address; common/utils/src/utils_list.c
-- stores it and calls the handlers, which may remove the node that they are called for.
pub mod Stored
use iot_hub_device_c_sdk.Prelude.{
  ℕ, List, [], ◌∷◌, ◌++◌, false, Option, none, some, not, if◌then◌else◌, ltb, ◌==◌, length,
}
use iot_hub_device_c_sdk.Packet.Defs.{PacketType, subscribe, unsubscribe, type_number}
use iot_hub_device_c_sdk.Timer.{remain, countdown_ms}
use iot_hub_device_c_sdk.Client.State.{
  Env, M, ◌>>=◌, ◌>>◌, pure, emit, modify, notify, PubInfo, SubInfo, SubTopicHandle, Effect,
  sub_event, client_event, event_publish_timeout, event_subscribe_timeout,
  event_unsubscribe_timeout,
}
use iot_hub_device_c_sdk.Client.Common.{ask}
use iot_hub_device_c_sdk.Client.Handles.{clear_effects}

abbrev pub max_repub_num : ℕ
max_repub_num = 20

abbrev pub max_message_handlers : ℕ
max_message_handlers = 10

-- The handle that a zeroed structure is.
abbrev pub no_handle : SubTopicHandle
no_handle = record {
  topic_filter = none;
  status = false;
  params = record {
    qos = 0;
    on_message_handler = false;
    on_sub_event_handler = false;
    user_data = 0;
    user_data_free = false;
  };
}

-- utils_list_remove at the address of a node.
unfoldable pub remove_pub_node : ℕ → List PubInfo → List PubInfo
remove_pub_node node [] = []
remove_pub_node node (i ∷ infos) = if i.node == node then infos else i ∷ remove_pub_node node infos

unfoldable pub remove_sub_node : ℕ → List SubInfo → List SubInfo
remove_sub_node node [] = []
remove_sub_node node (i ∷ infos) = if i.node == node then infos else i ∷ remove_sub_node node infos

-- _remove_pub_info_from_list: the first entry with the identifier goes.
unfoldable pub remove_pub_info : ℕ → List PubInfo → List PubInfo
remove_pub_info packet_id [] = []
remove_pub_info packet_id (i ∷ infos) =
    if i.packet_id == packet_id then infos else i ∷ remove_pub_info packet_id infos

-- _pop_sub_info_from_list: the handle of the first entry with the identifier, and the list without it.
unfoldable pub pop_sub_info : ℕ → List SubInfo → SubTopicHandle × List SubInfo
pop_sub_info packet_id [] = (no_handle, [])
pop_sub_info packet_id (i ∷ infos) =
    let (handle, rest) = pop_sub_info packet_id infos in
    if i.packet_id == packet_id then (i.handler, infos) else (handle, i ∷ rest)

-- What _sub_wait_list_process_clear frees; the list is left empty.
unfoldable pub sub_wait_list_clear : List SubInfo → List Effect
sub_wait_list_clear [] = []
sub_wait_list_clear (i ∷ infos) =
    (if type_number i.kind == type_number unsubscribe then clear_effects i.handler else [])
    ++ sub_wait_list_clear infos

abbrev pub emit_all : List Effect → M (Unit {0})
emit_all es c = (tt, record c { trace = c.trace ++ es })

-- The notifications of _sub_wait_list_process_check_timeout. The topic's subscriber hears of a
-- subscribe timeout in either case.
unfoldable pub sub_timeout_events : SubInfo → M (Unit {0})
sub_timeout_events i c =
    if c.h_fp
    then (do
      (if i.handler.params.on_sub_event_handler
          then emit (sub_event event_subscribe_timeout i.handler.params.user_data)
          else pure tt)
      emit (
          client_event
            (if type_number subscribe == type_number i.kind
              then event_subscribe_timeout
              else event_unsubscribe_timeout)
            i.packet_id))
        c
    else (tt, c)

module _ (env : Env) where
  -- _push_pub_info_to_list: the address of the node, or nothing if memory or space ran out. The
  -- address is the number of the call that allocates the node.
  unfoldable pub push_pub_info_to_list : List ℕ → ℕ → M (Option ℕ)
  push_pub_info_to_list packet packet_id = do
    info ← ask env.malloc
    if not info then pure none else do
      now ← ask env.now
      room ← (λ c. (ltb (length c.list_pub_wait_ack) max_repub_num, c))
      if not room then pure none else do
        node ← (λ c. (c.step, c))
        stored ← ask env.malloc
        if not stored then pure none else do
          modify λ c. record c {
            list_pub_wait_ack =
                c.list_pub_wait_ack
                ++ (record {
                  node = node;
                  buf = packet;
                  packet_id = packet_id;
                  pub_start_time = countdown_ms now c.command_timeout_ms;
                }
                    ∷ []);
          }
          pure (some node)

  -- _push_sub_info_to_list
  unfoldable pub push_sub_info_to_list : List ℕ → ℕ → PacketType → SubTopicHandle → M (Option ℕ)
  push_sub_info_to_list packet packet_id kind handler = do
    info ← ask env.malloc
    if not info then pure none else do
      now ← ask env.now
      room ← (λ c. (ltb (length c.list_sub_wait_ack) max_message_handlers, c))
      if not room then pure none else do
        node ← (λ c. (c.step, c))
        stored ← ask env.malloc
        if not stored then pure none else do
          modify λ c. record c {
            list_sub_wait_ack =
                c.list_sub_wait_ack
                ++ (record {
                  node = node;
                  buf = packet;
                  kind = kind;
                  packet_id = packet_id;
                  sub_start_time = countdown_ms now c.command_timeout_ms;
                  handler = handler;
                }
                    ∷ []);
          }
          pure (some node)

  -- The traversal of qcloud_iot_mqtt_check_pub_timeout with _pub_wait_list_process_check_timeout: the
  -- entries that stay.
  unfoldable pub pub_timeouts : List PubInfo → M (List PubInfo)
  pub_timeouts [] = pure []
  pub_timeouts (i ∷ infos) = do
    now ← ask env.now
    if ltb 0 (remain i.pub_start_time now)
        then (do rest ← pub_timeouts infos; pure (i ∷ rest))
        else (do notify event_publish_timeout i.packet_id; pub_timeouts infos)

  -- qcloud_iot_mqtt_check_pub_timeout
  unfoldable pub check_pub_timeout : M (Unit {0})
  check_pub_timeout c =
      let (rest, c') = pub_timeouts c.list_pub_wait_ack c in
      (tt, record c' { list_pub_wait_ack = rest })

  -- The traversal of qcloud_iot_mqtt_check_sub_timeout with _sub_wait_list_process_check_timeout.
  unfoldable pub sub_timeouts : List SubInfo → M (List SubInfo)
  sub_timeouts [] = pure []
  sub_timeouts (i ∷ infos) = do
    now ← ask env.now
    if ltb 0 (remain i.sub_start_time now)
        then (do rest ← sub_timeouts infos; pure (i ∷ rest))
        else (do sub_timeout_events i; emit_all (clear_effects i.handler); sub_timeouts infos)

  -- qcloud_iot_mqtt_check_sub_timeout
  unfoldable pub check_sub_timeout : M (Unit {0})
  check_sub_timeout c =
      let (rest, c') = sub_timeouts c.list_sub_wait_ack c in
      (tt, record c' { list_sub_wait_ack = rest })
