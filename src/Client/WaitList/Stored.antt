-- ===== src/Client/WaitList/Stored.antt =====
-- The waiting lists of services/common/mqtt_client/src/mqtt_client_publish.c and
-- mqtt_client_subscribe.c as common/utils/src/utils_list.c stores them: what the traversals with their
-- handlers make of the stored list is what the client's own functions make of the sequence.
use iot_hub_device_c_sdk.Prelude.{
  ℕ, ◌+◌, ◌<◌, ◌≡◌, refl, true, false, some, List, [], ◌∷◌, map, ◌==◌, ltb, if◌then◌else◌, length,
  arith, Bool-cases, inl, inr,
}
use iot_hub_device_c_sdk.Timer.{remain}
use iot_hub_device_c_sdk.Utils.List.{list_head, utils_list_process}
use iot_hub_device_c_sdk.Utils.List.Cells.{Store}
use iot_hub_device_c_sdk.Utils.List.Chain.{Nodes}
use iot_hub_device_c_sdk.Utils.List.Ends.{IsList, Ends}
use iot_hub_device_c_sdk.Utils.List.Process.{Decide, handler_of, walk, utils_list_process_lem}
use iot_hub_device_c_sdk.Client.State.{
  Client, Env, PubInfo, SubInfo, SubTopicHandle, notify, event_publish_timeout,
}
use iot_hub_device_c_sdk.Client.Common.{ask}
use iot_hub_device_c_sdk.Client.WaitList.{
  remove_pub_info, pop_sub_info, no_handle, pub_timeouts, check_pub_timeout,
}

-- `at` reads the entry that stands at the address of a value.
module _ (at : ℕ → PubInfo) where
  abbrev pub pub_item : ℕ × ℕ → PubInfo
  pub_item (node, val) = record (at val) { node = node }

  -- _pub_wait_list_process_remove_info
  unfoldable pub remove_pub_decision : ℕ → Decide (Unit {0})
  remove_pub_decision packet_id node val u =
      if (at val).packet_id == packet_id then (true, true, tt) else (false, false, tt)

  remove_pub_walk :
      (packet_id : ℕ) (xs : Nodes)
      → map pub_item (walk (remove_pub_decision packet_id) xs tt).0
        ≡ remove_pub_info packet_id (map pub_item xs)
  unfolding walk remove_pub_decision remove_pub_info
  remove_pub_walk packet_id [] = refl
  remove_pub_walk packet_id ((a, v) ∷ xs) = ground (arith, remove_pub_walk packet_id xs)

  -- _pub_wait_list_process_check_timeout, the client being the user's data
  unfoldable pub pub_timeout_decision : Env → Decide Client
  pub_timeout_decision env node val c =
      let (now, c') = ask env.now c in
      if ltb 0 (remain (at val).pub_start_time now)
      then (false, false, c')
      else (true, false, (notify event_publish_timeout (at val).packet_id c').1)

  pub_timeout_walk :
      (env : Env) (xs : Nodes) (c : Client)
      → ◌≡◌ {A = List PubInfo × Client}
          (
            map pub_item (walk (pub_timeout_decision env) xs c).0,
            (walk (pub_timeout_decision env) xs c).2,
          )
          (pub_timeouts env (map pub_item xs) c)
  unfolding walk pub_timeout_decision pub_timeouts
  pub_timeout_walk env [] c = refl
  pub_timeout_walk env ((a, v) ∷ xs) c =
      let asked : Client = record c { step = c.step + 1 } in
      elim (Bool-cases (ltb 0 (remain (at v).pub_start_time (env.now c.step)))) [
        | inl left ↦ rw left (ground (arith, pub_timeout_walk env xs asked))
        | inr over ↦
            rw over
              (pub_timeout_walk env xs (notify event_publish_timeout (at v).packet_id asked).1)
      ]

  -- What the stored list and the client are once the traversal has run.
  abbrev pub Timed : Env → Client → Client → Store → Type 0
  Timed env c c' s' =
      (xs' : Nodes) × IsList s' xs'
      × ((check_pub_timeout env c).1 ≡ record c' { list_pub_wait_ack = map pub_item xs' })

  -- Where a well linked list stores the packets that wait for an acknowledgement, and `at` reads them,
  -- utils_list_process with the handler of qcloud_iot_mqtt_check_pub_timeout and enough fuel for the
  -- nodes ends without a fault, keeps the list well linked, and leaves the client and the stored
  -- packets as the client's own traversal of the sequence does: those whose timer is over are removed
  -- and notified, in order.
  pub check_pub_timeout_stored :
      (env : Env) (c : Client) (s : Store) (xs : Nodes) (fuel : ℕ)
      → IsList s xs
      → c.list_pub_wait_ack ≡ map pub_item xs
      → length xs < fuel
      → Ends
          (Timed env c)
          (utils_list_process fuel list_head (some (handler_of (pub_timeout_decision env))) c s)
  unfolding check_pub_timeout
  check_pub_timeout_stored env c s xs fuel is stored enough =
      let run : Ends _ _ =
        utils_list_process_lem (pub_timeout_decision env) xs fuel s c is enough in
      record {
        value = run.value;
        store = run.store;
        ends = run.ends;
        meets = (
          (walk (pub_timeout_decision env) xs c).0,
          run.meets.1,
          ground (arith, pub_timeout_walk env xs c, run.meets.0),
        );
      }

  -- The stored list after utils_list_process with the handler of _remove_pub_info_from_list is the
  -- sequence without the first packet of the identifier, and well linked.
  pub remove_pub_info_stored :
      (packet_id : ℕ) (s : Store) (xs : Nodes) (fuel : ℕ)
      → IsList s xs
      → length xs < fuel
      → Ends
          (λ u s'.
            (xs' : Nodes) × IsList s' xs'
            × (map pub_item xs' ≡ remove_pub_info packet_id (map pub_item xs)))
          (utils_list_process fuel list_head
            (some (handler_of (remove_pub_decision packet_id)))
            tt
            s)
  remove_pub_info_stored packet_id s xs fuel is enough =
      let run : Ends _ _ =
        utils_list_process_lem (remove_pub_decision packet_id) xs fuel s tt is enough in
      record {
        value = run.value;
        store = run.store;
        ends = run.ends;
        meets = (
          (walk (remove_pub_decision packet_id) xs tt).0,
          run.meets.1,
          remove_pub_walk packet_id xs,
        );
      }

module _ (at : ℕ → SubInfo) where
  abbrev pub sub_item : ℕ × ℕ → SubInfo
  sub_item (node, val) = record (at val) { node = node }

  -- _sub_wait_list_process_pop_info, the handle of the context being the user's data
  unfoldable pub pop_sub_decision : ℕ → Decide SubTopicHandle
  pop_sub_decision packet_id node val handle =
      if (at val).packet_id == packet_id
      then (true, true, (at val).handler)
      else (false, false, handle)

  pop_sub_walk :
      (packet_id : ℕ) (xs : Nodes)
      → ◌≡◌ {A = SubTopicHandle × List SubInfo}
          (
            (walk (pop_sub_decision packet_id) xs no_handle).2,
            map sub_item (walk (pop_sub_decision packet_id) xs no_handle).0,
          )
          (pop_sub_info packet_id (map sub_item xs))
  unfolding walk pop_sub_decision pop_sub_info
  pop_sub_walk packet_id [] = refl
  pop_sub_walk packet_id ((a, v) ∷ xs) = ground (arith, pop_sub_walk packet_id xs)

  -- utils_list_process with the handler of _pop_sub_info_from_list hands out the handle of the first
  -- entry of the identifier, or a zeroed one, and leaves the stored list, well linked, without it.
  pub pop_sub_info_stored :
      (packet_id : ℕ) (s : Store) (xs : Nodes) (fuel : ℕ)
      → IsList s xs
      → length xs < fuel
      → Ends
          (λ handle s'.
            (xs' : Nodes) × IsList s' xs'
            × ((handle, map sub_item xs') ≡ pop_sub_info packet_id (map sub_item xs)))
          (utils_list_process fuel list_head
            (some (handler_of (pop_sub_decision packet_id)))
            no_handle
            s)
  pop_sub_info_stored packet_id s xs fuel is enough =
      let run : Ends _ _ =
        utils_list_process_lem (pop_sub_decision packet_id) xs fuel s no_handle is enough in
      record {
        value = run.value;
        store = run.store;
        ends = run.ends;
        meets = (
          (walk (pop_sub_decision packet_id) xs no_handle).0,
          run.meets.1,
          ground (arith, run.meets.0, pop_sub_walk packet_id xs),
        );
      }
