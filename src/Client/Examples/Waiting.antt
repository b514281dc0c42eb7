-- ===== src/Client/Examples/Waiting.antt =====
-- Waiting lists of the client in a heap: what the theorem about their traversal says there.
use iot_hub_device_c_sdk.Prelude.{ℕ, refl, none, some, [], ◌∷◌, ◌==◌, if◌then◌else◌, true, arith}
use iot_hub_device_c_sdk.Utils.List.{list_head, utils_list_process}
use iot_hub_device_c_sdk.Utils.List.Cells.{list_node, Store}
use iot_hub_device_c_sdk.Utils.List.Chain.{Nodes}
use iot_hub_device_c_sdk.Utils.List.Ends.{Ends}
use iot_hub_device_c_sdk.Utils.List.Process.{handler_of}
use iot_hub_device_c_sdk.Client.State.{Client, PubInfo}
use iot_hub_device_c_sdk.Client.WaitList.Stored.{
  pub_item, pub_timeout_decision, Timed, check_pub_timeout_stored,
}
use iot_hub_device_c_sdk.Client.Examples.{client, network}

-- The packets at the addresses of the values: the first waits until 5 ms, the second until 1000 ms.
abbrev packet_at : ℕ → PubInfo
packet_at val = record {
  node = 0;
  buf = [];
  packet_id = val;
  pub_start_time = if val == 1 then 5 else 1000;
}

abbrev two_nodes : Nodes
two_nodes = (0x10, 1) ∷ (0x20, 2) ∷ []

abbrev two_stored : Store
two_stored = record {
  head = 0x10;
  tail = 0x20;
  len = 2;
  max_len = 20;
  lock = true;
  held = 0;
  cell = λ p.
      if p == 0x10
      then some (list_node 0 0x20 1)
      else if p == 0x20
      then some (list_node 0x10 0 2)
      else none;
  events = [];
}

abbrev two_waiting : Client
two_waiting = record client {
  list_pub_wait_ack = pub_item packet_at (0x10, 1) ∷ pub_item packet_at (0x20, 2) ∷ [];
}

check_pub_timeout_stored_example : Ends (Timed packet_at (network 0) two_waiting) (
    utils_list_process 3 list_head
      (some (handler_of (pub_timeout_decision packet_at (network 0))))
      two_waiting
      two_stored)
check_pub_timeout_stored_example =
    check_pub_timeout_stored packet_at (network 0) two_waiting two_stored two_nodes 3 (ground arith)
      refl (omega arith)
