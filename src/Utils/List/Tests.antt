-- ===== src/Utils/List/Tests.antt =====
-- Lists of common/utils/src/utils_list.c at concrete heaps: what the theorems about them say there.
use iot_hub_device_c_sdk.Prelude.{
  ℕ, ◌+◌, ◌≡◌, refl, true, false, none, some, [], ◌∷◌, ◌==◌, if◌then◌else◌, arith,
}
use iot_hub_device_c_sdk.Utils.List.{
  list_head, list_tail, utils_list_push, utils_list_pop, utils_list_remove, utils_list_process,
}
use iot_hub_device_c_sdk.Utils.List.Cells.{
  list_node, Heap, write, Store, Run, done, fault, out_of_fuel,
}
use iot_hub_device_c_sdk.Utils.List.Chain.{Nodes}
use iot_hub_device_c_sdk.Utils.List.Ends.{IsList, Ends, Pushed, utils_list_push_lem}
use iot_hub_device_c_sdk.Utils.List.Pop.{Popped, utils_list_pop_lem}
use iot_hub_device_c_sdk.Utils.List.Unlink.{Removed, utils_list_remove_lem}
use iot_hub_device_c_sdk.Utils.List.Process.{Decide, handler_of, Walked, utils_list_process_lem}

-- Three nodes at 0x10, 0x20 and 0x30 with the values 1, 2 and 3.
abbrev three_cells : Heap
three_cells p =
    if p == 0x10
    then some (list_node 0 0x20 1)
    else if p == 0x20
    then some (list_node 0x10 0x30 2)
    else if p == 0x30
    then some (list_node 0x20 0 3)
    else none

abbrev three : Store
three = record {
  head = 0x10;
  tail = 0x30;
  len = 3;
  max_len = 4;
  lock = true;
  held = 0;
  cell = three_cells;
  events = [];
}

abbrev three_nodes : Nodes
three_nodes = (0x10, 1) ∷ (0x20, 2) ∷ (0x30, 3) ∷ []

three-IsList : IsList three three_nodes
three-IsList = ground arith

utils_list_push_lem_example : Ends (Pushed 0x40 4 three three_nodes) (utils_list_push 0x40 4 three)
utils_list_push_lem_example = utils_list_push_lem 0x40 4 three three_nodes three-IsList refl

utils_list_pop_lem_example : Ends (Popped three three_nodes) (utils_list_pop three)
utils_list_pop_lem_example = utils_list_pop_lem three three_nodes three-IsList

utils_list_remove_lem_example :
    Ends (Removed 0x20 2 ((0x10, 1) ∷ []) ((0x30, 3) ∷ []) three) (utils_list_remove 0x20 three)
utils_list_remove_lem_example =
    utils_list_remove_lem ((0x10, 1) ∷ []) ((0x30, 3) ∷ []) 0x20 2 three three-IsList

-- Remove the value 2 and go on.
abbrev drop_two : Decide ℕ
drop_two node val visits =
    if val == 2 then (true, false, visits + 1) else (false, false, visits + 1)

utils_list_process_lem_example :
    Ends
      (Walked drop_two [] three_nodes three 0)
      (utils_list_process 4 list_head (some (handler_of drop_two)) 0 three)
utils_list_process_lem_example =
    utils_list_process_lem drop_two three_nodes 4 three 0 three-IsList (omega arith)

visits_of : Run ℕ → ℕ
visits_of (done n s) = n
visits_of fault = 100
visits_of out_of_fuel = 200

visits_all_from_tail :
    visits_of (utils_list_process 4 list_tail (some (handler_of drop_two)) 0 three) ≡ 3
unfolding utils_list_process visits_of utils_list_remove write
visits_all_from_tail = refl

pop_of_three : visits_of (utils_list_pop three) ≡ 1
unfolding utils_list_pop visits_of write
pop_of_three = refl
