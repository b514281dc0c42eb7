-- ===== src/Utils/List/Pop.antt =====
-- common/utils/src/utils_list.c: utils_list_pop at the head of the list, and utils_list_destroy.
use iot_hub_device_c_sdk.Prelude.{
  ℕ, ◌+◌, ◌-◌, ◌≡◌, refl, none, some, List, [], ◌∷◌, ◌++◌, if◌then◌else◌, length, append-nil,
  append_assoc, arith, sym,
}
use iot_hub_device_c_sdk.Utils.List.{utils_list_pop, destroy_nodes, utils_list_destroy}
use iot_hub_device_c_sdk.Utils.List.Cells.{
  ListNode, list_node, Heap, write, Store, Event, list_free, list_free_self, list_lock_deinit,
}
use iot_hub_device_c_sdk.Utils.List.Access.{load_lem, set_prev_lem, free_node_lem}
use iot_hub_device_c_sdk.Utils.List.Chain.{Nodes, first, Chain, Chain-write, Chain-set_prev}
use iot_hub_device_c_sdk.Utils.List.Ends.{IsList, Ends, Keeps}

-- What a queue does: return NULL when it is empty, and otherwise the first value.
abbrev pub queue_pop : Nodes → ℕ × Nodes
queue_pop [] = (0, [])
queue_pop ((a, v) ∷ xs) = (v, xs)

abbrev pub popped_node : Nodes → List Event
popped_node [] = []
popped_node ((a, v) ∷ xs) = list_free a ∷ []

abbrev pub Popped : Store → Nodes → ℕ → Store → Type 0
Popped s xs val s' =
    (val ≡ (queue_pop xs).0) × IsList s' (queue_pop xs).1 × Keeps (popped_node xs) s s'

pop_empty : (s : Store) → IsList s [] → Ends (Popped s []) (utils_list_pop s)
unfolding utils_list_pop
pop_empty s is = record {
  value = 0;
  store = s;
  ends = ground arith;
  meets = (refl, is, ground (arith, append-nil s.events));
}

-- The heap once a node is cleared and freed.
abbrev freed : Heap → ℕ → ℕ → Heap
freed h a v = write (write h a (some (list_node 0 0 v))) a none

pop_only :
    (s : Store) (a v : ℕ)
    → IsList s ((a, v) ∷ [])
    → Ends (Popped s ((a, v) ∷ [])) (utils_list_pop s)
unfolding utils_list_pop write
pop_only s a v is =
    let locked : Store = record s {
      held = if s.lock then s.held + 1 else s.held;
      len = 0;
      head = 0;
      tail = 0;
    } in
    let cleared : Store = record locked {
      held = s.held;
      cell = write s.cell a (some (list_node 0 0 v));
    } in
    record {
      value = v;
      store = record s {
        head = 0;
        tail = 0;
        len = 0;
        cell = freed s.cell a v;
        events = s.events ++ (list_free a ∷ []);
      };
      ends = ground (
        arith,
        is.chain,
        load_lem a (list_node 0 0 v) locked,
        free_node_lem a (list_node 0 0 v) cleared,
      );
      meets = ground arith;
    }

module _ (s : Store) (a v b w : ℕ) (xs : Nodes) (is : IsList s ((a, v) ∷ (b, w) ∷ xs)) where
  abbrev second : ListNode
  second = list_node a (first xs 0) w

  abbrev headed : Heap
  headed = write s.cell b (some (record second { prev = 0 }))

  headed-Chain : Chain (freed headed a v) 0 0 ((b, w) ∷ xs)
  headed-Chain = Chain-write _ a none 0 0 ((b, w) ∷ xs) is.chain.3 (
      Chain-write headed a _ 0 0 ((b, w) ∷ xs) is.chain.3
        (Chain-set_prev s.cell a 0 0 b w xs second is.chain.4 is.chain.4.2))

  -- The head is still what it was when the next node is made the first.
  headed_first : headed a ≡ some (list_node 0 b v)
  unfolding write
  headed_first = ground (arith, is.chain)

  pop_more : Ends (Popped s ((a, v) ∷ (b, w) ∷ xs)) (utils_list_pop s)
  unfolding utils_list_pop write
  pop_more =
      let locked : Store = record s {
        held = if s.lock then s.held + 1 else s.held;
        len = s.len - 1;
      } in
      let moved : Store = record locked { head = b } in
      let linked : Store = record moved { cell = headed } in
      let cleared : Store = record linked {
        held = s.held;
        cell = write headed a (some (list_node 0 0 v));
      } in
      record {
        value = v;
        store = record s {
          head = b;
          len = s.len - 1;
          cell = freed headed a v;
          events = s.events ++ (list_free a ∷ []);
        };
        ends = ground (
          arith,
          is.chain,
          headed_first,
          load_lem a (list_node 0 b v) locked,
          set_prev_lem b second moved,
          load_lem a (list_node 0 b v) linked,
          free_node_lem a (list_node 0 0 v) cleared,
        );
        meets = (
          refl,
          record {
            chain = headed-Chain;
            head = refl;
            tail = is.tail;
            len = omega (arith, is.len);
            bounded = omega (arith, is.bounded);
          },
          ground arith,
        );
      }

-- On a well linked list, utils_list_pop does what a queue does: it returns NULL when the list is
-- empty, and otherwise unlinks the first node and returns its value. The list stays well linked, the
-- lock is released, and the node, not its value, is freed.
pub utils_list_pop_lem :
    (s : Store) (xs : Nodes) → IsList s xs → Ends (Popped s xs) (utils_list_pop s)
utils_list_pop_lem s [] is = pop_empty s is
utils_list_pop_lem s ((a, v) ∷ []) is = pop_only s a v is
utils_list_pop_lem s ((a, v) ∷ (b, w) ∷ xs) is = pop_more s a v b w xs is

-- What is freed when a list is destroyed: each value and its node, once, in order.
abbrev pub frees : Nodes → List Event
frees [] = []
frees ((a, v) ∷ xs) = list_free v ∷ list_free a ∷ frees xs

destroy_nodes_lem :
    (xs : Nodes) (s : Store) (prev : ℕ)
    → Chain s.cell prev 0 xs
    → Ends
        (λ u s'. (s'.events ≡ s.events ++ frees xs) × (s'.lock ≡ s.lock))
        (destroy_nodes (length xs) (first xs 0) s)
unfolding destroy_nodes
destroy_nodes_lem [] s prev c = record {
  value = tt;
  store = s;
  ends = refl;
  meets = (sym (append-nil s.events), refl);
}
destroy_nodes_lem ((a, v) ∷ xs) s prev c =
    let valued : Store = record s { events = s.events ++ (list_free v ∷ []) } in
    let gone : Store = record valued {
      cell = write s.cell a none;
      events = (s.events ++ (list_free v ∷ [])) ++ (list_free a ∷ []);
    } in
    let rest : Ends _ _ = destroy_nodes_lem xs gone a (Chain-write s.cell a none a 0 xs c.3 c.4) in
    let n : ListNode = list_node prev (first xs 0) v in
    record {
      value = rest.value;
      store = rest.store;
      ends = ground (arith, rest.ends, load_lem a n s, free_node_lem a n valued);
      meets = ground (
        arith,
        rest.meets,
        append_assoc s.events (list_free v ∷ []) (list_free a ∷ []),
        append_assoc s.events (list_free v ∷ list_free a ∷ []) (frees xs),
      );
    }

-- utils_list_destroy frees each value and each node of a well linked list once, from the head on, then
-- the lock, if the list has one, and then the list.
pub utils_list_destroy_lem :
    (s : Store) (xs : Nodes)
    → IsList s xs
    → Ends
        (λ u s'.
          s'.events
          ≡ (s.events ++ frees xs)
            ++ ((if s.lock then list_lock_deinit ∷ [] else []) ++ (list_free_self ∷ [])))
        (utils_list_destroy s)
unfolding utils_list_destroy
utils_list_destroy_lem s xs is =
    let nodes : Ends _ _ = destroy_nodes_lem xs s 0 is.chain in
    record {
      value = tt;
      store = record nodes.store {
        events =
            (nodes.store.events ++ (if s.lock then list_lock_deinit ∷ [] else []))
            ++ (list_free_self ∷ []);
      };
      ends =
          ground (arith, is.len, is.head, nodes.ends, nodes.meets, append-nil nodes.store.events);
      meets = ground (
        arith,
        nodes.meets,
        append_assoc (s.events ++ frees xs) (list_lock_deinit ∷ []) (list_free_self ∷ []),
        append-nil (s.events ++ frees xs),
      );
    }
