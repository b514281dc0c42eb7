-- ===== src/Utils/List/Ends.antt =====
-- common/utils/src/utils_list.c: the list as a sequence, and utils_list_push and utils_list_pop at
-- its ends.
use iot_hub_device_c_sdk.Prelude.{
  ℕ, suc, ◌+◌, ◌≤◌, ◌≡◌, refl, true, false, ◌||◌, none, some, List, [], ◌∷◌, ◌++◌, ◌==◌, leb,
  if◌then◌else◌, length, length-append, append-nil, arith, Bool-cases, inl, inr, sym,
}
use iot_hub_device_c_sdk.Utils.List.{utils_list_push}
use iot_hub_device_c_sdk.Utils.List.Cells.{list_node, Heap, write, Store, Event, Run, done}
use iot_hub_device_c_sdk.Utils.List.Access.{set_next_lem}
use iot_hub_device_c_sdk.Utils.List.Chain.{
  Nodes, first, last, has, Chain, last-append, Chain-write, Chain-append, Chain-set_next,
  Chain-last, Chain-fresh, Apart-node, last_out,
}

-- The store holds the list of the nodes `xs`, well linked, and no longer than it may be.
pub record IsList (s : Store) (xs : Nodes) : Type 0 where
  pub chain : Chain s.cell 0 0 xs
  pub head : s.head ≡ first xs 0
  pub tail : s.tail ≡ last xs 0
  pub len : s.len ≡ length xs
  pub bounded : length xs ≤ s.max_len

-- A run ends with a value and a store that `P` holds of.
pub record Ends {A : Type 0} (P : A → Store → Type 0) (r : Run A) : Type 0 where
  pub value : A
  pub store : Store
  pub ends : r ≡ done value store
  pub meets : P value store

-- What an operation leaves beside the list: the lock as often held, and `es` done.
pub record Keeps (es : List Event) (s s' : Store) : Type 0 where
  pub held : s'.held ≡ s.held
  pub lock : s'.lock ≡ s.lock
  pub max_len : s'.max_len ≡ s.max_len
  pub events : s'.events ≡ s.events ++ es

-- What a bounded queue does: refuse NULL and what it has no room for, or take the value last.
abbrev pub queue_push : (max_len fresh val : ℕ) → Nodes → ℕ × Nodes
queue_push max_len fresh val xs =
    if (val == 0) || (leb max_len (length xs) || (fresh == 0))
    then (0, xs)
    else (fresh, xs ++ ((fresh, val) ∷ []))

abbrev pub Pushed : (fresh val : ℕ) → Store → Nodes → ℕ → Store → Type 0
Pushed fresh val s xs node s' =
    (node ≡ (queue_push s.max_len fresh val xs).0)
    × IsList s' (queue_push s.max_len fresh val xs).1
    × Keeps [] s s'

module _ (fresh val : ℕ) (s : Store) where
  pub push_refused :
      (xs : Nodes)
      → IsList s xs
      → ((val == 0) || (leb s.max_len (length xs) || (fresh == 0))) ≡ true
      → utils_list_push fresh val s ≡ done 0 s
  unfolding utils_list_push
  push_refused xs is h = ground (arith, append-nil s.events)

  push_first :
      IsList s []
      → ((val == 0) || (leb s.max_len 0 || (fresh == 0))) ≡ false
      → Ends (Pushed fresh val s []) (utils_list_push fresh val s)
  unfolding utils_list_push write
  push_first is h = record {
    value = fresh;
    store = record s {
      head = fresh;
      tail = fresh;
      len = 1;
      cell = write s.cell fresh (some (list_node 0 0 val));
    };
    ends = ground arith;
    meets = ground (arith, append-nil s.events);
  }

  module _ (a v : ℕ) (xs : Nodes) (is : IsList s ((a, v) ∷ xs)) (fresh_free : s.cell fresh ≡ none)
      (room : ((val == 0) || (leb s.max_len (suc (length xs)) || (fresh == 0))) ≡ false) where
    abbrev linked : Heap
    linked = write s.cell fresh (some (list_node (last xs a) 0 val))

    out : has fresh ((a, v) ∷ xs) ≡ false
    out = Chain-fresh s.cell fresh 0 0 ((a, v) ∷ xs) fresh_free is.chain

    linked-Chain : Chain linked 0 0 ((a, v) ∷ xs)
    linked-Chain = Chain-write s.cell fresh _ 0 0 ((a, v) ∷ xs) out is.chain

    push_more : Ends (Pushed fresh val s ((a, v) ∷ xs)) (utils_list_push fresh val s)
    unfolding utils_list_push write
    push_more =
        let (n, e, ne, stop) = Chain-last linked 0 0 a v xs linked-Chain in
        let after : Heap = write linked (last xs a) (some (record n { next = fresh })) in
        let before : Store = record s {
          held = if s.lock then s.held + 1 else s.held;
          cell = linked;
        } in
        let node : Chain after (last xs a) 0 ((fresh, val) ∷ []) =
          ground (arith, last_out a v fresh xs out) in
        record {
          value = fresh;
          store = record s { tail = fresh; len = s.len + 1; cell = after };
          ends = ground (arith, set_next_lem (last xs a) n before ne e fresh);
          meets = (
            ground arith,
            record {
              chain = rw room (
                  Chain-append after 0 0 ((a, v) ∷ xs) ((fresh, val) ∷ [])
                    (Apart-node ((a, v) ∷ xs) fresh val out)
                    (Chain-set_next linked 0 0 fresh a v xs n linked-Chain e) node);
              head = rw room is.head;
              tail = rw room (sym (last-append xs ((fresh, val) ∷ []) a));
              len = rw room (ground (arith, is.len, length-append xs ((fresh, val) ∷ [])));
              bounded = rw room (ground (arith, length-append xs ((fresh, val) ∷ [])));
            },
            ground (arith, append-nil s.events),
          );
        }

push_room :
    (fresh val : ℕ) (s : Store) (xs : Nodes)
    → IsList s xs
    → s.cell fresh ≡ none
    → ((val == 0) || (leb s.max_len (length xs) || (fresh == 0))) ≡ false
    → Ends (Pushed fresh val s xs) (utils_list_push fresh val s)
push_room fresh val s [] is free room = push_first fresh val s is room
push_room fresh val s ((a, v) ∷ xs) is free room = push_more fresh val s a v xs is free room

-- On a well linked list, utils_list_push does what a bounded queue does: it refuses NULL, a full list
-- and a failing list_malloc with the list unchanged, and otherwise links a new last node and returns
-- it. The list stays well linked, the lock is released, and nothing is freed. list_malloc returns NULL
-- or an address where no node stands.
pub utils_list_push_lem :
    (fresh val : ℕ) (s : Store) (xs : Nodes)
    → IsList s xs
    → s.cell fresh ≡ none
    → Ends (Pushed fresh val s xs) (utils_list_push fresh val s)
utils_list_push_lem fresh val s xs is free =
    elim (Bool-cases ((val == 0) || (leb s.max_len (length xs) || (fresh == 0)))) [
      | inl refused ↦ record {
        value = 0;
        store = s;
        ends = push_refused fresh val s xs is refused;
        meets = rw refused (refl, is, ground (arith, append-nil s.events));
      }
      | inr room ↦ push_room fresh val s xs is free room
    ]
