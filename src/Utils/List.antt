-- ===== src/Utils/List.antt =====
-- common/utils/src/utils_list.c: the doubly linked list. Its nodes stand in a heap, an address reads
-- none where no node is allocated, and NULL is address 0. A command faults at such an address. The
-- lock is the number of times that it is held, since HAL_MutexCreate makes a recursive mutex.
pub mod Access
pub mod Chain
pub mod Ends
pub mod Pop
pub mod Unlink
pub mod Process
pub mod Tests
pub mod Cells
use iot_hub_device_c_sdk.Prelude.{
  ℕ, zero, suc, ◌+◌, ◌-◌, List, [], ◌∷◌, ◌++◌, Bool, true, false, Option, none, some, ℤ, pos,
  negsuc, ◌==◌, leb, if◌then◌else◌, not, ◌||◌,
}
use iot_hub_device_c_sdk.Utils.List.Cells.{
  ◌>>=◌, ◌>>◌, ListNode, list_node, Event, Heap, write, Store, Run, Cmd, pure, modify, get, load,
  put, set_next, set_prev, event, free_node, list_free, list_free_self, list_lock_deinit, done,
  out_of_fuel,
}

-- _list_lock
abbrev pub lock_list : Cmd (Unit {0})
lock_list s = done tt (record s { held = if s.lock then s.held + 1 else s.held })

-- _list_unlock
abbrev pub unlock_list : Cmd (Unit {0})
unlock_list s = done tt (record s { held = if s.lock then s.held - 1 else s.held })

-- The two assignments of _list_remove to a neighbour or an end.
unfoldable pub unlink_prev : ListNode → Cmd (Unit {0})
unfolding set_next
unlink_prev n =
    if not (n.prev == 0) then set_next n.prev n.next else modify λ s. record s { head = n.next }

unfoldable pub unlink_next : ListNode → Cmd (Unit {0})
unfolding set_prev
unlink_next n =
    if not (n.next == 0) then set_prev n.next n.prev else modify λ s. record s { tail = n.prev }

-- _list_remove
unfoldable pub list_remove : ℕ → Cmd (Unit {0})
unfolding load unlink_prev unlink_next free_node
list_remove p = do
  n ← load p
  unlink_prev n
  n ← load p
  unlink_next n
  n ← load p
  event (list_free n.val)
  free_node p
  modify λ s. record s { len = s.len - 1 }

-- utils_list_create: `self` and `lock` say whether memory and the lock were there, and none stands
-- for the function that a caller leaves out.
unfoldable pub utils_list_create : ℤ → (self : Bool) → (lock : Option Bool) → Heap → Option Store
utils_list_create (negsuc max_len) self lock cell = none
utils_list_create (pos max_len) self lock cell =
    if max_len == 0 || not self then none else elim lock [
      | some false ↦ none
      | some true ↦ some (record {
        head = 0;
        tail = 0;
        len = 0;
        max_len = max_len;
        lock = true;
        held = 0;
        cell = cell;
        events = [];
      })
      | none ↦ some (record {
        head = 0;
        tail = 0;
        len = 0;
        max_len = max_len;
        lock = false;
        held = 0;
        cell = cell;
        events = [];
      })
    ]

-- The loop of utils_list_destroy, `len` times.
unfoldable pub destroy_nodes : ℕ → ℕ → Cmd (Unit {0})
unfolding load free_node
destroy_nodes zero curr = pure tt
destroy_nodes (suc len) curr = do
  n ← load curr
  event (list_free n.val)
  free_node curr
  destroy_nodes len n.next

-- utils_list_destroy, for a list that is there
unfoldable pub utils_list_destroy : Cmd (Unit {0})
unfolding destroy_nodes
utils_list_destroy = do
  len ← get (λ s. s.len)
  curr ← get (λ s. s.head)
  destroy_nodes len curr
  lock ← get (λ s. s.lock)
  (if lock then event list_lock_deinit else pure tt)
  event list_free_self

-- utils_list_len_get
unfoldable pub utils_list_len_get : Store → ℕ
utils_list_len_get s = s.len

-- utils_list_push: `fresh` is what list_malloc returns; the result is the node, or NULL.
unfoldable pub utils_list_push : (fresh : ℕ) → (val : ℕ) → Cmd ℕ
unfolding set_next load
utils_list_push fresh val = do
  lock_list
  full ← get (λ s. leb s.max_len s.len)
  if val == 0 || full then (do unlock_list; pure 0) else do
    if fresh == 0 then (do unlock_list; pure 0) else do
      len ← get (λ s. s.len)
      tail ← get (λ s. s.tail)
      (if len == 0
          then modify
              (λ s. record (put fresh (some (list_node 0 0 val)) s) { head = fresh; tail = fresh })
          else do
            modify (put fresh (some (list_node tail 0 val)))
            set_next tail fresh
            modify λ s. record s { tail = fresh })
      modify λ s. record s { len = s.len + 1 }
      unlock_list
      pure fresh

-- utils_list_pop: the value of the head node, or NULL.
unfoldable pub utils_list_pop : Cmd ℕ
unfolding load set_prev free_node
utils_list_pop = do
  lock_list
  len ← get (λ s. s.len)
  if len == 0 then (do unlock_list; pure 0) else do
    node ← get (λ s. s.head)
    modify λ s. record s { len = s.len - 1 }
    (if not (len - 1 == 0)
        then (do n ← load node; modify λ s. record s { head = n.next }; set_prev n.next 0)
        else modify λ s. record s { head = 0; tail = 0 })
    n ← load node
    modify (put node (some (list_node 0 0 n.val)))
    unlock_list
    free_node node
    pure n.val

-- utils_list_remove
unfoldable pub utils_list_remove : ℕ → Cmd (Unit {0})
unfolding list_remove
utils_list_remove node = do lock_list; list_remove node; unlock_list

pub data Direction : Type 0 where
  list_head : Direction
  list_tail : Direction

-- The node that the iterator goes to next.
unfoldable pub iterator_next : Direction → ListNode → ℕ
iterator_next list_head n = n.next
iterator_next list_tail n = n.prev

unfoldable pub iterator_first : Direction → Store → ℕ
iterator_first list_head s = s.head
iterator_first list_tail s = s.tail

-- OnNodeProcessHandle: whether to stop, and the user's data. It may change the list.
abbrev pub Handle : Type 0 → Type 0
Handle U = ℕ → ℕ → U → Cmd (Bool × U)

module _ {U : Type 0} where
  -- `handle`, which may be NULL
  unfoldable pub call_handle : Option (Handle U) → Handle U
  call_handle none node val u = pure (false, u)
  call_handle (some handle) node val u = handle node val u

  -- The loop of utils_list_process. The next node is read before the handler runs.
  unfoldable pub process_nodes : ℕ → Direction → Option (Handle U) → ℕ → U → Cmd U
  unfolding load list_remove iterator_next call_handle
  process_nodes zero direction handle node u = λ _. out_of_fuel
  process_nodes (suc fuel) direction handle node u = if node == 0 then pure u else do
    n ← load node
    if n.val == 0
        then (do
          list_remove node
          process_nodes fuel direction handle (iterator_next direction n) u)
        else do
          (rc, u') ← call_handle handle node n.val u
          if rc then pure u' else process_nodes fuel direction handle (iterator_next direction n) u'

  -- utils_list_process
  unfoldable pub utils_list_process : ℕ → Direction → Option (Handle U) → U → Cmd U
  unfolding process_nodes iterator_first
  utils_list_process fuel direction handle u = do
    lock_list
    len ← get (λ s. s.len)
    if len == 0 then (do unlock_list; pure u) else do
      first ← get (iterator_first direction)
      u' ← process_nodes fuel direction handle first u
      unlock_list
      pure u'
