-- ===== src/Utils/List/Access.antt =====
-- common/utils/src/utils_list.c: what the accesses to a node that is there do.
use iot_hub_device_c_sdk.Prelude.{ℕ, ◌≡◌, ◌≢◌, ◌++◌, ◌∷◌, [], none, some, arith}
use iot_hub_device_c_sdk.Utils.List.Cells.{
  ListNode, Store, list_free, done, put, load, set_next, set_prev, free_node,
}

module _ (p : ℕ) (n : ListNode) (s : Store) (true_address : p ≢ 0) (there : s.cell p ≡ some n) where
  pub load_lem : load p s ≡ done n s
  unfolding load
  load_lem = ground arith

  pub set_next_lem : (q : ℕ) → set_next p q s ≡ done tt (put p (some (record n { next = q })) s)
  unfolding set_next
  set_next_lem q = ground (arith, load_lem)

  pub set_prev_lem : (q : ℕ) → set_prev p q s ≡ done tt (put p (some (record n { prev = q })) s)
  unfolding set_prev
  set_prev_lem q = ground (arith, load_lem)

  pub free_node_lem :
      free_node p s ≡ done tt (record (put p none s) { events = s.events ++ (list_free p ∷ []) })
  unfolding free_node
  free_node_lem = ground (arith, load_lem)
