-- ===== src/Utils/List/Unlink.antt =====
-- common/utils/src/utils_list.c: _list_remove and utils_list_remove at any node of the list.
pub mod Join
use iot_hub_device_c_sdk.Prelude.{
  ℕ, ◌+◌, ◌-◌, ◌≤◌, ◌≡◌, refl, sym, subst, true, false, none, some, List, [], ◌∷◌, ◌++◌, ◌==◌,
  if◌then◌else◌, length, length-append, append_assoc, arith, ap, ◌∙◌, Bool-cases, inl, inr, ==_iff,
}
use iot_hub_device_c_sdk.Utils.List.{unlink_prev, unlink_next, list_remove, utils_list_remove}
use iot_hub_device_c_sdk.Utils.List.Cells.{
  ListNode, list_node, Heap, write, Store, Event, list_free, done, put,
}
use iot_hub_device_c_sdk.Utils.List.Access.{load_lem, set_next_lem, set_prev_lem, free_node_lem}
use iot_hub_device_c_sdk.Utils.List.Chain.{
  Nodes, first, last, has, Chain, Apart, first-append, last-append, Chain-write, Chain-left,
  Chain-right, Chain-Apart, Chain-append, Chain-set_next, Chain-set_prev, Chain-last, last_out,
}
use iot_hub_device_c_sdk.Utils.List.Ends.{IsList, Ends, Keeps}
use iot_hub_device_c_sdk.Utils.List.Unlink.Join.{
  Joined, unlink_prev_lem, JoinedBack, unlink_next_lem, Chain-same, Apart-out, Apart-out_right,
  Apart-tail, Apart-head,
}

-- What list_remove of the node `a` leaves.
abbrev pub Removed : (a v : ℕ) (pre post : Nodes) → Store → Unit {0} → Store → Type 0
Removed a v pre post s u s' =
    IsList s' (pre ++ post) × Keeps (list_free v ∷ list_free a ∷ []) s s' × (s'.cell a ≡ none)

module _ (pre post : Nodes) (a v : ℕ) (s : Store) (is : IsList s (pre ++ ((a, v) ∷ post))) where
  abbrev node : ListNode
  node = list_node (last pre 0) (first post 0) v

  before : Chain s.cell 0 a pre
  before = Chain-left s.cell 0 0 pre ((a, v) ∷ post) is.chain

  here : Chain s.cell (last pre 0) 0 ((a, v) ∷ post)
  here = Chain-right s.cell 0 0 pre ((a, v) ∷ post) is.chain

  apart : Apart pre ((a, v) ∷ post)
  apart = Chain-Apart s.cell 0 0 pre ((a, v) ∷ post) is.chain

  joined : Ends (λ u. Joined pre (first post 0) s) (unlink_prev node s)
  joined =
      unlink_prev_lem pre a (first post 0) v s before (is.head ∙ first-append pre ((a, v) ∷ post) 0)

  abbrev s1 : Store
  s1 = joined.store

  still : s1.cell a ≡ some node
  still = joined.meets.same.cell a (Apart-head a v pre post apart) ∙ here.2

  behind : Chain s1.cell a 0 post
  behind =
      Chain-same s1.cell s.cell a 0 post
        (λ q i. joined.meets.same.cell q (Apart-out q pre post (Apart-tail a v pre post apart) i))
        here.4

  joined_back : Ends (λ u. JoinedBack post (last pre 0) s1) (unlink_next node s1)
  joined_back =
      unlink_next_lem post a (last pre 0) v s1 behind
        (joined.meets.tail ∙ (is.tail ∙ last-append pre ((a, v) ∷ post) 0))

  abbrev s2 : Store
  s2 = joined_back.store

  still_there : s2.cell a ≡ some node
  still_there = joined_back.meets.same.cell a here.3 ∙ still

  last_chain : Chain s2.cell (last pre 0) 0 post
  last_chain = joined_back.meets.chain

  first_chain : Chain s2.cell 0 (first post 0) pre
  first_chain =
      Chain-same s2.cell s1.cell 0 (first post 0) pre
        (λ q i.
          joined_back.meets.same.cell q
            (Apart-out_right q pre post (Apart-tail a v pre post apart) i))
        joined.meets.chain

  abbrev cleared : Heap
  cleared = write s2.cell a none

  abbrev s3 : Store
  s3 = record s2 {
    cell = cleared;
    len = s2.len - 1;
    events = (s2.events ++ (list_free v ∷ [])) ++ (list_free a ∷ []);
  }

  whole : Chain cleared 0 0 (pre ++ post)
  whole =
      Chain-append cleared 0 0 pre post (Apart-tail a v pre post apart)
        (Chain-write s2.cell a none 0 (first post 0) pre (Apart-head a v pre post apart)
          first_chain)
        (Chain-write s2.cell a none (last pre 0) 0 post here.3 last_chain)

  kept_len : s2.len ≡ length (pre ++ ((a, v) ∷ post))
  kept_len = joined_back.meets.same.len ∙ (joined.meets.same.len ∙ is.len)

  shorter : s2.len - 1 ≡ length (pre ++ post)
  shorter = omega (arith, kept_len, length-append pre ((a, v) ∷ post), length-append pre post)

  shorter_bounded : length (pre ++ post) ≤ s2.max_len
  shorter_bounded = omega (
    arith,
    is.bounded,
    joined.meets.same.max_len,
    joined_back.meets.same.max_len,
    length-append pre ((a, v) ∷ post),
    length-append pre post,
  )

  list_remove_ends : list_remove a s ≡ done tt s3
  unfolding list_remove
  list_remove_ends =
      let valued : Store = record s2 { events = s2.events ++ (list_free v ∷ []) } in
      ground (
        arith,
        load_lem a node s here.0 here.2,
        joined.ends,
        load_lem a node s1 here.0 still,
        joined_back.ends,
        load_lem a node s2 here.0 still_there,
        free_node_lem a node valued here.0 still_there,
      )

  -- _list_remove of a node of a well linked list, wherever it stands: the list goes on without the node
  -- and stays well linked, the value and the node are freed, in this order, and the address is free.
  pub list_remove_lem : Ends (Removed a v pre post s) (list_remove a s)
  unfolding write
  list_remove_lem = record {
    value = tt;
    store = s3;
    ends = list_remove_ends;
    meets = (
      record {
        chain = whole;
        head = joined_back.meets.head ∙ (joined.meets.head ∙ sym (first-append pre post 0));
        tail = joined_back.meets.tail ∙ sym (last-append pre post 0);
        len = shorter;
        bounded = shorter_bounded;
      },
      record {
        held = joined_back.meets.same.held ∙ joined.meets.same.held;
        lock = joined_back.meets.same.lock ∙ joined.meets.same.lock;
        max_len = joined_back.meets.same.max_len ∙ joined.meets.same.max_len;
        events =
            append_assoc s2.events (list_free v ∷ []) (list_free a ∷ [])
            ∙ ap (λ (es : List Event). es ++ (list_free v ∷ list_free a ∷ []))
                (joined_back.meets.same.events ∙ joined.meets.same.events);
      },
      ground arith,
    );
  }

-- Taking the lock changes nothing else.
pub IsList-held :
    (s : Store) (held : ℕ) (xs : Nodes) → IsList s xs → IsList (record s { held = held }) xs
IsList-held s held xs is = record {
  chain = is.chain;
  head = is.head;
  tail = is.tail;
  len = is.len;
  bounded = is.bounded;
}

-- utils_list_remove of a node of a well linked list, wherever it stands: the list goes on without the
-- node and stays well linked, the value and the node are freed, in this order, the address is free and
-- the lock is released.
pub utils_list_remove_lem :
    (pre post : Nodes) (a v : ℕ) (s : Store)
    → IsList s (pre ++ ((a, v) ∷ post))
    → Ends (Removed a v pre post s) (utils_list_remove a s)
unfolding utils_list_remove
utils_list_remove_lem pre post a v s is =
    let held : ℕ = if s.lock then s.held + 1 else s.held in
    let locked : Store = record s { held = held } in
    let inner : Ends (Removed a v pre post locked) _ =
      list_remove_lem pre post a v locked (IsList-held s held (pre ++ ((a, v) ∷ post)) is) in
    record {
      value = tt;
      store = record inner.store { held = s.held };
      ends = ground (arith, inner.ends, inner.meets.1);
      meets = (
        IsList-held inner.store s.held (pre ++ post) inner.meets.0,
        record {
          held = refl;
          lock = inner.meets.1.lock;
          max_len = inner.meets.1.max_len;
          events = inner.meets.1.events;
        },
        inner.meets.2,
      );
    }
