-- ===== src/Utils/List/Process.antt =====
-- common/utils/src/utils_list.c: utils_list_process from the head on, with a handler that may remove the
-- node it is called for, as those of services/common/mqtt_client and of the service module are.
use iot_hub_device_c_sdk.Prelude.{
  ℕ, zero, suc, ◌+◌, ◌<◌, ◌≡◌, refl, subst, Bool, some, List, [], ◌∷◌, ◌++◌, if◌then◌else◌, length,
  append-nil, append_assoc, arith, Bool-cases, inl, inr,
}
use iot_hub_device_c_sdk.Utils.List.{
  ◌>>◌, Handle, list_head, utils_list_remove, process_nodes, utils_list_process,
}
use iot_hub_device_c_sdk.Utils.List.Cells.{
  ListNode, list_node, Store, Event, list_free, done, pure, load,
}
use iot_hub_device_c_sdk.Utils.List.Access.{load_lem}
use iot_hub_device_c_sdk.Utils.List.Chain.{Nodes, first, last, Chain, Chain-right}
use iot_hub_device_c_sdk.Utils.List.Ends.{IsList, Ends, Keeps}
use iot_hub_device_c_sdk.Utils.List.Unlink.{Removed, IsList-held, utils_list_remove_lem}

-- What a handler decides on a node: whether it removes it, whether the traversal stops, and what
-- becomes of the user's data.
abbrev pub Decide : Type 0 → Type 0
Decide U = ℕ → ℕ → U → Bool × Bool × U

module _ {U : Type 0} where
  abbrev pub handler_of : Decide U → Handle U
  handler_of f node val u = do
    (if (f node val u).0 then utils_list_remove node else pure tt)
    pure ((f node val u).1, (f node val u).2)

module _ {U : Type 0} (f : Decide U) where
  -- The traversal of a sequence: the nodes that stay, what is freed, and the user's data.
  unfoldable pub walk : Nodes → U → Nodes × List Event × U
  walk [] u = ([], [], u)
  walk ((a, v) ∷ xs) u =
      let (remove, stop, u') = f a v u in
      let (ys, es, u'') = walk xs u' in
      let kept : Nodes = if remove then [] else (a, v) ∷ [] in
      let freed : List Event = if remove then list_free v ∷ list_free a ∷ [] else [] in
      if stop then (kept ++ xs, freed, u') else (kept ++ ys, freed ++ es, u'')

  abbrev pub Walked : Nodes → Nodes → Store → U → U → Store → Type 0
  Walked pre xs s u u' s' =
      (u' ≡ (walk xs u).2) × IsList s' (pre ++ (walk xs u).0) × Keeps (walk xs u).1 s s'

  process_nodes_lem :
      (xs pre : Nodes) (fuel : ℕ) (s : Store) (u : U)
      → IsList s (pre ++ xs)
      → length xs < fuel
      → Ends
          (Walked pre xs s u)
          (process_nodes fuel list_head (some (handler_of f)) (first xs 0) u s)
  unfolding process_nodes walk
  process_nodes_lem xs pre zero s u is enough = absurd (omega arith)
  process_nodes_lem [] pre (suc fuel) s u is enough = record {
    value = u;
    store = s;
    ends = refl;
    meets = (refl, is, ground (arith, append-nil s.events));
  }
  process_nodes_lem ((a, v) ∷ xs) pre (suc fuel) s u is enough =
      let here : Chain s.cell (last pre 0) 0 ((a, v) ∷ xs) =
        Chain-right s.cell 0 0 pre ((a, v) ∷ xs) is.chain in
      let n : ListNode = list_node (last pre 0) (first xs 0) v in
      let loaded : load a s ≡ done n s = load_lem a n s here.0 here.2 in
      elim (Bool-cases (f a v u).0) [
        | inl remove ↦
            let gone : Ends (Removed a v pre xs s) _ = utils_list_remove_lem pre xs a v s is in
            elim (Bool-cases (f a v u).1) [
              | inl stop ↦ record {
                value = (f a v u).2;
                store = gone.store;
                ends = ground (arith, here.0, here.1, loaded, gone.ends);
                meets = ground (arith, gone.meets);
              }
              | inr go ↦
                  let rest : Ends (Walked pre xs gone.store (f a v u).2) _ =
                    process_nodes_lem xs pre fuel gone.store (f a v u).2 gone.meets.0
                      (omega arith) in
                  record {
                    value = rest.value;
                    store = rest.store;
                    ends = ground (arith, here.0, here.1, loaded, gone.ends, rest.ends);
                    meets = (
                      ground (arith, rest.meets.0),
                      rw (remove, go) rest.meets.1,
                      ground (
                        arith,
                        gone.meets.1,
                        rest.meets.2,
                        append_assoc s.events (list_free v ∷ list_free a ∷ [])
                            (walk xs (f a v u).2).1,
                      ),
                    );
                  }
            ]
        | inr keep ↦ elim (Bool-cases (f a v u).1) [
          | inl stop ↦ record {
            value = (f a v u).2;
            store = s;
            ends = ground (arith, here.0, here.1, loaded);
            meets = (ground arith, rw (keep, stop) is, ground (arith, append-nil s.events));
          }
          | inr go ↦
              let rest : Ends (Walked (pre ++ ((a, v) ∷ [])) xs s (f a v u).2) _ =
                process_nodes_lem xs (pre ++ ((a, v) ∷ [])) fuel s (f a v u).2 (rw append_assoc is)
                  (omega arith) in
              record {
                value = rest.value;
                store = rest.store;
                ends = ground (arith, here.0, here.1, loaded, rest.ends);
                meets = (
                  ground (arith, rest.meets.0),
                  rw (keep, go)
                      (subst (λ ys. IsList rest.store ys)
                        (append_assoc pre ((a, v) ∷ []) (walk xs (f a v u).2).0) rest.meets.1),
                  ground (arith, rest.meets.2),
                );
              }
        ]
      ]

  process_some :
      (x : ℕ × ℕ) (xs : Nodes) (fuel : ℕ) (s : Store) (u : U)
      → IsList s (x ∷ xs)
      → length (x ∷ xs) < fuel
      → Ends (Walked [] (x ∷ xs) s u) (utils_list_process fuel list_head (some (handler_of f)) u s)
  unfolding utils_list_process
  process_some (a, v) xs fuel s u is enough =
      let held : ℕ = if s.lock then s.held + 1 else s.held in
      let locked : Store = record s { held = held } in
      let inner : Ends (Walked [] ((a, v) ∷ xs) locked u) _ =
        process_nodes_lem ((a, v) ∷ xs) [] fuel locked u (IsList-held s held ((a, v) ∷ xs) is)
          enough in
      record {
        value = inner.value;
        store = record inner.store { held = s.held };
        ends = ground (arith, is.len, is.head, inner.ends, inner.meets.2);
        meets = (
          inner.meets.0,
          IsList-held inner.store s.held _ inner.meets.1,
          record {
            held = refl;
            lock = inner.meets.2.lock;
            max_len = inner.meets.2.max_len;
            events = inner.meets.2.events;
          },
        );
      }

  -- utils_list_process from the head on, with enough fuel for the nodes of a well linked list and a
  -- handler that decides by `f`: it visits the nodes in order until the handler stops it, exactly those
  -- that the handler removes are unlinked and freed, each with its value, the list stays well linked,
  -- the user's data is what the decisions make of it, and the lock is released. The traversal survives
  -- the removal of the node that it stands at.
  pub utils_list_process_lem :
      (xs : Nodes) (fuel : ℕ) (s : Store) (u : U)
      → IsList s xs
      → length xs < fuel
      → Ends (Walked [] xs s u) (utils_list_process fuel list_head (some (handler_of f)) u s)
  unfolding utils_list_process walk
  utils_list_process_lem [] fuel s u is enough = record {
    value = u;
    store = s;
    ends = ground (arith, is.len);
    meets = (refl, is, ground (arith, append-nil s.events));
  }
  utils_list_process_lem (x ∷ xs) fuel s u is enough = process_some x xs fuel s u is enough
