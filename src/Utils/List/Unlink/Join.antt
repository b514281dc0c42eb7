-- ===== src/Utils/List/Unlink/Join.antt =====
-- common/utils/src/utils_list.c: what the two assignments of _list_remove leave of a chain.
use iot_hub_device_c_sdk.Prelude.{
  ℕ, ◌≡◌, refl, sym, subst, true, false, some, [], ◌∷◌, ◌==◌, arith, Bool-cases, inl, inr, ==_iff,
}
use iot_hub_device_c_sdk.Utils.List.{unlink_prev, unlink_next}
use iot_hub_device_c_sdk.Utils.List.Cells.{ListNode, list_node, Heap, write, Store, put}
use iot_hub_device_c_sdk.Utils.List.Access.{set_next_lem, set_prev_lem}
use iot_hub_device_c_sdk.Utils.List.Chain.{
  Nodes, first, last, has, Chain, Apart, Chain-set_next, Chain-set_prev, Chain-last, last_out,
}
use iot_hub_device_c_sdk.Utils.List.Ends.{Ends}

-- The stores agree but on the nodes of `xs` and on the ends of the list.
pub record SameBut (xs : Nodes) (s s' : Store) : Type 0 where
  pub cell : (q : ℕ) → has q xs ≡ false → s'.cell q ≡ s.cell q
  pub len : s'.len ≡ s.len
  pub max_len : s'.max_len ≡ s.max_len
  pub lock : s'.lock ≡ s.lock
  pub held : s'.held ≡ s.held
  pub events : s'.events ≡ s.events

-- What stands before the node is linked to what stands behind it.
pub record Joined (pre : Nodes) (to : ℕ) (s s' : Store) : Type 0 where
  pub chain : Chain s'.cell 0 to pre
  pub head : s'.head ≡ first pre to
  pub tail : s'.tail ≡ s.tail
  pub same : SameBut pre s s'

pub unlink_prev_lem :
    (pre : Nodes) (a to v : ℕ) (s : Store)
    → Chain s.cell 0 a pre
    → s.head ≡ first pre a
    → Ends (λ u. Joined pre to s) (unlink_prev (list_node (last pre 0) to v) s)
unfolding unlink_prev write
unlink_prev_lem [] a to v s c h = record {
  value = tt;
  store = record s { head = to };
  ends = refl;
  meets = ground arith;
}
unlink_prev_lem ((b, w) ∷ xs) a to v s c h =
    let (n, e, ne, stop) = Chain-last s.cell 0 a b w xs c in
    record {
      value = tt;
      store = put (last xs b) (some (record n { next = to })) s;
      ends = ground (arith, set_next_lem (last xs b) n s ne e to);
      meets = record {
        chain = Chain-set_next s.cell 0 a to b w xs n c e;
        head = h;
        tail = refl;
        same = record {
          cell = λ q out. ground (arith, last_out b w q xs out);
          len = refl;
          max_len = refl;
          lock = refl;
          held = refl;
          events = refl;
        };
      };
    }

-- What stands behind the node is linked to what stands before it.
pub record JoinedBack (post : Nodes) (from : ℕ) (s s' : Store) : Type 0 where
  pub chain : Chain s'.cell from 0 post
  pub tail : s'.tail ≡ last post from
  pub head : s'.head ≡ s.head
  pub same : SameBut post s s'

pub unlink_next_lem :
    (post : Nodes) (a from v : ℕ) (s : Store)
    → Chain s.cell a 0 post
    → s.tail ≡ last post a
    → Ends (λ u. JoinedBack post from s) (unlink_next (list_node from (first post 0) v) s)
unfolding unlink_next write
unlink_next_lem [] a from v s c t = record {
  value = tt;
  store = record s { tail = from };
  ends = refl;
  meets = ground arith;
}
unlink_next_lem ((b, w) ∷ xs) a from v s c t =
    let n : ListNode = list_node a (first xs 0) w in
    record {
      value = tt;
      store = put b (some (record n { prev = from })) s;
      ends = ground (arith, set_prev_lem b n s c.0 c.2 from);
      meets = record {
        chain = Chain-set_prev s.cell a 0 from b w xs n c c.2;
        tail = t;
        head = refl;
        same = ground arith;
      };
    }

-- A chain reads only its own nodes.
pub Chain-same :
    (g h : Heap) (prev next : ℕ) (xs : Nodes)
    → ((q : ℕ) → has q xs ≡ true → g q ≡ h q)
    → Chain h prev next xs
    → Chain g prev next xs
Chain-same g h prev next [] same c = tt
Chain-same g h prev next ((a, v) ∷ xs) same c = (
  c.0,
  c.1,
  ground (arith, same a, c.2),
  c.3,
  Chain-same g h a next xs (λ q i. same q (ground arith)) c.4,
)

out_other : (q a : ℕ) (ys : Nodes) → has a ys ≡ false → has q ys ≡ true → (q == a) ≡ false
out_other q a ys out i = elim (Bool-cases (q == a)) [
  | inl e ↦ cc (subst (λ c. has c ys ≡ true) ((==_iff q a).0 e) i)
  | inr e ↦ e
]

pub Apart-out : (q : ℕ) (xs ys : Nodes) → Apart xs ys → has q ys ≡ true → has q xs ≡ false
Apart-out q [] ys apart i = refl
Apart-out q ((a, v) ∷ xs) ys apart i = ground (arith, out_other q a ys, Apart-out q xs ys apart.1 i)

pub Apart-out_right : (q : ℕ) (xs ys : Nodes) → Apart xs ys → has q xs ≡ true → has q ys ≡ false
Apart-out_right q [] ys apart i = cc
Apart-out_right q ((a, v) ∷ xs) ys apart i = elim (Bool-cases (q == a)) [
  | inl e ↦ subst (λ c. has c ys ≡ false) (sym ((==_iff q a).0 e)) apart.0
  | inr e ↦ Apart-out_right q xs ys apart.1 (ground arith)
]

pub Apart-tail : (a v : ℕ) (xs ys : Nodes) → Apart xs ((a, v) ∷ ys) → Apart xs ys
Apart-tail a v [] ys apart = tt
Apart-tail a v ((b, w) ∷ xs) ys apart = ground (arith, Apart-tail a v xs ys)

pub Apart-head : (a v : ℕ) (xs ys : Nodes) → Apart xs ((a, v) ∷ ys) → has a xs ≡ false
Apart-head a v xs ys apart = Apart-out a xs ((a, v) ∷ ys) apart (ground arith)
