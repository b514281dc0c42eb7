-- ===== src/Utils/List/Chain.antt =====
-- The chains of nodes of common/utils/src/utils_list.c: what a list stands for, and what a write to
-- one of its nodes leaves.
use iot_hub_device_c_sdk.Prelude.{
  ℕ, ◌≡◌, ◌≢◌, refl, Bool, true, false, ◌||◌, Option, none, some, List, [], ◌∷◌, ◌++◌, ◌==◌, arith,
  subst, Bool-cases, inl, inr, ==_iff,
}
use iot_hub_device_c_sdk.Utils.List.Cells.{ListNode, list_node, Heap, write}

-- The addresses and the values of nodes.
abbrev pub Nodes : Type 0
Nodes = List (ℕ × ℕ)

abbrev pub first : Nodes → ℕ → ℕ
first [] p = p
first ((a, v) ∷ xs) p = a

abbrev pub last : Nodes → ℕ → ℕ
last [] p = p
last ((a, v) ∷ xs) p = last xs a

abbrev pub has : ℕ → Nodes → Bool
has p [] = false
has p ((a, v) ∷ xs) = (p == a) || has p xs

-- From `prev` to `next` the nodes `xs` are linked both ways; they are distinct, at true addresses,
-- with true values.
abbrev pub Chain : Heap → ℕ → ℕ → Nodes → Type 0
Chain h prev next [] = Unit {0}
Chain h prev next ((a, v) ∷ xs) =
    (a ≢ 0)
    × (v ≢ 0)
    × (h a ≡ some (list_node prev (first xs next) v))
    × (has a xs ≡ false)
    × Chain h a next xs

pub has-append : (p : ℕ) (xs ys : Nodes) → has p (xs ++ ys) ≡ (has p xs || has p ys)
has-append p [] ys = refl
has-append p (x ∷ xs) ys = ground (arith, has-append p xs ys)

pub first-append : (xs ys : Nodes) (p : ℕ) → first (xs ++ ys) p ≡ first xs (first ys p)
first-append [] ys p = refl
first-append (x ∷ xs) ys p = refl

pub last-append : (xs ys : Nodes) (p : ℕ) → last (xs ++ ys) p ≡ last ys (last xs p)
last-append [] ys p = refl
last-append ((a, v) ∷ xs) ys p = last-append xs ys a

pub has-last : (a v : ℕ) (xs : Nodes) → has (last xs a) ((a, v) ∷ xs) ≡ true
has-last a v [] = ground arith
has-last a v ((b, w) ∷ xs) = ground (arith, has-last b w xs)

-- A write outside the chain leaves it.
pub Chain-write :
    (h : Heap) (p : ℕ) (c : Option ListNode) (prev next : ℕ) (xs : Nodes)
    → has p xs ≡ false
    → Chain h prev next xs
    → Chain (write h p c) prev next xs
unfolding write
Chain-write h p c prev next [] out s = tt
Chain-write h p c prev next ((a, v) ∷ xs) out s = ground (arith, Chain-write h p c a next xs)

pub Chain-left :
    (h : Heap) (prev next : ℕ) (xs ys : Nodes)
    → Chain h prev next (xs ++ ys)
    → Chain h prev (first ys next) xs
Chain-left h prev next [] ys s = tt
Chain-left h prev next ((a, v) ∷ xs) ys s = (
  s.0,
  s.1,
  rw (← first-append xs ys next) s.2,
  ground (arith, has-append a xs ys),
  Chain-left h a next xs ys s.4,
)

pub Chain-right :
    (h : Heap) (prev next : ℕ) (xs ys : Nodes)
    → Chain h prev next (xs ++ ys)
    → Chain h (last xs prev) next ys
Chain-right h prev next [] ys s = s
Chain-right h prev next ((a, v) ∷ xs) ys s = Chain-right h a next xs ys s.4

abbrev pub Apart : Nodes → Nodes → Type 0
Apart [] ys = Unit {0}
Apart ((a, v) ∷ xs) ys = (has a ys ≡ false) × Apart xs ys

pub Chain-Apart :
    (h : Heap) (prev next : ℕ) (xs ys : Nodes) → Chain h prev next (xs ++ ys) → Apart xs ys
Chain-Apart h prev next [] ys s = tt
Chain-Apart h prev next ((a, v) ∷ xs) ys s =
    ground (arith, Chain-Apart h a next xs ys, has-append a xs ys)

pub Chain-append :
    (h : Heap) (prev next : ℕ) (xs ys : Nodes)
    → Apart xs ys
    → Chain h prev (first ys next) xs
    → Chain h (last xs prev) next ys
    → Chain h prev next (xs ++ ys)
Chain-append h prev next [] ys apart s t = t
Chain-append h prev next ((a, v) ∷ xs) ys apart s t =
    ground (arith, Chain-append h a next xs ys, first-append xs ys next, has-append a xs ys)

other : (a b : ℕ) (xs : Nodes) → has a xs ≡ false → has b xs ≡ true → (a == b) ≡ false
other a b xs out inside = elim (Bool-cases (a == b)) [
  | inl e ↦ cc (subst (λ c. has c xs ≡ false) ((==_iff a b).0 e) out)
  | inr e ↦ e
]

-- The chain goes on to another node.
pub Chain-set_next :
    (h : Heap) (prev next to a v : ℕ) (xs : Nodes) (n : ListNode)
    → Chain h prev next ((a, v) ∷ xs)
    → h (last xs a) ≡ some n
    → Chain (write h (last xs a) (some (record n { next = to }))) prev to ((a, v) ∷ xs)
unfolding write
Chain-set_next h prev next to a v [] n s e = ground arith
Chain-set_next h prev next to a v ((b, w) ∷ xs) n s e =
    let inside : has (last xs b) ((b, w) ∷ xs) ≡ true = has-last b w xs in
    let apart : (a == last xs b) ≡ false = other a (last xs b) ((b, w) ∷ xs) s.3 inside in
    (s.0, s.1, rw apart s.2, s.3, Chain-set_next h a next to b w xs n s.4 e)

-- The chain comes from another node.
pub Chain-set_prev :
    (h : Heap) (prev next from a v : ℕ) (xs : Nodes) (n : ListNode)
    → Chain h prev next ((a, v) ∷ xs)
    → h a ≡ some n
    → Chain (write h a (some (record n { prev = from }))) from next ((a, v) ∷ xs)
unfolding write
Chain-set_prev h prev next from a v xs n s e =
    ground (arith, Chain-write h a (some (record n { prev = from })) a next xs)

pub Chain-last :
    (h : Heap) (prev next a v : ℕ) (xs : Nodes)
    → Chain h prev next ((a, v) ∷ xs)
    → (n : ListNode) × (h (last xs a) ≡ some n) × (last xs a ≢ 0) × (n.next ≡ next)
Chain-last h prev next a v [] s = (list_node prev next v, s.2, s.0, refl)
Chain-last h prev next a v ((b, w) ∷ xs) s = Chain-last h a next b w xs s.4

-- A free address is not on the chain.
pub Chain-fresh :
    (h : Heap) (p prev next : ℕ) (xs : Nodes) → h p ≡ none → Chain h prev next xs → has p xs ≡ false
Chain-fresh h p prev next [] e s = refl
Chain-fresh h p prev next ((a, v) ∷ xs) e s = elim (Bool-cases (p == a)) [
  | inl same ↦ cc (subst (λ c. h c ≡ none) ((==_iff p a).0 same) e)
  | inr other ↦ rw other (Chain-fresh h p a next xs e s.4)
]

pub Apart-node : (xs : Nodes) (p v : ℕ) → has p xs ≡ false → Apart xs ((p, v) ∷ [])
Apart-node [] p v out = tt
Apart-node ((a, w) ∷ xs) p v out = ground (arith, Apart-node xs p v)

pub last_out : (a v p : ℕ) (xs : Nodes) → has p ((a, v) ∷ xs) ≡ false → (p == last xs a) ≡ false
last_out a v p xs out = other p (last xs a) ((a, v) ∷ xs) out (has-last a v xs)
