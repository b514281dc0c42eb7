-- ===== src/Utils/List/Cells.antt =====
-- common/utils/src/utils_list.c: the heap of the nodes, and the commands on it.
use iot_hub_device_c_sdk.Prelude.{
  ℕ, List, [], ◌∷◌, ◌++◌, Bool, Option, none, some, ◌==◌, if◌then◌else◌,
}

pub record ListNode : Type 0 where
  pub prev : ℕ
  pub next : ℕ
  pub val : ℕ

abbrev pub list_node : ℕ → ℕ → ℕ → ListNode
list_node prev next val = record { prev = prev; next = next; val = val }

-- What the list's functions do that the heap does not show.
pub data Event : Type 0 where
  list_free : ℕ → Event
  list_free_self : Event
  list_lock_deinit : Event

abbrev pub Heap : Type 0
Heap = ℕ → Option ListNode

unfoldable pub write : Heap → ℕ → Option ListNode → Heap
write h p c a = if a == p then c else h a

-- A list and the heap of its nodes. `lock` says whether the list was created with one.
pub record Store : Type 0 where
  pub head : ℕ
  pub tail : ℕ
  pub len : ℕ
  pub max_len : ℕ
  pub lock : Bool
  pub held : ℕ
  pub cell : Heap
  pub events : List Event

pub data Run (A : Type 0) : Type 0 where
  done : A → Store → Run A
  fault : Run A
  out_of_fuel : Run A

abbrev pub Cmd : Type 0 → Type 0
Cmd A = Store → Run A

abbrev pub pure : {A : Type 0} → A → Cmd A
pure a s = done a s

module _ {A B : Type 0} where
  abbrev pub continue : Run A → (A → Cmd B) → Run B
  continue (done a s) k = k a s
  continue fault k = fault
  continue out_of_fuel k = out_of_fuel

  infixl 5 ◌>>=◌ ◌>>◌
  abbrev pub ◌>>=◌ : Cmd A → (A → Cmd B) → Cmd B
  (m >>= k) s = continue (m s) k

  abbrev pub ◌>>◌ : Cmd A → Cmd B → Cmd B
  (m >> n) s = continue (m s) (λ _. n)

abbrev pub modify : (Store → Store) → Cmd (Unit {0})
modify f s = done tt (f s)

abbrev pub get : {A : Type 0} → (Store → A) → Cmd A
get f s = done (f s) s

unfoldable pub load : ℕ → Cmd ListNode
load p s = if p == 0 then fault else elim (s.cell p) [ none ↦ fault | some n ↦ done n s ]

abbrev pub put : ℕ → Option ListNode → Store → Store
put p c s = record s { cell = write s.cell p c }

unfoldable pub set_next : ℕ → ℕ → Cmd (Unit {0})
unfolding load
set_next p q = do n ← load p; modify (put p (some (record n { next = q })))

unfoldable pub set_prev : ℕ → ℕ → Cmd (Unit {0})
unfolding load
set_prev p q = do n ← load p; modify (put p (some (record n { prev = q })))

abbrev pub event : Event → Cmd (Unit {0})
event e = modify λ s. record s { events = s.events ++ (e ∷ []) }

-- list_free of a node
unfoldable pub free_node : ℕ → Cmd (Unit {0})
unfolding load
free_node p = do load p; modify (put p none); event (list_free p)
