-- ===== src/Client/RepeatBuf/Age.antt =====
-- How long the ring of packet identifiers of services/common/mqtt_client/src/mqtt_client_publish.c keeps an
-- identifier: until ten others took the places.
use iot_hub_device_c_sdk.Prelude.{
  ℕ, suc, ◌<◌, ◌≤◌, ◌≡◌, refl, sym, ap, ◌∙◌, arith, List, [], ◌∷◌, ◌++◌, true, false, length, take,
  drop, take-append-drop, append_assoc, length-append, Bool-cases, inl, inr, subst,
}
use iot_hub_device_c_sdk.Client.RepeatBuf.{
  RepeatBuf, IsValid, get_packet_id_repeat_buf, add_packet_id_to_repeat_buf, add_packet_id_refines,
  recent, remember, remember-known, remember-new, get-append, get-recent,
}

-- The identifier is in the list, oldest first, and at most `age` came after it.
pub record Kept (age : ℕ) (ids : List ℕ) (i : ℕ) : Type 0 where
  pub older : List ℕ
  pub younger : List ℕ
  pub at : ids ≡ older ++ (i ∷ younger)
  pub few : length younger ≤ age

Kept-known :
    {age : ℕ} {ids : List ℕ} {i : ℕ} → Kept age ids i → get_packet_id_repeat_buf ids i ≡ true
unfolding get_packet_id_repeat_buf
Kept-known {i = i} k = rw (k.at) (ground (arith, get-append k.older (i ∷ k.younger) i))

length-recent : (b : RepeatBuf) → IsValid b → length (recent b) ≡ 10
unfolding recent
length-recent b v =
    let parts = ap length (take-append-drop b.cnt b.ids) in
    rw (length-append (drop b.cnt b.ids) (take b.cnt b.ids))
      (let both = sym (length-append (take b.cnt b.ids) (drop b.cnt b.ids)) ∙ parts in omega arith)

shift_ages :
    {age i x : ℕ} {ids : List ℕ} (j : ℕ) (older younger : List ℕ)
    → length (x ∷ ids) ≡ 10
    → age < 9
    → length younger ≤ age
    → (x ∷ ids) ≡ older ++ (i ∷ younger)
    → Kept (suc age) (ids ++ (j ∷ [])) i
shift_ages {ids = ids} j [] younger full young few e =
    let rest : length ids ≡ length younger = ap (λ l. length (drop 1 l)) e in absurd (omega arith)
shift_ages {age} {i} {x} {ids} j (y ∷ older) younger full young few e =
    let rest : ids ≡ older ++ (i ∷ younger) = ap (λ l. drop 1 l) e in
    record {
      older = older;
      younger = younger ++ (j ∷ []);
      at = ap (λ l. l ++ (j ∷ [])) rest ∙ append_assoc older (i ∷ younger) (j ∷ []);
      few = rw (length-append younger (j ∷ [])) (omega arith);
    }

remember_ages :
    {age : ℕ} (ids : List ℕ) {i : ℕ} (j : ℕ)
    → length ids ≡ 10
    → age < 9
    → Kept age ids i
    → Kept (suc age) (remember ids j) i
remember_ages [] j full young k = absurd (omega arith)
remember_ages {age} (x ∷ ids) {i} j full young k =
    elim (Bool-cases (get_packet_id_repeat_buf (x ∷ ids) j)) [
      | inl known ↦
          rw (remember-known (x ∷ ids) j known)
            (record { older = k.older; younger = k.younger; at = k.at; few = omega arith })
      | inr new ↦
          rw (remember-new x ids j new) (shift_ages j k.older k.younger full young k.few k.at)
    ]

youngest :
    (ids : List ℕ) {i : ℕ} → get_packet_id_repeat_buf ids i ≡ false → Kept 0 (remember ids i) i
unfolding remember
youngest [] new = record { older = []; younger = []; at = refl; few = omega arith }
youngest (x ∷ ids) {i} new =
    subst (λ l. Kept 0 l i) (sym (remember-new x ids i new))
      (record { older = ids; younger = []; at = refl; few = omega arith })

-- An identifier that was not known is the youngest after it was added.
pub added-Kept :
    (b : RepeatBuf) (i : ℕ)
    → IsValid b
    → get_packet_id_repeat_buf b.ids i ≡ false
    → Kept 0 (recent (add_packet_id_to_repeat_buf b i)) i
added-Kept b i v new =
    rw (add_packet_id_refines {b = b} i v) (youngest (recent b) (get-recent b i ∙ new))

-- Another identifier that is added makes it at most one step older.
pub Kept-add :
    {age : ℕ} (b : RepeatBuf) {i : ℕ} (j : ℕ)
    → IsValid b
    → age < 9
    → Kept age (recent b) i
    → Kept (suc age) (recent (add_packet_id_to_repeat_buf b j)) i
Kept-add b j v young k =
    rw (add_packet_id_refines {b = b} j v) (remember_ages (recent b) j (length-recent b v) young k)

-- An identifier that is in the ring is known.
pub Kept-get :
    {age : ℕ} (b : RepeatBuf) {i : ℕ}
    → Kept age (recent b) i
    → get_packet_id_repeat_buf b.ids i ≡ true
Kept-get b {i} k = sym (get-recent b i) ∙ Kept-known k

pub Kept-longer : {a b : ℕ} {ids : List ℕ} {i : ℕ} → a ≤ b → Kept a ids i → Kept b ids i
Kept-longer h k = record { older = k.older; younger = k.younger; at = k.at; few = omega arith }
