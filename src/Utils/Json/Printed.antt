-- ===== src/Utils/Json/Printed.antt =====
-- common/utils/src/utils_json.c: the scanner on an object that was printed.
use iot_hub_device_c_sdk.Prelude.{
  ℕ, zero, suc, ◌+◌, ◌≤◌, ◌<◌, ◌≡◌, refl, List, [], ◌∷◌, ◌++◌, pos, Bool, true, false, Option, none,
  some, length, if◌then◌else◌, arith, All, subst, eq_bytes, length-append, take-append, sym,
}
use iot_hub_device_c_sdk.Utils.Json.{get_json_key, further_pos, key_loop, json_get_value_by_key}
use iot_hub_device_c_sdk.Utils.Json.Scan.{
  value_string, JsonElement, passed_over, find_json_delimiter,
}
use iot_hub_device_c_sdk.Utils.Json.Members.{
  Plain, member_text, members_text, object_text, lookup, Shows, behind, behind_lem, less_one,
  key_lem, value_lem, wanted_lem,
}

-- The length that is left for the members, with `slack` bytes at the end.
room : List (List ℕ × List ℕ) → (slack : ℕ) → ℕ
room [] slack = slack
room ((k, v) ∷ []) slack = suc (behind k (suc (suc (suc (behind v (suc slack))))))
room ((k, v) ∷ next ∷ pairs) slack =
    suc (behind k (suc (suc (suc (behind v (suc (room (next ∷ pairs) slack)))))))

module _ (wanted : List ℕ) where
  -- The round of the loop at a member.
  member_round :
      (fuel : ℕ) (k v after : List ℕ) (m : ℕ)
      → Plain k
      → Plain v
      → key_loop
          (suc fuel)
          wanted
          (pos (length wanted))
          (some (member_text k v after, suc (behind k (suc (suc (suc (behind v (suc m))))))))
        ≡ (if eq_bytes wanted k
            then some (
                some (record {
                  type = value_string;
                  pos_begin = v ++ (b'"' ∷ after);
                  pos_end = after;
                  element_len = length v;
                }))
            else key_loop fuel wanted
                (pos (length wanted))
                (further_pos (find_json_delimiter b',' b' ' after (suc m))))
  unfolding key_loop
  member_round fuel k v after m plain_k plain_v =
      let rest : List ℕ = b':' ∷ b'"' ∷ (v ++ (b'"' ∷ after)) in
      let left : ℕ = suc (suc (behind v (suc m))) in
      rw
        (
          key_loop,
          key_lem k rest left plain_k.0,
          less_one left,
          value_lem v after m plain_v,
          wanted_lem wanted k rest,
        )
        refl

  no_key : (n : ℕ) → get_json_key (b'}' ∷ []) n ≡ none
  unfolding get_json_key find_json_delimiter passed_over
  no_key zero = refl
  no_key (suc n) = refl

  Shows-choice :
      (b : Bool) (v after : List ℕ) (others : Option (List ℕ)) (r : Option (Option JsonElement))
      → Shows others r
      → Shows (if b then some v else others) (
          if b
          then some (
              some (record {
                type = value_string;
                pos_begin = v ++ (b'"' ∷ after);
                pos_end = after;
                element_len = length v;
              }))
          else r)
  Shows-choice false v after others r h = h
  Shows-choice true v after others r h = (
    record {
      type = value_string;
      pos_begin = v ++ (b'"' ∷ after);
      pos_end = after;
      element_len = length v;
    },
    refl,
    refl,
    take-append v (b'"' ∷ after),
  )

  no_member :
      (fuel n : ℕ)
      → key_loop (suc fuel) wanted (pos (length wanted)) (some (b'}' ∷ [], n)) ≡ some none
  unfolding key_loop
  no_member fuel n = rw (key_loop, no_key n) refl

  no_further : (fuel : ℕ) → 0 < fuel → key_loop fuel wanted (pos (length wanted)) none ≡ some none
  unfolding key_loop
  no_further zero h = absurd (omega arith)
  no_further (suc fuel) h = refl

  key_loop-Shows :
      (pairs : List (List ℕ × List ℕ)) (fuel slack : ℕ)
      → All (λ p. Plain p.0 × Plain p.1) pairs
      → length pairs < fuel
      → Shows
          (lookup wanted pairs)
          (key_loop fuel wanted (pos (length wanted)) (some (members_text pairs, room pairs slack)))
  unfolding members_text lookup room find_json_delimiter passed_over
  key_loop-Shows pairs zero slack plain fuelled = absurd (omega arith)
  key_loop-Shows [] (suc fuel) slack plain fuelled = no_member fuel slack
  key_loop-Shows ((k, v) ∷ []) (suc fuel) slack plain fuelled =
      rw (member_round fuel k v (b'}' ∷ []) slack plain.0.0 plain.0.1)
        (Shows-choice (eq_bytes wanted k) v (b'}' ∷ []) none _ (no_further fuel (omega arith)))
  key_loop-Shows ((k, v) ∷ next ∷ pairs) (suc fuel) slack plain fuelled =
      let after : List ℕ = b',' ∷ members_text (next ∷ pairs) in
      let left : ℕ = room (next ∷ pairs) slack in
      rw (member_round fuel k v after left plain.0.0 plain.0.1) (
        Shows-choice (eq_bytes wanted k) v after (lookup wanted (next ∷ pairs)) _
          (rw (less_one left) (key_loop-Shows (next ∷ pairs) fuel slack plain.1 (omega arith))))

length-member_text :
    (k v after : List ℕ) → length (member_text k v after) ≡ length k + length v + length after + 5
length-member_text k v after = ground (
  arith,
  length-append k (b'"' ∷ b':' ∷ b'"' ∷ (v ++ (b'"' ∷ after))),
  length-append v (b'"' ∷ after),
)

room_member :
    (k v : List ℕ) (m : ℕ)
    → suc (behind k (suc (suc (suc (behind v (suc m)))))) ≡ length k + length v + m + 5
room_member k v m =
    ground (arith, behind_lem k (suc (suc (suc (behind v (suc m))))), behind_lem v (suc m))

room-suc :
    (pairs : List (List ℕ × List ℕ)) (slack : ℕ) → room pairs (suc slack) ≡ suc (room pairs slack)
unfolding room
room-suc [] slack = refl
room-suc ((k, v) ∷ []) slack = ground (arith, room_member k v slack, room_member k v (suc slack))
room-suc ((k, v) ∷ next ∷ pairs) slack = ground (
  arith,
  room_member k v (room (next ∷ pairs) slack),
  room_member k v (room (next ∷ pairs) (suc slack)),
  room-suc (next ∷ pairs) slack,
)

length-members_text :
    (pairs : List (List ℕ × List ℕ))
    → (slack : ℕ) × (length (members_text pairs) ≡ room pairs slack)
unfolding members_text room
length-members_text [] = (1, refl)
length-members_text ((k, v) ∷ []) =
    (1, ground (arith, length-member_text k v (b'}' ∷ []), room_member k v 1))
length-members_text ((k, v) ∷ next ∷ pairs) =
    let (slack, h) = length-members_text (next ∷ pairs) in
    (
      suc slack,
      ground (
        arith,
        length-member_text k v (b',' ∷ members_text (next ∷ pairs)),
        room_member k v (room (next ∷ pairs) (suc slack)),
        room-suc (next ∷ pairs) slack,
        h,
      ),
    )

length-pairs : (pairs : List (List ℕ × List ℕ)) → length pairs ≤ length (members_text pairs)
unfolding members_text
length-pairs [] = omega arith
length-pairs ((k, v) ∷ []) = ground (arith, length-member_text k v (b'}' ∷ []))
length-pairs ((k, v) ∷ next ∷ pairs) = ground (
  arith,
  length-member_text k v (b',' ∷ members_text (next ∷ pairs)),
  length-pairs (next ∷ pairs),
)

-- In the text of an object of strings, printed without spaces, whose keys and values have no quote
-- and no backslash, json_get_value_by_key finds the value of the first pair with the key, as a
-- string, and fails where no pair has it.
pub json_get_value_by_key_printed :
    (pairs : List (List ℕ × List ℕ)) (wanted : List ℕ)
    → All (λ p. Plain p.0 × Plain p.1) pairs
    → Shows (lookup wanted pairs) (
        json_get_value_by_key
          (object_text pairs)
          (length (object_text pairs))
          wanted
          (pos (length wanted)))
unfolding json_get_value_by_key find_json_delimiter passed_over
json_get_value_by_key_printed pairs wanted plain =
    let len : ℕ = length (members_text pairs) in
    let (slack, fits) = length-members_text pairs in
    rw (json_get_value_by_key, less_one len)
      (subst
        (λ (n : ℕ).
          Shows (lookup wanted pairs)
            (key_loop (suc (suc len)) wanted (pos (length wanted)) (some (members_text pairs, n))))
        (sym fits)
        (key_loop-Shows wanted pairs (suc (suc len)) slack plain
          (ground (arith, length-pairs pairs))))
