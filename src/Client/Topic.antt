-- ===== src/Client/Topic.antt =====
-- _is_topic_matched of services/common/mqtt_client/src/mqtt_client_publish.c: topic filters with
-- wildcards against topic names, and the relation that it decides.
use mathlib.Core.Path.{ap₂}
use iot_hub_device_c_sdk.Prelude.{
  ℕ, ◌≡◌, ◌≢◌, ◌↔◌, ◌⊎◌, subst, refl, sym, List, [], ◌∷◌, arith, Bool, true, false, not, ◌&&◌,
  if◌then◌else◌, ◌==◌, ==_iff, ne→==, Bool-cases, inl, inr, All,
}
pub mod Levels

-- The inner loop at `+`: from behind a character to the next separator, or to the end.
unfoldable pub skip_level : List ℕ → List ℕ
skip_level [] = []
skip_level (c ∷ cs) = let rest = skip_level cs in if c == b'/' then c ∷ cs else rest

-- _is_topic_matched. The filter ends with its NUL, the name with its length; a `break` leaves the name
-- unfinished, so that the result is false.
unfoldable pub is_topic_matched : List ℕ → List ℕ → Bool
is_topic_matched [] [] = true
is_topic_matched [] (c ∷ cs) = false
is_topic_matched (f ∷ fs) [] = false
is_topic_matched (f ∷ fs) (c ∷ cs) =
    let level = is_topic_matched fs (skip_level cs) in
    let all = is_topic_matched fs [] in
    let next = is_topic_matched fs cs in
    if c == b'/' && not (f == b'/')
    then false
    else (if not (f == b'+') && (not (f == b'#') && not (f == c))
        then false
        else (if f == b'+' then level else (if f == b'#' then all else next)))

abbrev pub IsPlain : ℕ → Type 0
IsPlain f = (f ≢ b'+') × (f ≢ b'#')

-- One topic level: characters other than the separator, up to the end or to the next separator.
pub data Level : List ℕ → List ℕ → Type 0 where
  end : Level [] []
  separator : (cs : List ℕ) → Level (b'/' ∷ cs) (b'/' ∷ cs)
  character : (c : ℕ) {cs rest : List ℕ} → c ≢ b'/' → Level cs rest → Level (c ∷ cs) rest

-- A filter matches a name: character by character; `+` stands for one level that is not empty; `#`
-- stands for the rest of the name, which does not begin with a separator.
pub data Matches : List ℕ → List ℕ → Type 0 where
  done : Matches [] []
  plain : (c : ℕ) {fs cs : List ℕ} → IsPlain c → Matches fs cs → Matches (c ∷ fs) (c ∷ cs)
  plus :
      (f c : ℕ) {fs cs rest : List ℕ}
      → f ≡ b'+'
      → c ≢ b'/'
      → Level cs rest
      → Matches fs rest
      → Matches (f ∷ fs) (c ∷ cs)
  hash :
      (f c : ℕ) {fs cs : List ℕ} → f ≡ b'#' → c ≢ b'/' → Matches fs [] → Matches (f ∷ fs) (c ∷ cs)

==-ne : (a b : ℕ) → (a == b) ≡ false → a ≢ b
==-ne a b h = ground arith

skip_level-Level : (cs : List ℕ) → Level cs (skip_level cs)
unfolding skip_level
skip_level-Level [] = end
skip_level-Level (c ∷ cs) = elim (Bool-cases (c == b'/')) [
  | inl at_end ↦
      rw at_end
        (subst (λ x. Level (x ∷ cs) (x ∷ cs)) (sym ((==_iff c b'/').0 at_end)) (separator cs))
  | inr inside ↦ rw inside (character c (==-ne c b'/' inside) (skip_level-Level cs))
]

Level-skip_level : {cs rest : List ℕ} → Level cs rest → skip_level cs ≡ rest
unfolding skip_level
Level-skip_level end = refl
Level-skip_level (separator cs) = refl
Level-skip_level (character c h l) = rw (ne→== c _ h) (Level-skip_level l)

matched_complete : {fs cs : List ℕ} → Matches fs cs → is_topic_matched fs cs ≡ true
unfolding is_topic_matched
matched_complete done = refl
matched_complete (plain c (p, h) m) = ground (arith, matched_complete m)
matched_complete (plus f c {cs = cs} e h l m) =
    ground (arith, Level-skip_level l, matched_complete m)
matched_complete (hash f c e h m) = ground (arith, matched_complete m)

-- What a filter and a name that match begin with.
step_cases :
    (f c : ℕ) (fs cs : List ℕ)
    → is_topic_matched (f ∷ fs) (c ∷ cs) ≡ true
    → ((f ≡ b'+') × (c ≢ b'/') × (is_topic_matched fs (skip_level cs) ≡ true))
      ⊎ ((f ≡ b'#') × (c ≢ b'/') × (is_topic_matched fs [] ≡ true))
      ⊎ (IsPlain c × (c ≡ f) × (is_topic_matched fs cs ≡ true))
unfolding is_topic_matched
step_cases f c fs cs h = ground arith

matched_sound : (fs cs : List ℕ) → is_topic_matched fs cs ≡ true → Matches fs cs
matched_sound [] [] h = done
matched_sound [] (c ∷ cs) h = unfold is_topic_matched in cc
matched_sound (f ∷ fs) [] h = unfold is_topic_matched in cc
matched_sound (f ∷ fs) (c ∷ cs) h = elim (step_cases f c fs cs h) [
  | inl (is_plus, inside, m) ↦
      plus f c is_plus inside (skip_level-Level cs) (matched_sound fs (skip_level cs) m)
  | inr (inl (is_hash, inside, m)) ↦ hash f c is_hash inside (matched_sound fs [] m)
  | inr (inr (is_plain, same, m)) ↦
      subst (λ x. Matches (x ∷ fs) (c ∷ cs)) same (plain c is_plain (matched_sound fs cs m))
]

-- _is_topic_matched decides the relation `Matches`, which follows its branches, on every filter
-- and every name.
pub is_topic_matched_iff : (fs cs : List ℕ) → (is_topic_matched fs cs ≡ true) ↔ Matches fs cs
is_topic_matched_iff fs cs = (matched_sound fs cs, matched_complete)

plain_eq : (fs cs : List ℕ) → All IsPlain fs → is_topic_matched fs cs ≡ true → fs ≡ cs
plain_eq [] [] p h = refl
plain_eq [] (c ∷ cs) p h = unfold is_topic_matched in cc
plain_eq (f ∷ fs) [] p h = unfold is_topic_matched in cc
plain_eq (f ∷ fs) (c ∷ cs) p h = elim (step_cases f c fs cs h) [
  | inl (is_plus, inside, m) ↦ absurd (p.0.0 is_plus)
  | inr (inl (is_hash, inside, m)) ↦ absurd (p.0.1 is_hash)
  | inr (inr (is_plain, same, m)) ↦ ap₂ (λ x l. x ∷ l) (sym same) (plain_eq fs cs p.1 m)
]

plain_self : (fs : List ℕ) → All IsPlain fs → is_topic_matched fs fs ≡ true
plain_self [] p = unfold is_topic_matched in refl
plain_self (f ∷ fs) p = matched_complete (plain f p.0 (matched_sound fs fs (plain_self fs p.1)))

-- A filter with no wildcard matches its own name and no other.
pub is_topic_matched_plain :
    (fs cs : List ℕ) → All IsPlain fs → (is_topic_matched fs cs ≡ true) ↔ (fs ≡ cs)
is_topic_matched_plain fs cs p =
    (plain_eq fs cs p, λ e. subst (λ x. is_topic_matched fs x ≡ true) e (plain_self fs p))
