-- ===== src/Client/Topic/Levels.antt =====
-- _is_topic_matched of services/common/mqtt_client/src/mqtt_client_publish.c against section 4.7 of the MQTT
-- standard, which speaks of the levels of a filter and of a topic name.
use iot_hub_device_c_sdk.Prelude.{
  ℕ, ◌≡◌, ◌≢◌, List, [], ◌∷◌, ◌++◌, Bool, true, false, ◌&&◌, eq_bytes, All,
}

-- A level of a filter: `+`, `#`, or a name.
pub data FilterLevel : Type 0 where
  single_level multi_level : FilterLevel
  named : List ℕ → FilterLevel

-- Section 4.7.1: `+` stands for one level, and `#` for the level before it and for any number of levels
-- behind that.
unfoldable pub mqtt_matches : List FilterLevel → List (List ℕ) → Bool
mqtt_matches [] [] = true
mqtt_matches [] (t ∷ ts) = false
mqtt_matches (multi_level ∷ fs) ts = true
mqtt_matches (single_level ∷ fs) [] = false
mqtt_matches (single_level ∷ fs) (t ∷ ts) = mqtt_matches fs ts
mqtt_matches (named n ∷ fs) [] = false
mqtt_matches (named n ∷ fs) (t ∷ ts) = eq_bytes n t && mqtt_matches fs ts

unfoldable pub level_text : FilterLevel → List ℕ
level_text single_level = b'+' ∷ []
level_text multi_level = b'#' ∷ []
level_text (named n) = n

-- The text of levels that others stand before, and of those that begin a filter or a name.
unfoldable pub behind : List (List ℕ) → List ℕ
behind [] = []
behind (l ∷ ls) = b'/' ∷ (l ++ behind ls)

unfoldable pub joined : List (List ℕ) → List ℕ
joined [] = []
joined (l ∷ ls) = l ++ behind ls

unfoldable pub texts : List FilterLevel → List (List ℕ)
texts [] = []
texts (f ∷ fs) = level_text f ∷ texts fs

abbrev pub IsNameChar : ℕ → Type 0
IsNameChar c = (c ≢ b'/') × (c ≢ b'+') × (c ≢ b'#')

-- `#` is the last level of a filter, and a name has neither separators nor wildcards.
unfoldable pub IsFilter : List FilterLevel → Type 0
IsFilter [] = Unit
IsFilter (single_level ∷ fs) = IsFilter fs
IsFilter (multi_level ∷ fs) = fs ≡ []
IsFilter (named n ∷ fs) = All IsNameChar n × IsFilter fs

-- A level of a topic name has at least one character.
abbrev pub IsLevel : List ℕ → Type 0
IsLevel t = (t ≢ []) × All (λ c. c ≢ b'/') t
