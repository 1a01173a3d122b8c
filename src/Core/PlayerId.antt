-- ===== src/Core/PlayerId.antt =====
-- packages/core/src/player-id.ts: the canonical identity of a player, as its UTF-16 code units.
use europa_neo.Prelude.{ℕ, ◌==◌, leb, Bool, true, false, ◌&&◌, ◌||◌, List, [], ◌∷◌, length}

abbrev pub PlayerId : Type 0
PlayerId = List ℕ

abbrev pub player_id_length : ℕ
player_id_length = 12

-- The class [A-Za-z0-9_-] of PLAYER_ID_PATTERN.
unfoldable pub is_id_char : ℕ → Bool
is_id_char c =
    (leb b'A' c && leb c b'Z')
    || (leb b'a' c && leb c b'z')
    || (leb b'0' c && leb c b'9')
    || c == b'_'
    || c == b'-'

unfoldable pub all_id_chars : List ℕ → Bool
all_id_chars [] = true
all_id_chars (c ∷ cs) = is_id_char c && all_id_chars cs

-- The test of PLAYER_ID_PATTERN on a string.
unfoldable pub is_player_id : PlayerId → Bool
is_player_id id = length id == player_id_length && all_id_chars id

-- `===` on strings.
abbrev pub eq_id : PlayerId → PlayerId → Bool
eq_id [] [] = true
eq_id [] (y ∷ ys) = false
eq_id (x ∷ xs) [] = false
eq_id (x ∷ xs) (y ∷ ys) = x == y && eq_id xs ys
