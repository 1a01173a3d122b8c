-- ===== src/Matchmaking/Results.antt =====
-- packages/matchmaking/src/results.ts: the results of a match.
use europa_neo.Prelude.{
  ℕ, zero, suc, ◌+◌, ◌-◌, ◌*◌, ◌/◌, ◌%◌, ltb, if◌then◌else◌, bit_xor, bit_and, u32, Option, none,
  some, ◌>>=◌, List, [], ◌∷◌, get_elem?, sub_ℕ, ℤ,
}
use europa_neo.Engine.Types.{World, Player, eliminated}
use europa_neo.Engine.Registry.{index_of_id, sort_by}
use europa_neo.Matchmaking.OrderedMap.{OrderedMap, values}
use europa_neo.Matchmaking.Types.{Text, SeatRecord, Verdict, FinalPlayer, MatchResultsRecord}

-- A round of FNV-1a on the low byte of each number.
unfoldable pub fnv1a : List ℕ → ℕ → ℕ
fnv1a [] hash = hash
fnv1a (n ∷ ns) hash = fnv1a ns (u32 (bit_xor hash (bit_and n 0xff) * 0x01000193))

abbrev hex_digit : ℕ → ℕ
hex_digit d = if ltb d 10 then b'0' + d else b'a' + (d - 10)

abbrev hex_digits : ℕ → ℕ → Text → Text
hex_digits zero n out = out
hex_digits (suc k) n out = hex_digits k (n / 16) (hex_digit (n % 16) ∷ out)

-- `toString(16).padStart(8, '0')` of a number of 32 bits.
abbrev hex8 : ℕ → Text
hex8 n = hex_digits 8 n []

unfoldable pub fnv1a_hex : List ℕ → List ℕ → Text
unfolding fnv1a
fnv1a_hex as' bs = hex8 (fnv1a bs (fnv1a as' 0x811c9dc5))

abbrev pub by_seat_index : SeatRecord → SeatRecord → ℤ
by_seat_index a b = sub_ℕ a.seat_index b.seat_index

-- The player of a seat, found by its id; one that is not found counts as eliminated, with nothing.
abbrev player_of_seat : World → SeatRecord → Option Player
player_of_seat w seat = index_of_id w.registry seat.player_id >>= get_elem? w.players

abbrev standing : SeatRecord → Option Player → FinalPlayer
standing seat none = record {
  id = seat.player_id;
  display_name = seat.display_name;
  status = eliminated;
  final_troops = 0;
  final_cities = 0;
}
standing seat (some p) = record {
  id = seat.player_id;
  display_name = seat.display_name;
  status = p.status;
  final_troops = p.troops_held;
  final_cities = p.cities_owned;
}

unfoldable pub final_players : World → List SeatRecord → List FinalPlayer
final_players w [] = []
final_players w (s ∷ ss) = standing s (player_of_seat w s) ∷ final_players w ss

unfoldable pub build_match_results_record :
    Text → World → Verdict → OrderedMap ℕ SeatRecord → MatchResultsRecord
unfolding final_players
build_match_results_record match_id w result seats = record {
  match_id = match_id;
  tick = w.tick;
  effective_seed = w.rng_seed;
  result = result;
  final_board_hash = fnv1a_hex w.state.troop_counts w.state.city_owners;
  final_players = final_players w (sort_by by_seat_index (values seats));
}
