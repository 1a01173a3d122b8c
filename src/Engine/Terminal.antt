-- ===== src/Engine/Terminal.antt =====
-- packages/engine/src/resolution/terminal.ts: who is out, and whether the match is over.
pub mod Totals
pub mod Outcome
use europa_neo.Prelude.{
  ℕ, suc, ◌+◌, ◌==◌, if◌then◌else◌, Bool, true, false, ◌&&◌, Option, none, some, ◌>>=◌, List, [],
  ◌∷◌, ◌++◌, length, at, for_range?,
}
use europa_neo.Core.FlowRate.{EngineConstants}
use europa_neo.Core.PlayerId.{PlayerId, eq_id}
use europa_neo.Engine.Types.{
  WorldState, Player, PlayerStatus, alive, surrendered, eliminated, TickEvents, PlayerRegistry,
  MatchResult, win, draw, empty_tick_events, push_elimination_event,
}
use europa_neo.Engine.Registry.{require_id, sort_by, compare_utf16}

-- A `Map<PlayerId, number>`.
abbrev pub Totals : Type 0
Totals = List (PlayerId × ℕ)

-- `map.get(id) ?? 0`.
unfoldable pub total : PlayerId → Totals → ℕ
total id [] = 0
total id ((k, v) ∷ m) = if eq_id k id then v else total id m

-- `map.set(id, (map.get(id) ?? 0) + v)`.
unfoldable pub add_total : PlayerId → ℕ → Totals → Totals
add_total id v [] = (id, v) ∷ []
add_total id v ((k, w) ∷ m) = if eq_id k id then (k, w + v) ∷ m else (k, w) ∷ add_total id v m

-- One round of the two tally loops: a cell of owner `owner` counts `v`.
unfoldable pub tally_cell : PlayerRegistry → ℕ → ℕ → Totals → Option Totals
tally_cell registry owner v m =
    if owner == 0 then some m else (require_id registry owner >>= λ id. some (add_total id v m))

unfoldable pub troops_by_player : WorldState → PlayerRegistry → Option Totals
troops_by_player s registry =
    for_range? (length s.troop_counts) 0
      (λ i. tally_cell registry (at s.troop_owners i) (at s.troop_counts i)) []

unfoldable pub cities_by_player : WorldState → PlayerRegistry → Option Totals
cities_by_player s registry =
    for_range? (length s.city_owners) 0 (λ i. tally_cell registry (at s.city_owners i) 1) []

abbrev pub is_alive : PlayerStatus → Bool
is_alive alive = true
is_alive surrendered = false
is_alive eliminated = false

-- The player's new snapshot.
unfoldable pub update_player : ℕ → ℕ → Player → Player
update_player troops cities prev = record prev {
  status =
      if is_alive prev.status
      then (if troops == 0 && cities == 0 then eliminated else alive)
      else prev.status;
  cities_owned = cities;
  troops_held = troops;
}

unfoldable pub is_newly_out : ℕ → ℕ → Player → Bool
is_newly_out troops cities prev = is_alive prev.status && (troops == 0 && cities == 0)

-- The loop over the players: new snapshots, and an event for each player that is newly out.
unfoldable pub update_players :
    Totals → Totals → ℕ → List Player → TickEvents → List Player × TickEvents
update_players troops cities tick [] events = ([], events)
update_players troops cities tick (p ∷ ps) events =
    let t = total p.id troops in
    let c = total p.id cities in
    let events' =
      if is_newly_out t c p
      then push_elimination_event events (record { tick = tick; player = p.id })
      else events in
    let rest = update_players troops cities tick ps events' in
    (update_player t c p ∷ rest.0, rest.1)

unfoldable pub alive_players : List Player → List Player
alive_players [] = []
alive_players (p ∷ ps) = let rest = alive_players ps in if is_alive p.status then p ∷ rest else rest

abbrev pub decide_match : List Player → ℕ → Option MatchResult
decide_match [] tick = some (draw tick)
decide_match (p ∷ []) tick = some (win p.id tick)
decide_match (p ∷ q ∷ ps) tick = none

pub record TerminalResult : Type 0 where
  pub players : List Player
  pub events : TickEvents
  pub terminal : Option MatchResult

unfoldable pub resolve_terminal :
    WorldState → List Player → EngineConstants → ℕ → PlayerRegistry → Option TerminalResult
resolve_terminal s prev c tick registry = do
  troops ← troops_by_player s registry
  cities ← cities_by_player s registry
  let updated = update_players troops cities tick prev empty_tick_events
  let living = sort_by (λ (p q : Player). compare_utf16 p.id q.id) (alive_players updated.0)
  some (record { players = updated.0; events = updated.1; terminal = decide_match living tick })
