-- ===== src/Engine/Terminal/Outcome.antt =====
-- What the terminal phase decides of the players and of the match.
use europa_neo.Prelude.{
  ℕ, ◌≤◌, ◌≡◌, refl, sym, ap, ap₂, ◌∙◌, arith, at, List, [], ◌∷◌, ◌++◌, map, length, Bool, true,
  false, ◌&&◌, ◌==◌, if◌then◌else◌, none, Returns, Returns-bind,
}
use europa_neo.Core.FlowRate.{EngineConstants}
use europa_neo.Core.PlayerId.{PlayerId}
use europa_neo.Engine.Types.{
  WorldState, Player, PlayerStatus, alive, surrendered, eliminated, PlayerRegistry,
  EliminationEvent, TickEvents, empty_tick_events, push_elimination_event,
}
use europa_neo.Engine.Registry.{count, sort_by, compare_utf16}
use europa_neo.Engine.Registry.Sorting.{length-sort_by}
use europa_neo.Engine.Valid.{IsValid}
use europa_neo.Engine.Terminal.{
  Totals, total, troops_by_player, cities_by_player, is_alive, update_player, update_players,
  is_newly_out, alive_players, decide_match, TerminalResult, resolve_terminal,
}
use europa_neo.Engine.Terminal.Totals.{held, tally-held}

-- The troops and the cities of a player in a state.
abbrev pub troops_of : WorldState → PlayerRegistry → PlayerId → ℕ
troops_of s r id = held r s.troop_owners (at s.troop_counts) id (length s.troop_counts)

abbrev pub cities_of : WorldState → PlayerRegistry → PlayerId → ℕ
cities_of s r id = held r s.city_owners (λ i. 1) id (length s.city_owners)

-- A player with neither troops nor cities.
abbrev pub has_nothing : WorldState → PlayerRegistry → PlayerId → Bool
has_nothing s r id = troops_of s r id == 0 && cities_of s r id == 0

-- The snapshot that a player must get: only one who was alive and has nothing left is eliminated.
abbrev pub snapshot : WorldState → PlayerRegistry → Player → Player
snapshot s r p = record p {
  status = if is_alive p.status && has_nothing s r p.id then eliminated else p.status;
  cities_owned = cities_of s r p.id;
  troops_held = troops_of s r p.id;
}

-- The players who are out in this tick, in their order.
abbrev pub newly_out : WorldState → PlayerRegistry → ℕ → List Player → List EliminationEvent
newly_out s r tick [] = []
newly_out s r tick (p ∷ ps) =
    let rest = newly_out s r tick ps in
    if is_alive p.status && has_nothing s r p.id
    then record { tick = tick; player = p.id } ∷ rest
    else rest

new_status :
    (t : PlayerStatus) (out : Bool)
    → (if is_alive t then (if out then eliminated else alive) else t)
      ≡ (if is_alive t && out then eliminated else t)
new_status alive out = refl
new_status surrendered out = refl
new_status eliminated out = refl

update_player-snapshot :
    (s : WorldState) (r : PlayerRegistry) (p : Player) (t c : ℕ)
    → t ≡ troops_of s r p.id
    → c ≡ cities_of s r p.id
    → update_player t c p ≡ snapshot s r p
unfolding update_player
update_player-snapshot s r p t c et ec =
    rw (et, ec)
      (ap
        (λ (q : PlayerStatus). record p {
          status = q;
          cities_owned = cities_of s r p.id;
          troops_held = troops_of s r p.id;
        })
        (new_status p.status (has_nothing s r p.id)))

append_assoc_one :
    (xs ys : List EliminationEvent) (e : EliminationEvent) → (xs ++ e ∷ []) ++ ys ≡ xs ++ e ∷ ys
append_assoc_one [] ys e = refl
append_assoc_one (x ∷ xs) ys e =
    ap (λ (l : List EliminationEvent). x ∷ l) (append_assoc_one xs ys e)

append_nil : (xs : List EliminationEvent) → xs ++ [] ≡ xs
append_nil [] = refl
append_nil (x ∷ xs) = ap (λ (l : List EliminationEvent). x ∷ l) (append_nil xs)

push_out :
    (b b' : Bool) (e : EliminationEvent) (events : TickEvents) (rest : List EliminationEvent)
    → b ≡ b'
    → (if b then push_elimination_event events e else events).eliminations ++ rest
      ≡ events.eliminations ++ (if b' then e ∷ rest else rest)
push_out true true e events rest h = append_assoc_one events.eliminations rest e
push_out true false e events rest h = absurd (cc)
push_out false true e events rest h = absurd (cc)
push_out false false e events rest h = refl

-- What the loop over the players leaves.
record Updated (s : WorldState) (r : PlayerRegistry) (tick : ℕ) (ps : List Player)
    (before : TickEvents) (out : List Player × TickEvents) : Type 0 where
  players : out.0 ≡ map (snapshot s r) ps
  eliminations : out.1.eliminations ≡ before.eliminations ++ newly_out s r tick ps

update_players-Updated :
    (s : WorldState) (r : PlayerRegistry) (tick : ℕ) (troops cities : Totals)
    → ((id : PlayerId) → total id troops ≡ troops_of s r id)
    → ((id : PlayerId) → total id cities ≡ cities_of s r id)
    → (ps : List Player) (events : TickEvents)
    → Updated s r tick ps events (update_players troops cities tick ps events)
unfolding update_players is_newly_out
update_players-Updated s r tick troops cities ht hc [] events = record {
  players = refl;
  eliminations = sym (append_nil events.eliminations);
}
update_players-Updated s r tick troops cities ht hc (p ∷ ps) events =
    let t = total p.id troops in
    let c = total p.id cities in
    let next =
      if is_newly_out t c p
      then push_elimination_event events (record { tick = tick; player = p.id })
      else events in
    let rest = update_players-Updated s r tick troops cities ht hc ps next in
    record {
      players =
          ap₂ (λ (q : Player) (qs : List Player). q ∷ qs)
            (update_player-snapshot s r p t c (ht p.id) (hc p.id)) rest.players;
      eliminations =
          rest.eliminations
          ∙ push_out (is_newly_out t c p) (is_alive p.status && has_nothing s r p.id)
              (record { tick = tick; player = p.id }) events (newly_out s r tick ps)
              (ap₂ (λ (x y : ℕ). is_alive p.status && (x == 0 && y == 0)) (ht p.id) (hc p.id));
    }

-- Sorting the living does not change the decision, which only looks at whether there are two.
decide_match-sort :
    (ps : List Player) (tick : ℕ)
    → decide_match (sort_by (λ (p q : Player). compare_utf16 p.id q.id) ps) tick
      ≡ decide_match ps tick
unfolding sort_by
decide_match-sort [] tick = refl
decide_match-sort (p ∷ []) tick = refl
decide_match-sort (p ∷ q ∷ ps) tick =
    two_or_more (sort_by (λ (p q : Player). compare_utf16 p.id q.id) (p ∷ q ∷ ps)) tick
      (omega (arith, length-sort_by (λ (p q : Player). compare_utf16 p.id q.id) (p ∷ q ∷ ps)))
  where
    two_or_more : (qs : List Player) (tick : ℕ) → 2 ≤ length qs → decide_match qs tick ≡ none
    two_or_more [] tick h = absurd (omega arith)
    two_or_more (a ∷ []) tick h = absurd (omega arith)
    two_or_more (a ∷ b ∷ qs) tick h = refl

pub record Ended (s : WorldState) (prev : List Player) (tick : ℕ) (r : PlayerRegistry)
    (out : TerminalResult) : Type 0 where
  pub players : out.players ≡ map (snapshot s r) prev
  pub eliminations : out.events.eliminations ≡ newly_out s r tick prev
  pub decided : out.terminal ≡ decide_match (alive_players (map (snapshot s r) prev)) tick

-- On a valid state the terminal phase returns. Each player's troops and cities are the sums over the
-- cells that the player holds; a player who was alive and has neither is eliminated, with an event, and
-- every other player keeps its status; the match ends if at most one is alive after that.
pub resolve_terminal-Ended :
    {n cap : ℕ} (s : WorldState) (prev : List Player) (c : EngineConstants) (tick : ℕ)
    (r : PlayerRegistry)
    → IsValid n (count r) cap s
    → Returns (Ended s prev tick r) (resolve_terminal s prev c tick r)
unfolding resolve_terminal troops_by_player cities_by_player
resolve_terminal-Ended s prev c tick r v =
    let R = Ended s prev tick r in
    Returns-bind (λ (m : Totals). (id : PlayerId) → total id m ≡ troops_of s r id) R
      (tally-held r s.troop_owners (at s.troop_counts) v.troops.known (length s.troop_counts))
      (λ troops _ ht.
        Returns-bind (λ (m : Totals). (id : PlayerId) → total id m ≡ cities_of s r id) R
          (tally-held r s.city_owners (λ i. 1) v.cities_known (length s.city_owners))
          (λ cities _ hc.
            let u = update_players-Updated s r tick troops cities ht hc prev empty_tick_events in
            (
              _,
              refl,
              record {
                players = u.players;
                eliminations = u.eliminations;
                decided =
                    decide_match-sort _ tick
                    ∙ ap (λ (ps : List Player). decide_match (alive_players ps) tick) u.players;
              },
            )))
