-- ===== src/Engine/Combat.antt =====
-- packages/engine/src/resolution/combat.ts: sides that meet in a cell fight. The tallies and the
-- snapshot before flow are supplied, as tick.ts does; the older path without them is not modelled.
pub mod Sides
pub mod Loop
pub mod Laws
use europa_neo.Prelude.{
  ℕ, suc, ◌+◌, ◌-◌, ◌*◌, ltb, leb, min, ◌==◌, if◌then◌else◌, Bool, true, false, not, ◌&&◌, ◌||◌,
  Option, none, some, ◌>>=◌, List, [], ◌∷◌, ◌++◌, length, at, write32, write8, for_range?, ℤ, sub_ℕ,
}
use europa_neo.Core.Types.{Board}
use europa_neo.Core.FlowRate.{EngineConstants}
use europa_neo.Core.PlayerId.{PlayerId}
use europa_neo.Engine.Types.{
  WorldState, TickEvents, CombatEvent, Winner, won_by, tie, PlayerRegistry, empty_tick_events,
  push_combat_event,
}
use europa_neo.Engine.Registry.{require_id, sort_by}
use europa_neo.Engine.Attrition.{AttritionOutcome, resolve_two_way_attrition}
use europa_neo.Engine.Capture.{idx_to_coord}

-- A side at a cell: an owner byte and its count.
pub record Force : Type 0 where
  pub owner : ℕ
  pub count : ℕ

pub record Battle : Type 0 where
  pub counts : List ℕ
  pub owners : List ℕ
  pub events : TickEvents

-- What the loop over the cells reads.
pub record Field : Type 0 where
  pub width : ℕ
  pub constants : EngineConstants
  pub tick : ℕ
  pub registry : PlayerRegistry
  pub committed : List ℕ
  pub pre_owners : List ℕ
  pub pre_counts : List ℕ

abbrev pub slot : Field → ℕ → ℕ → ℕ
slot f idx owner = at f.committed (idx * 4 + (owner - 1))

abbrev pub push_force : ℕ → ℕ → List Force → List Force
push_force owner count rest =
    if ltb 0 count then record { owner = owner; count = count } ∷ rest else rest

-- The players 1 to 4 that committed flow to the cell.
unfoldable pub committed_players : Field → ℕ → List Force
committed_players f idx =
    push_force 1 (slot f idx 1)
      (push_force 2 (slot f idx 2) (push_force 3 (slot f idx 3) (push_force 4 (slot f idx 4) [])))

abbrev pub any_other : ℕ → List Force → Bool
any_other owner [] = false
any_other owner (p ∷ ps) = not (p.owner == owner) || any_other owner ps

-- The garrison's total force: into its entry, or as a new entry at the end.
unfoldable pub add_garrison : ℕ → ℕ → List Force → List Force
add_garrison owner total [] = record { owner = owner; count = total } ∷ []
add_garrison owner total (p ∷ ps) =
    let rest = add_garrison owner total ps in
    if p.owner == owner then record p { count = total } ∷ ps else p ∷ rest

unfoldable pub participants : Field → ℕ → List Force
participants f idx =
    let garrison = at f.pre_owners idx in
    let players = committed_players f idx in
    if garrison == 0
    then players
    else add_garrison garrison (at f.pre_counts idx + slot f idx garrison) players

unfoldable pub is_contested : Field → ℕ → Bool
is_contested f idx =
    let garrison = at f.pre_owners idx in
    let players = committed_players f idx in
    if garrison == 0 then leb 2 (length players) else any_other garrison players

abbrev by_owner : Force → Force → ℤ
by_owner a b = sub_ℕ a.owner b.owner

unfoldable pub sorted_participants : Field → ℕ → List Force
sorted_participants f idx = sort_by by_owner (participants f idx)

-- Which of two sides attacks, and with what: a garrison defends, else the lower owner attacks.
pub record Duel : Type 0 where
  pub attacker : ℕ
  pub defender : ℕ
  pub attacker_total : ℕ
  pub defender_total : ℕ

unfoldable pub duel : Field → ℕ → Force → Force → Duel
duel f idx a b =
    let garrison = at f.pre_owners idx in
    let attacker = if a.owner == garrison then b.owner else a.owner in
    if not (garrison == 0)
    then record {
      attacker = attacker;
      defender = garrison;
      attacker_total = slot f idx attacker;
      defender_total = at f.pre_counts idx + slot f idx garrison;
    }
    else if ltb a.owner b.owner
    then record {
      attacker = a.owner;
      defender = b.owner;
      attacker_total = a.count;
      defender_total = b.count;
    }
    else record {
      attacker = b.owner;
      defender = a.owner;
      attacker_total = b.count;
      defender_total = a.count;
    }

unfoldable pub duel_outcome : Field → Duel → AttritionOutcome
duel_outcome f d = resolve_two_way_attrition (record {
  attacker_owner = d.attacker;
  attacker_total = d.attacker_total;
  defender_owner = d.defender;
  defender_total = d.defender_total;
  cell_capacity = f.constants.cell_capacity;
})

-- The winner's id, or a tie at owner 0.
unfoldable pub winner_of : PlayerRegistry → ℕ → Option Winner
winner_of registry owner =
    if owner == 0 then some tie else (require_id registry owner >>= λ id. some (won_by id))

unfoldable pub fight_two : Field → ℕ → Force → Force → Battle → Option Battle
fight_two f idx a b t = do
  let d = duel f idx a b
  let out = duel_outcome f d
  let low = if ltb a.owner b.owner then a.owner else b.owner
  let high = if ltb a.owner b.owner then b.owner else a.owner
  winner ← winner_of f.registry out.winner_owner
  attacker ← require_id f.registry low
  defender ← require_id f.registry high
  some (record {
    counts = write32 t.counts idx out.winner_count;
    owners = write8 t.owners idx out.winner_owner;
    events = push_combat_event t.events (record {
      tick = f.tick;
      cell = idx_to_coord idx f.width;
      attacker = attacker;
      defender = defender;
      attacker_loss = out.damage;
      defender_loss = out.damage;
      winner = winner;
      attacker_total = d.attacker_total;
      defender_total = d.defender_total;
    });
  })

-- The test of the loop over the sides: a larger count, or an equal one of a lower owner.
abbrev pub better : Force → Force → Force
better best p =
    if ltb best.count p.count || (p.count == best.count && ltb p.owner best.owner) then p else best

-- The loop that keeps the better of the side found so far and the next one.
unfoldable pub dominant : Force → List Force → Force
dominant best [] = best
dominant best (p ∷ ps) = dominant (better best p) ps

unfoldable pub push_loser : Field → ℕ → Force → Force → TickEvents → Option TickEvents
push_loser f idx dom p events = do
  attacker ← require_id f.registry dom.owner
  defender ← require_id f.registry p.owner
  some (
      push_combat_event events (record {
        tick = f.tick;
        cell = idx_to_coord idx f.width;
        attacker = attacker;
        defender = defender;
        attacker_loss = 0;
        defender_loss = p.count;
        winner = won_by attacker;
        attacker_total = dom.count;
        defender_total = p.count;
      }))

-- An event for each side but the dominant one.
unfoldable pub push_losers : Field → ℕ → Force → List Force → TickEvents → Option TickEvents
push_losers f idx dom [] events = some events
push_losers f idx dom (p ∷ ps) events =
    (if p.owner == dom.owner then some events else push_loser f idx dom p events)
    >>= push_losers f idx dom ps

unfoldable pub fight_many : Field → ℕ → Force → List Force → Battle → Option Battle
fight_many f idx first rest t = do
  let dom = dominant first rest
  events ← push_losers f idx dom (first ∷ rest) t.events
  some (record {
    counts = write32 t.counts idx (min dom.count f.constants.cell_capacity);
    owners = write8 t.owners idx dom.owner;
    events = events;
  })

unfoldable pub fight : Field → ℕ → List Force → Battle → Option Battle
fight f idx [] t = some t
fight f idx (a ∷ []) t = some t
fight f idx (a ∷ b ∷ []) t = fight_two f idx a b t
fight f idx (a ∷ b ∷ c ∷ rest) t = fight_many f idx a (b ∷ c ∷ rest) t

unfoldable pub combat_cell : Field → ℕ → Battle → Option Battle
combat_cell f idx t =
    if is_contested f idx then fight f idx (sorted_participants f idx) t else some t

unfoldable pub resolve_combat :
    WorldState
    → Board
    → EngineConstants
    → ℕ
    → PlayerRegistry
    → List ℕ
    → List ℕ
    → List ℕ
    → Option (WorldState × TickEvents)
resolve_combat s board c tick registry committed pre_owners pre_counts = do
  let f : Field = record {
    width = board.width;
    constants = c;
    tick = tick;
    registry = registry;
    committed = committed;
    pre_owners = pre_owners;
    pre_counts = pre_counts;
  }
  t ←
      for_range? (board.width * board.height) 0 (combat_cell f)
        (record { counts = s.troop_counts; owners = s.troop_owners; events = empty_tick_events })
  some (record s { troop_counts = t.counts; troop_owners = t.owners }, t.events)
