-- ===== src/Engine/Validate/Laws.antt =====
-- Which orders a world accepts.
use europa_neo.Prelude.{
  ℕ, ◌+◌, ◌≤◌, ◌≡◌, refl, arith, at, get_elem?, Option, some, none, Option-cases, inl, inr, true,
  ltb, not, if-elim,
}
use europa_neo.Core.Types.{Coord, Pos, Cell, in_bounds, index, is_land_cell}
use europa_neo.Core.FlowRate.{engine_constants}
use europa_neo.Core.PlayerId.{PlayerId}
use europa_neo.Engine.Reserves.Laws.{compute_reserves_floor-le}
use europa_neo.Engine.Types.{
  World, Player, Order, gun, set_pipe, clear_pipe, set_pipes_exclusive, clear_all_pipes,
  set_reserves, paratroop, surrender, CommandResult, ok, fail, alive,
}
use europa_neo.Engine.Reserves.{compute_reserves_floor}
use europa_neo.Engine.Paratroop.{chebyshev, paratroop_max_range, source_spend}
use europa_neo.Engine.Validate.Conditions.{
  Owns, IsLandAt, CanPay, InRange, IsAlive, Accepts, AreWords,
}
use europa_neo.Engine.Validate.{
  ◌>>◌, resolve_player_byte, check_owner, validate_source_ownership, destination, check_pipe_target,
  validate_pipe_destination, validate_set_pipe, percent_in_range, validate_set_reserves,
  check_troops, check_drop, validate_paratroop, validate_gun, find_player, check_status,
  validate_surrender, validate_command,
}

>>-ok : (a b : CommandResult) → (a >> b) ≡ ok → (a ≡ ok) × (b ≡ ok)
>>-ok ok b h = (refl, h)
>>-ok (fail e) b h = absurd (cc)

check_owner-ok :
    (w : World) (cell : Coord) (player : PlayerId) (p : Pos)
    → in_bounds w.board.width w.board.height cell ≡ some p
    → check_owner w cell player (index w.board.width p) ≡ ok
    → Owns w player cell
unfolding check_owner
check_owner-ok w cell player p inside h = elim (Option-cases (resolve_player_byte w player)) [
  | inl missing ↦ absurd (let k = rw (missing, check_owner) at h in cc)
  | inr (b, found) ↦
      (let k = rw (found, check_owner) at h in
        record { pos = p; byte = b; inside = inside; registered = found; holds = ground arith })
]

validate_source_ownership-ok :
    (w : World) (cell : Coord) (player : PlayerId)
    → validate_source_ownership w cell player ≡ ok
    → Owns w player cell
unfolding validate_source_ownership
validate_source_ownership-ok w cell player h =
    elim (Option-cases (in_bounds w.board.width w.board.height cell)) [
      | inl missing ↦ absurd (let k = rw (missing, validate_source_ownership) at h in cc)
      | inr (p, inside) ↦
          check_owner-ok w cell player p inside (rw (inside, validate_source_ownership) at h)
    ]

check_pipe_target-ok :
    (dst : Coord) (c : Option Cell) → check_pipe_target dst c ≡ ok → is_land_cell c ≡ true
check_pipe_target-ok dst none h = absurd (cc)
check_pipe_target-ok dst (some c) h = ground arith

validate_pipe_destination-ok :
    (w : World) (dst : Coord) → validate_pipe_destination w dst ≡ ok → IsLandAt w dst
unfolding validate_pipe_destination
validate_pipe_destination-ok w dst h =
    elim (Option-cases (in_bounds w.board.width w.board.height dst)) [
      | inl missing ↦ absurd (let k = rw (missing, validate_pipe_destination) at h in cc)
      | inr (p, inside) ↦ record {
        pos = p;
        inside = inside;
        on_land =
            check_pipe_target-ok dst (get_elem? w.board.cells (index w.board.width p))
              (rw (inside, validate_pipe_destination) at h);
      }
    ]

check_troops-ok :
    (w : World) (source : Coord) (i cost : ℕ)
    → AreWords w
    → check_troops w source i cost ≡ ok
    → compute_reserves_floor (at w.state.troop_counts i) (at w.state.reserves_pct i) + cost
      ≤ at w.state.troop_counts i
unfolding check_troops
check_troops-ok w source i cost words h =
    let low = compute_reserves_floor-le (at w.state.troop_counts i) (at w.state.reserves_pct i) in
    let word = words i in ground arith

check_drop-ok :
    (w : World) (source target : Coord) (s t : Pos)
    → AreWords w
    → in_bounds w.board.width w.board.height source ≡ some s
    → in_bounds w.board.width w.board.height target ≡ some t
    → check_drop w source target s t ≡ ok
    → IsLandAt w target × InRange w source target × CanPay w source (source_spend engine_constants)
unfolding check_drop
check_drop-ok w source target s t words hs ht =
    let P = λ (r : CommandResult).
      r ≡ ok
      → IsLandAt w target
        × InRange w source target
        × CanPay w source (source_spend engine_constants) in
    if-elim P (not (is_land_cell (get_elem? w.board.cells (index w.board.width t))))
      (λ water h. absurd (cc))
      (λ on_land.
        if-elim P (ltb paratroop_max_range (chebyshev s t)) (λ far h. absurd (cc))
          (λ near h. (
            record { pos = t; inside = ht; on_land = ground arith },
            record {
              from = s;
              to = t;
              source_inside = hs;
              target_inside = ht;
              near = ground arith;
            },
            record {
              pos = s;
              inside = hs;
              pays =
                  check_troops-ok w source (index w.board.width s) (source_spend engine_constants)
                    words h;
            },
          )))

validate_paratroop-ok :
    (w : World) (source target : Coord) (player : PlayerId)
    → AreWords w
    → validate_paratroop w source target player ≡ ok
    → Accepts w (paratroop player source target)
unfolding validate_paratroop
validate_paratroop-ok w source target player words h =
    let parts = >>-ok (validate_source_ownership w source player) _ h in
    elim (Option-cases (in_bounds w.board.width w.board.height source)) [
      | inl missing ↦ absurd (let k = rw missing at parts.1 in cc)
      | inr (s, hs) ↦ elim (Option-cases (in_bounds w.board.width w.board.height target)) [
        | inl missing ↦ absurd (let k = rw (hs, missing) at parts.1 in cc)
        | inr (t, ht) ↦
            (let r = check_drop-ok w source target s t words hs ht (rw (hs, ht) at parts.1) in
              (validate_source_ownership-ok w source player parts.0, r.0, r.1, r.2))
      ]
    ]

validate_gun-ok :
    (w : World) (source target : Coord) (player : PlayerId)
    → AreWords w
    → validate_gun w source target player ≡ ok
    → Accepts w (gun player source target)
unfolding validate_gun
validate_gun-ok w source target player words h =
    let parts = >>-ok (validate_source_ownership w source player) _ h in
    elim (Option-cases (in_bounds w.board.width w.board.height source)) [
      | inl missing ↦ absurd (let k = rw missing at parts.1 in cc)
      | inr (s, hs) ↦ elim (Option-cases (in_bounds w.board.width w.board.height target)) [
        | inl missing ↦ absurd (let k = rw (hs, missing) at parts.1 in cc)
        | inr (t, ht) ↦ (
          validate_source_ownership-ok w source player parts.0,
          (t, ht),
          record {
            pos = s;
            inside = hs;
            pays =
                check_troops-ok w source (index w.board.width s) engine_constants.gun_cost words
                  (rw (hs, ht) at parts.1);
          },
        )
      ]
    ]

check_status-ok :
    (player : PlayerId) (p : Player) → check_status player p.status ≡ ok → p.status ≡ alive
check_status-ok player p h = ground arith

validate_surrender-ok :
    (w : World) (player : PlayerId) → validate_surrender w player ≡ ok → IsAlive w player
unfolding validate_surrender
validate_surrender-ok w player h = elim (Option-cases (find_player player w.players)) [
  | inl missing ↦ absurd (let k = rw (missing, validate_surrender) at h in cc)
  | inr (p, found) ↦ (p, found, check_status-ok player p (rw (found, validate_surrender) at h))
]

-- An order is accepted only if it satisfies `Accepts`, for counts of 32 bits. For every order but a
-- surrender, its player is registered and holds the source cell, on the board, by troops or by a city; a pipe and a paratrooper go to land
-- on the board, a paratrooper at most two cells away; a paratrooper and a gun are paid for above the
-- reserves of the source; a reserve percentage is an integer from 0 to 9; and a player who surrenders
-- is alive.
pub validate_command-Accepts :
    (w : World) (o : Order) → AreWords w → validate_command w o ≡ ok → Accepts w o
unfolding validate_command validate_set_pipe validate_set_reserves
validate_command-Accepts w (set_pipe player cell d) words h =
    let parts = >>-ok (validate_source_ownership w cell player) _ h in
    (
      validate_source_ownership-ok w cell player parts.0,
      validate_pipe_destination-ok w (destination d cell) parts.1,
    )
validate_command-Accepts w (clear_pipe player cell d) words h =
    validate_source_ownership-ok w cell player h
validate_command-Accepts w (set_pipes_exclusive player cell d) words h =
    validate_source_ownership-ok w cell player h
validate_command-Accepts w (clear_all_pipes player cell) words h =
    validate_source_ownership-ok w cell player h
validate_command-Accepts w (set_reserves player cell percent) words h =
    if-elim (λ r. r ≡ ok → Accepts w (set_reserves player cell percent)) (percent_in_range percent)
      (λ inside k. (inside, validate_source_ownership-ok w cell player k)) (λ out k. absurd (cc)) h
validate_command-Accepts w (paratroop player source target) words h =
    validate_paratroop-ok w source target player words h
validate_command-Accepts w (gun player source target) words h =
    validate_gun-ok w source target player words h
validate_command-Accepts w (surrender player) words h = validate_surrender-ok w player h
