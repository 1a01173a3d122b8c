-- ===== src/Engine/Validate/Complete.antt =====
-- The orders that a world must accept.
use europa_neo.Prelude.{ℕ, ◌≤◌, ◌≡◌, refl, subst, arith, at, get_elem?, Option, some, none, true}
use europa_neo.Core.Types.{Coord, Pos, Cell, in_bounds, index, is_land_cell}
use europa_neo.Core.FlowRate.{engine_constants}
use europa_neo.Core.PlayerId.{PlayerId}
use europa_neo.Engine.Types.{
  World, Order, gun, set_pipe, clear_pipe, set_pipes_exclusive, clear_all_pipes, set_reserves,
  paratroop, surrender, ok,
}
use europa_neo.Engine.Reserves.Laws.{compute_reserves_floor-le}
use europa_neo.Engine.Paratroop.{chebyshev, paratroop_max_range, source_spend}
use europa_neo.Engine.Validate.Conditions.{
  Owns, IsLandAt, CanPay, InRange, IsAlive, Accepts, AreWords,
}
use europa_neo.Engine.Validate.{
  check_owner, validate_source_ownership, destination, check_pipe_target, validate_pipe_destination,
  validate_set_pipe, validate_set_reserves, check_troops, check_drop, validate_paratroop,
  validate_gun, validate_surrender, validate_command,
}

same_pos : {o : Option Pos} {p q : Pos} → o ≡ some p → o ≡ some q → p ≡ q
same_pos h k = cc

Owns-ok :
    (w : World) (cell : Coord) (player : PlayerId)
    → Owns w player cell
    → validate_source_ownership w cell player ≡ ok
unfolding validate_source_ownership check_owner
Owns-ok w cell player o =
    rw (o.inside, o.registered, validate_source_ownership, check_owner) (ground (arith, o.holds))

is_land-ok : (dst : Coord) (c : Option Cell) → is_land_cell c ≡ true → check_pipe_target dst c ≡ ok
is_land-ok dst none h = absurd (cc)
is_land-ok dst (some c) h = ground arith

pipe_destination-ok :
    (w : World) (dst : Coord) → IsLandAt w dst → validate_pipe_destination w dst ≡ ok
unfolding validate_pipe_destination
pipe_destination-ok w dst l = rw (l.inside, validate_pipe_destination) (is_land-ok dst _ l.on_land)

CanPay-ok :
    (w : World) (source : Coord) (cost : ℕ) (p : CanPay w source cost) (s : Pos)
    → AreWords w
    → in_bounds w.board.width w.board.height source ≡ some s
    → check_troops w source (index w.board.width s) cost ≡ ok
unfolding check_troops
CanPay-ok w source cost p s words inside =
    subst (λ (q : Pos). check_troops w source (index w.board.width q) cost ≡ ok)
      (same_pos p.inside inside)
      (ground (
        arith,
        words (index w.board.width p.pos),
        p.pays,
        compute_reserves_floor-le (at w.state.troop_counts (index w.board.width p.pos))
            (at w.state.reserves_pct (index w.board.width p.pos)),
      ))

drop-ok :
    (w : World) (source target : Coord) (s t : Pos)
    → AreWords w
    → in_bounds w.board.width w.board.height source ≡ some s
    → in_bounds w.board.width w.board.height target ≡ some t
    → IsLandAt w target
    → InRange w source target
    → CanPay w source (source_spend engine_constants)
    → check_drop w source target s t ≡ ok
unfolding check_drop
drop-ok w source target s t words hs ht l r p =
    let on_land : is_land_cell (get_elem? w.board.cells (index w.board.width t)) ≡ true =
      subst (λ (q : Pos). is_land_cell (get_elem? w.board.cells (index w.board.width q)) ≡ true)
        (same_pos l.inside ht) l.on_land in
    let near : chebyshev s t ≤ paratroop_max_range =
      subst (λ (q : Pos). chebyshev s q ≤ paratroop_max_range) (same_pos r.target_inside ht)
        (subst (λ (q : Pos). chebyshev q r.to ≤ paratroop_max_range) (same_pos r.source_inside hs)
          r.near) in
    ground (arith, on_land, near, CanPay-ok w source (source_spend engine_constants) p s words hs)

surrender-ok : (w : World) (player : PlayerId) → IsAlive w player → validate_surrender w player ≡ ok
unfolding validate_surrender
surrender-ok w player (p, found, living) = rw (found, validate_surrender, living) refl

-- An order that satisfies `Accepts`, for counts of 32 bits, is accepted: the checks refuse nothing else.
pub validate_command_complete :
    (w : World) (o : Order) → AreWords w → Accepts w o → validate_command w o ≡ ok
unfolding validate_command validate_set_pipe validate_set_reserves validate_paratroop validate_gun
validate_command_complete w (set_pipe player cell d) words a =
    rw (Owns-ok w cell player a.0) (pipe_destination-ok w (destination d cell) a.1)
validate_command_complete w (clear_pipe player cell d) words a = Owns-ok w cell player a
validate_command_complete w (set_pipes_exclusive player cell d) words a = Owns-ok w cell player a
validate_command_complete w (clear_all_pipes player cell) words a = Owns-ok w cell player a
validate_command_complete w (set_reserves player cell percent) words a =
    rw (a.0) (Owns-ok w cell player a.1)
validate_command_complete w (paratroop player source target) words a =
    rw (Owns-ok w source player a.0, a.2.source_inside, a.2.target_inside)
      (drop-ok w source target a.2.from a.2.to words a.2.source_inside a.2.target_inside a.1 a.2
        a.3)
validate_command_complete w (gun player source target) words a =
    rw (Owns-ok w source player a.0, a.2.inside, a.1.1)
      (CanPay-ok w source engine_constants.gun_cost a.2 a.2.pos words a.2.inside)
validate_command_complete w (surrender player) words a = surrender-ok w player a
