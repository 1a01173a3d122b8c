-- ===== src/Engine/Create/Laws.antt =====
-- What `createWorld` makes.
use europa_neo.Prelude.{
  ℕ, zero, suc, ◌+◌, ◌*◌, ◌≤◌, ◌<◌, ◌≡◌, refl, ◌∙◌, subst, arith, List, [], ◌∷◌, length, length-set,
  length-replicate, replicate, Bool, true, false, some, All, All-set, All-replicate, All-get_elem?,
  Returns, Returns-bind, Whenever, Whenever-some, Whenever-bind, Whenever-if, u8, write8, Occupied,
  get_elem?-lt,
}
use europa_neo.Core.Types.{Board, MatchConfig, CityPlacement, in_bounds, index}
use europa_neo.Core.FlowRate.{engine_constants}
use europa_neo.Core.PlayerId.{PlayerId}
use europa_neo.Engine.Types.{PlayerRegistry, World}
use europa_neo.Engine.Valid.{IsValid}
use europa_neo.Engine.Registry.{
  count, index_of_id, create_player_registry, Created, created, refused,
}
use europa_neo.Engine.Registry.Creation.{IsRegistry, IsCreated, create_player_registry-IsCreated}
use europa_neo.Engine.ApplyCommand.{Store}
use europa_neo.Engine.ApplyCommand.Queues.{IsStore, make_ref-IsStore}
use europa_neo.Engine.ApplyCommand.Laws.{IsWorld}
use europa_neo.Engine.Create.{
  check_board, check_cells, check_city, check_cities, slot_id, place_cities, registry_of, require,
  create_world,
}

require-true : (b : Bool) (u : Unit {0}) → require b ≡ some u → b ≡ true
require-true true u e = refl
require-true false u e = cc

registry_of-IsRegistry :
    (ids : List PlayerId) (made : Created) (r : PlayerRegistry)
    → IsCreated ids made
    → registry_of made ≡ some r
    → IsRegistry ids r
registry_of-IsRegistry ids (created q) r h e =
    subst (IsRegistry ids) (let same : q ≡ r = cc in same) h
registry_of-IsRegistry ids (refused x) r h e = absurd (cc)

-- The owners of cities, before and after some cities are placed.
abbrev AreOwners : ℕ → ℕ → List ℕ → Type 0
AreOwners n k owners = (length owners ≡ n) × All (λ o. o ≤ k) owners

-- The slots of the cities that passed the checks.
abbrev AreSlots : ℕ → List (ℕ × ℕ) → Type 0
AreSlots slots placed = All (λ (p : ℕ × ℕ). (1 ≤ p.1) × (p.1 ≤ slots)) placed

check_cities-AreSlots :
    (slots : ℕ) (board : Board) (seen : List ℕ) (cities : List CityPlacement)
    → Whenever (AreSlots slots) (check_cities slots board seen cities)
unfolding check_cities
check_cities-AreSlots slots board seen [] = Whenever-some (AreSlots slots) [] tt
check_cities-AreSlots slots board seen (c ∷ cs) =
    Whenever-bind (AreSlots slots) (in_bounds board.width board.height c.cell) (λ p _.
      Whenever-if (AreSlots slots) (check_city slots board seen c p)
        (λ passed.
          Whenever-bind (AreSlots slots) (check_cities slots board (index board.width p ∷ seen) cs)
            (λ placed e. Whenever-some (AreSlots slots) _ (
              (ground arith, ground arith),
              check_cities-AreSlots slots board (index board.width p ∷ seen) cs placed e,
            )))
        (λ failed out e. absurd (cc)))

slot_id-Returns :
    (ids : List PlayerId) (slot : ℕ)
    → 1 ≤ slot
    → slot ≤ length ids
    → (id : PlayerId) × (slot_id ids slot ≡ some id)
slot_id-Returns ids zero lo hi = absurd (omega arith)
slot_id-Returns ids (suc i) lo hi = get_elem?-lt ids i (omega arith)

slot_id-All :
    (P : PlayerId → Type 0) (ids : List PlayerId) (slot : ℕ) (id : PlayerId)
    → All P ids
    → slot_id ids slot ≡ some id
    → P id
slot_id-All P ids zero id h e = absurd (cc)
slot_id-All P ids (suc i) id h e = All-get_elem? P ids i h e

-- The writes of `cityOwners` do not throw, and write registered players.
place_cities-AreOwners :
    (ids : List PlayerId) (r : PlayerRegistry) (v : IsRegistry ids r) (n : ℕ)
    (placed : List (ℕ × ℕ)) (owners : List ℕ)
    → AreSlots (length ids) placed
    → AreOwners n (count r) owners
    → Returns (AreOwners n (count r)) (place_cities r ids placed owners)
unfolding place_cities
place_cities-AreOwners ids r v n [] owners s h = (owners, refl, h)
place_cities-AreOwners ids r v n ((idx, slot) ∷ placed) owners s h =
    let id = slot_id-Returns ids slot s.0.0 s.0.1 in
    let found =
      slot_id-All (λ id. Returns (λ i. i < count r) (index_of_id r id)) ids slot id.0 v.registered
        id.1 in
    Returns-bind (λ (id : PlayerId). Returns (λ i. i < count r) (index_of_id r id))
      (AreOwners n (count r)) (id.0, id.1, found)
      (λ id' _ f.
        Returns-bind (λ i. i < count r) (AreOwners n (count r)) f
          (λ dense _ lt.
            place_cities-AreOwners ids r v n placed (write8 owners idx (dense + 1)) s.1 (
              length-set owners idx (u8 (dense + 1)) ∙ h.0,
              All-set (λ o. o ≤ count r) owners idx (u8 (dense + 1)) h.1 (omega arith),
            )))

Occupied-zeros : (n : ℕ) → Occupied (replicate n 0) (replicate n 0)
Occupied-zeros zero = tt
Occupied-zeros (suc n) = (λ h. h, Occupied-zeros n)

-- The state of an empty board with the cities of `k` players.
empty-IsValid :
    (n k cap : ℕ) (city_owners : List ℕ)
    → AreOwners n k city_owners
    → IsValid n k cap (record {
      troop_counts = replicate n 0;
      troop_owners = replicate n 0;
      pipe_masks = replicate n 0;
      reserves_pct = replicate n 0;
      city_owners = city_owners;
    })
empty-IsValid n k cap city_owners h = record {
  troops = record {
    counts_size = length-replicate {A = ℕ} n 0;
    owners_size = length-replicate {A = ℕ} n 0;
    capped = All-replicate (λ c. c ≤ cap) n 0 (omega arith);
    known = All-replicate (λ o. o ≤ k) n 0 (omega arith);
    occupied = Occupied-zeros n;
  };
  masks_size = length-replicate {A = ℕ} n 0;
  reserves_size = length-replicate {A = ℕ} n 0;
  cities_size = h.0;
  cities_known = h.1;
  reserves_bounded = All-replicate (λ p. p < 10) n 0 (omega arith);
}

abbrev pub IsNew : Store × World → Type 0
IsNew out = IsWorld out.0 out.1

check_board-square :
    (config : MatchConfig) (board : Board)
    → check_board config board ≡ true
    → board.height ≡ board.width
unfolding check_board
check_board-square config board h = ground arith

-- If the board passes its checks, the ids make a registry, and the cells and the cities pass theirs,
-- then `createWorld` returns, whatever the other input, and the new world is well-formed.
pub create_world-Returns :
    (st : Store) (config : MatchConfig) (board : Board) (r : PlayerRegistry) (placed : List (ℕ × ℕ))
    → IsStore st
    → check_board config board ≡ true
    → create_player_registry config.player_ids ≡ created r
    → check_cells board board.cells ≡ true
    → check_cities (length config.player_ids) board [] board.cities ≡ some placed
    → Returns IsNew (create_world st config board)
unfolding create_world
create_world-Returns st config board r placed v hb hr hc hp =
    let n = board.width * board.height in
    let reg =
      subst (IsCreated config.player_ids) hr (create_player_registry-IsCreated config.player_ids) in
    let square = check_board-square config board hb in
    let owners =
      place_cities-AreOwners config.player_ids r reg n placed (replicate n 0)
        (check_cities-AreSlots (length config.player_ids) board [] board.cities placed hp)
        (length-replicate {A = ℕ} n 0, All-replicate (λ o. o ≤ count r) n 0 (omega arith)) in
    rw (create_world, hb, hr, hc, hp)
      (Returns-bind (AreOwners n (count r)) IsNew owners (λ city_owners _ h. (
        _,
        refl,
        record {
          square = square;
          few = reg.few.1;
          state = empty-IsValid n (count r) engine_constants.cell_capacity city_owners h;
          store = make_ref-IsStore st v;
          made = omega arith;
        },
      )))
