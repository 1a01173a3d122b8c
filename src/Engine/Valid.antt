-- ===== src/Engine/Valid.antt =====
-- The well-formedness of a world state: array sizes, capacity, known owners, an owner wherever troops
-- stand, reserves below 100%.
use europa_neo.Prelude.{
  ℕ, ◌^◌, ◌≤◌, ◌<◌, ◌≡◌, ◌∙◌, arith, List, length, length-set, All, All-set, All-at, at, u32, u8,
  write32, write8, Occupied, Occupied-at, Occupied-set, Occupied-set_le, Occupied-set_owned,
}
use europa_neo.Engine.Types.{WorldState}

-- Of `n` cells, `k` players and capacity `cap`.
pub record AreTroops (n k cap : ℕ) (counts owners : List ℕ) : Type 0 where
  pub counts_size : length counts ≡ n
  pub owners_size : length owners ≡ n
  pub capped : All (λ c. c ≤ cap) counts
  pub known : All (λ o. o ≤ k) owners
  pub occupied : Occupied counts owners

pub record IsValid (n k cap : ℕ) (s : WorldState) : Type 0 where
  pub troops : AreTroops n k cap s.troop_counts s.troop_owners
  pub masks_size : length s.pipe_masks ≡ n
  pub reserves_size : length s.reserves_pct ≡ n
  pub cities_size : length s.city_owners ≡ n
  pub cities_known : All (λ o. o ≤ k) s.city_owners
  pub reserves_bounded : All (λ p. p < 10) s.reserves_pct

-- Bounds under which no write to a typed array truncates.
pub record Fits (k cap : ℕ) : Type 0 where
  pub few : k ≤ 4
  pub small : cap < 2 ^ 31

module _ {n k cap : ℕ} (fits : Fits k cap) {counts owners : List ℕ}
    (v : AreTroops n k cap counts owners) where
  pub capped-at : (i : ℕ) → at counts i ≤ cap
  capped-at i = All-at (λ c. c ≤ cap) counts i v.capped (omega arith)

  pub known-at : (i : ℕ) → at owners i ≤ k
  known-at i = All-at (λ o. o ≤ k) owners i v.known (omega arith)

  pub occupied-at : (i : ℕ) → 0 < at counts i → 0 < at owners i
  occupied-at i h =
      Occupied-at counts owners i (omega (arith, v.counts_size, v.owners_size)) v.occupied h

  -- A cell may be given troops within the capacity and a known owner.
  pub AreTroops-write :
      (i c o : ℕ)
      → c ≤ cap
      → o ≤ k
      → (0 < c → 0 < o)
      → AreTroops n k cap (write32 counts i c) (write8 owners i o)
  AreTroops-write i c o hc ho hp = record {
    counts_size = length-set counts i (u32 c) ∙ v.counts_size;
    owners_size = length-set owners i (u8 o) ∙ v.owners_size;
    capped = All-set (λ c. c ≤ cap) counts i (u32 c) v.capped (omega arith);
    known = All-set (λ o. o ≤ k) owners i (u8 o) v.known (omega arith);
    occupied = Occupied-set counts owners i (u32 c) (u8 o) v.occupied (λ h. omega arith);
  }

  -- A count may fall under the same owner.
  pub AreTroops-lower : (i c : ℕ) → c ≤ at counts i → AreTroops n k cap (write32 counts i c) owners
  AreTroops-lower i c h =
      let bound = capped-at i in
      record {
        counts_size = length-set counts i (u32 c) ∙ v.counts_size;
        owners_size = v.owners_size;
        capped = All-set (λ c. c ≤ cap) counts i (u32 c) v.capped (omega arith);
        known = v.known;
        occupied = Occupied-set_le counts owners i (u32 c) v.occupied (omega arith);
      }

  -- A count within the capacity may stand under an owner.
  pub AreTroops-count :
      (i c : ℕ) → c ≤ cap → 0 < at owners i → AreTroops n k cap (write32 counts i c) owners
  AreTroops-count i c h held = record {
    counts_size = length-set counts i (u32 c) ∙ v.counts_size;
    owners_size = v.owners_size;
    capped = All-set (λ c. c ≤ cap) counts i (u32 c) v.capped (omega arith);
    known = v.known;
    occupied = Occupied-set_owned counts owners i (u32 c) v.occupied held;
  }
