-- ===== src/Matchmaking/Lobby/Laws.antt =====
-- Which matches are listed.
use europa_neo.Prelude.{
  ℕ, ◌<◌, ◌≡◌, refl, sym, arith, ◌↔◌, ◌⊎◌, inl, inr, Bool, false, not, ◌||◌, if◌then◌else◌,
  Option-cases, Option, none, some, List, [], ◌∷◌, Memᴰ, Whenever, Whenever-if, ap, ◌∙◌,
}
use mathlib.Core.List.Memᴰ
use europa_neo.Matchmaking.OrderedMap.{get, size}
use europa_neo.Matchmaking.Types.{public, filling, MatchRecord, SeatRecord}
use europa_neo.Matchmaking.Lifecycle.{eq_index}
use europa_neo.Matchmaking.Lobby.{
  LobbyEntry, is_public, is_filling, is_full, entry_of, hosted, add_entry, project_lobby_entry,
  list_public_matches,
}

-- A public match that fills, with a free seat or made with its seats filled, and its host.
pub record IsListed (m : MatchRecord) (now_ms : ℕ) (e : LobbyEntry) : Type 0 where
  pub host : SeatRecord
  pub hosted_by : get eq_index m.seats 0 ≡ some host
  pub open_ : m.visibility ≡ public
  pub fills : m.status ≡ filling
  pub joinable :
      (size m.seats < m.settings.player_count) ⊎ ((seed : ℕ) × (m.initial_seed ≡ some seed))
  pub shown : e ≡ entry_of m now_ms host

room :
    (m : MatchRecord)
    → is_full m ≡ false
    → (size m.seats < m.settings.player_count) ⊎ ((seed : ℕ) × (m.initial_seed ≡ some seed))
room m e = elim (Option-cases m.initial_seed) [
  | inl missing ↦ inl (ground arith)
  | inr found ↦ inr found
]

hosted-some :
    (m : MatchRecord) (now_ms : ℕ) (o : Option SeatRecord) (e : LobbyEntry)
    → hosted m now_ms o ≡ some e
    → (host : SeatRecord) × (o ≡ some host) × (e ≡ entry_of m now_ms host)
hosted-some m now_ms none e x = absurd (cc)
hosted-some m now_ms (some host) e x = (host, refl, cc)

if_no {ℓ} : {A : Type ℓ} (b : Bool) (x y : A) → b ≡ false → (if b then x else y) ≡ y
if_no b x y e = rw e refl

project_lobby_entry-IsListed :
    (m : MatchRecord) (now_ms : ℕ) → Whenever (IsListed m now_ms) (project_lobby_entry m now_ms)
unfolding project_lobby_entry
project_lobby_entry-IsListed m now_ms =
    Whenever-if (IsListed m now_ms) (not (is_public m.visibility) || not (is_filling m.status))
      (λ _ e x. absurd (cc))
      (λ ok.
        Whenever-if (IsListed m now_ms) (is_full m) (λ _ e x. absurd (cc))
          (λ free e x.
            let (host, found, shown) = hosted-some m now_ms (get eq_index m.seats 0) e x in
            record {
              host = host;
              hosted_by = found;
              open_ = ground arith;
              fills = ground arith;
              joinable = room m free;
              shown = shown;
            }))

not_full :
    (m : MatchRecord)
    → (size m.seats < m.settings.player_count) ⊎ ((seed : ℕ) × (m.initial_seed ≡ some seed))
    → is_full m ≡ false
not_full m (inl free) = ground arith
not_full m (inr (seed, e)) = ground arith

project_lobby_entry_complete :
    (m : MatchRecord) (now_ms : ℕ) (e : LobbyEntry)
    → IsListed m now_ms e
    → project_lobby_entry m now_ms ≡ some e
unfolding project_lobby_entry
project_lobby_entry_complete m now_ms e h =
    if_no (not (is_public m.visibility) || not (is_filling m.status)) _ _
      (ground (arith, h.open_, h.fills))
    ∙ if_no (is_full m) _ _ (not_full m h.joinable)
    ∙ ap (hosted m now_ms) h.hosted_by
    ∙ ap some (sym h.shown)

IsListed-sound :
    (ms : List MatchRecord) (now_ms : ℕ) (e : LobbyEntry)
    → Memᴰ e (list_public_matches ms now_ms)
    → (m : MatchRecord) × Memᴰ m ms × IsListed m now_ms e
unfolding list_public_matches
IsListed-sound [] now_ms e = λ i. elim i [ ]
IsListed-sound (m ∷ ms) now_ms e = elim (Option-cases (project_lobby_entry m now_ms)) [
  | inl hidden ↦ rw hidden (λ i. later (IsListed-sound ms now_ms e i))
  | inr (entry, found) ↦ rw found (λ i. elim (Memᴰ.cases_cons i) [
    | inl first ↦
        (m, Memᴰ.head refl, project_lobby_entry-IsListed m now_ms e (found ∙ ap some (sym first)))
    | inr rest ↦ later (IsListed-sound ms now_ms e rest)
  ])
]
  where
    later :
        ((n : MatchRecord) × Memᴰ n ms × IsListed n now_ms e)
        → (n : MatchRecord) × Memᴰ n (m ∷ ms) × IsListed n now_ms e
    later (n, i, h) = (n, Memᴰ.tail i, h)

add_entry-Mem :
    (o : Option LobbyEntry) (es : List LobbyEntry) (e : LobbyEntry)
    → Memᴰ e es
    → Memᴰ e (add_entry o es)
add_entry-Mem none es e i = i
add_entry-Mem (some x) es e i = Memᴰ.tail i

listed_complete :
    (ms : List MatchRecord) (now_ms : ℕ) (e : LobbyEntry) (m : MatchRecord)
    → Memᴰ m ms
    → project_lobby_entry m now_ms ≡ some e
    → Memᴰ e (list_public_matches ms now_ms)
unfolding list_public_matches
listed_complete [] now_ms e m i h = elim i [ ]
listed_complete (n ∷ ms) now_ms e m (Memᴰ.head same) h =
    rw (ap (λ (k : MatchRecord). project_lobby_entry k now_ms) (sym same) ∙ h) (Memᴰ.head refl)
listed_complete (n ∷ ms) now_ms e m (Memᴰ.tail i) h =
    add_entry-Mem (project_lobby_entry n now_ms) _ e (listed_complete ms now_ms e m i h)

-- The lobby lists exactly the public matches that fill, have a host, and have a free seat or were made
-- with their seats filled, each with its data; a private match is never listed.
pub list_public_matches-IsListed :
    (ms : List MatchRecord) (now_ms : ℕ) (e : LobbyEntry)
    → Memᴰ e (list_public_matches ms now_ms) ↔ ((m : MatchRecord) × Memᴰ m ms × IsListed m now_ms e)
list_public_matches-IsListed ms now_ms e = (
  IsListed-sound ms now_ms e,
  λ (m, i, h). listed_complete ms now_ms e m i (project_lobby_entry_complete m now_ms e h),
)
