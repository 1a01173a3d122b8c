-- ===== src/Matchmaking/Store/Laws.antt =====
-- The store as two tables.
use europa_neo.Prelude.{◌≡◌, refl, ap, fun_ext, Option, none, some, if◌then◌else◌, ==→≡, ≡→==}
use europa_neo.Core.PlayerId.{eq_id}
use europa_neo.Engine.Registry.Checks.{eq_id_refl, eq_id_sound}
use europa_neo.Matchmaking.OrderedMap.{IsEquality, get}
use europa_neo.Matchmaking.OrderedMap.Laws.{IsMap, get-put, get-delete, put-IsMap, delete-IsMap}
use europa_neo.Matchmaking.Types.{Text, MatchRecord, PlayerSession}
use europa_neo.Matchmaking.Store.{
  MatchmakerStore, create_store, get_match, put_match, delete_match, get_session, put_session,
  delete_session,
}
use europa_neo.Matchmaking.Lifecycle.{eq_index}

pub eq_id-IsEquality : IsEquality eq_id
eq_id-IsEquality = record { sound = eq_id_sound; reflexive = eq_id_refl }

pub eq_index-IsEquality : IsEquality eq_index
eq_index-IsEquality = record { sound = ==→≡; reflexive = λ a. ≡→== a a refl }

-- No id stands twice in either table.
abbrev pub IsStore : MatchmakerStore → Type 0
IsStore st = IsMap st.matches × IsMap st.sessions

pub get-put_match_self :
    (st : MatchmakerStore) (m : MatchRecord) → get_match (put_match st m) m.match_id ≡ some m
get-put_match_self st m =
    rw (get-put eq_id-IsEquality st.matches m.match_id m m.match_id, eq_id_refl m.match_id) refl

-- The abstract view of a store: a match or nothing for each id, a session or nothing for each id.
pub record Tables : Type 0 where
  pub match_of : Text → Option MatchRecord
  pub session_of : Text → Option PlayerSession

abbrev pub tables : MatchmakerStore → Tables
tables st = record { match_of = get_match st; session_of = get_session st }

abbrev pub updated {ℓ} : {A : Type ℓ} → (Text → Option A) → Text → Option A → Text → Option A
updated f id a key = if eq_id id key then a else f key

-- The store implements two tables: the empty store has nothing, a put and a delete update one entry of
-- one table and leave the other table, and all of them keep every id at one entry.
pub IsStore-IsTables :
    (st : MatchmakerStore) (m : MatchRecord) (s : PlayerSession) (id : Text)
    → IsStore st
    → (tables create_store ≡ record { match_of = λ _. none; session_of = λ _. none })
      × (tables (put_match st m)
          ≡ record (tables st) { match_of = updated (get_match st) m.match_id (some m) })
      × (tables (delete_match st id)
          ≡ record (tables st) { match_of = updated (get_match st) id none })
      × (tables (put_session st s) ≡ record (tables st) {
        session_of = updated (get_session st) s.player_session_id (some s);
      })
      × (tables (delete_session st id)
          ≡ record (tables st) { session_of = updated (get_session st) id none })
      × IsStore (put_match st m)
      × IsStore (delete_match st id)
      × IsStore (put_session st s)
      × IsStore (delete_session st id)
unfolding get
IsStore-IsTables st m s id h = (
  refl,
  matches (fun_ext (get-put eq_id-IsEquality st.matches m.match_id m)),
  matches (fun_ext (λ key. get-delete eq_id-IsEquality st.matches id key h.0)),
  sessions (fun_ext (get-put eq_id-IsEquality st.sessions s.player_session_id s)),
  sessions (fun_ext (λ key. get-delete eq_id-IsEquality st.sessions id key h.1)),
  (put-IsMap eq_id-IsEquality st.matches m.match_id m h.0, h.1),
  (delete-IsMap eq_id-IsEquality st.matches id h.0, h.1),
  (h.0, put-IsMap eq_id-IsEquality st.sessions s.player_session_id s h.1),
  (h.0, delete-IsMap eq_id-IsEquality st.sessions id h.1),
)
  where
    matches :
        {f g : Text → Option MatchRecord}
        → f ≡ g
        → record (tables st) { match_of = f } ≡ record (tables st) { match_of = g }
    matches e = ap (λ f. record (tables st) { match_of = f }) e

    sessions :
        {f g : Text → Option PlayerSession}
        → f ≡ g
        → record (tables st) { session_of = f } ≡ record (tables st) { session_of = g }
    sessions e = ap (λ f. record (tables st) { session_of = f }) e
