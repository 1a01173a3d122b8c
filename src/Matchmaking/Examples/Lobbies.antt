-- ===== src/Matchmaking/Examples/Lobbies.antt =====
-- Matches that fill.
use europa_neo.Prelude.{◌≡◌, ◌≤◌, ◌↔◌, refl, arith, none, some, [], ◌∷◌, Memᴰ, length}
use europa_neo.Engine.Examples.{ann}
use europa_neo.Matchmaking.OrderedMap.{get, put}
use europa_neo.Matchmaking.Types.{
  Text, public, filling, running, collected, MatchRecord, MatchStatusChanged, create_match_record,
  create_seat_record,
}
use europa_neo.Matchmaking.Store.{
  create_store, get_match, put_match, delete_match, get_session, put_session, delete_session,
}
use europa_neo.Matchmaking.Store.Laws.{IsStore, tables, updated, IsStore-IsTables}
use europa_neo.Matchmaking.Lifecycle.{
  create_match_record_with_creator, add_seat_to_filling_match, transition_filling_to_running,
  transition_to_collected, changed, propagate_handle_rename,
}
use europa_neo.Matchmaking.Lifecycle.Invariant.{IsRecord}
use europa_neo.Matchmaking.Lifecycle.History.{
  Life, created, joined, moved, starts, collects, IsChain, Life-IsOrdered,
}
use europa_neo.Matchmaking.Lifecycle.Rename.{renamed, propagate_handle_rename-renamed}
use europa_neo.Matchmaking.Lobby.{LobbyEntry, list_public_matches, entry_of}
use europa_neo.Matchmaking.Lobby.Laws.{IsListed, list_public_matches-IsListed}
use europa_neo.Matchmaking.Matchmaker.Starts.{Server, auto_start, start_session, ordered_seats}
use europa_neo.Matchmaking.Matchmaker.Seats.{join_match, free_seat, internal_error}
use europa_neo.Matchmaking.Matchmaker.Rollback.{untouched, join_match-untouched}
use europa_neo.Matchmaking.EngineSession.{build_match_config}
use europa_neo.Matchmaking.Examples.{
  first_match, ann_token, bob_token, duel_settings, ann_session, bob_session, ann_seat, open_match,
  two_session, store_of, maker_of,
}

IsStore-IsTables_example :
    let st = store_of open_match in
    (tables create_store ≡ record { match_of = λ _. none; session_of = λ _. none })
    × (tables (put_match st open_match)
        ≡ record (tables st) { match_of = updated (get_match st) first_match (some open_match) })
    × (tables (delete_match st first_match)
        ≡ record (tables st) { match_of = updated (get_match st) first_match none })
    × (tables (put_session st bob_session) ≡ record (tables st) {
      session_of = updated (get_session st) (b'b' ∷ []) (some bob_session);
    })
    × (tables (delete_session st first_match)
        ≡ record (tables st) { session_of = updated (get_session st) first_match none })
    × IsStore (put_match st open_match)
    × IsStore (delete_match st first_match)
    × IsStore (put_session st bob_session)
    × IsStore (delete_session st first_match)
IsStore-IsTables_example =
    IsStore-IsTables (store_of open_match) open_match bob_session first_match
      ((λ i. elim i [ ], tt), (λ i. elim i [ ], tt))

-- The match is created, Bob joins, it starts, and it is collected.
abbrev made_match : MatchRecord
made_match =
    (create_match_record_with_creator duel_settings public ann_session 1 first_match
      ann_token).match

abbrev full_match : MatchRecord
full_match = (add_seat_to_filling_match made_match bob_session 1 2 bob_token).match

abbrev begun : MatchRecord × MatchStatusChanged
begun = (
  record full_match {
    engine_session = some two_session;
    started_at_ms = some 3;
    status = running;
    last_activity_at_ms = 3;
  },
  changed full_match running 3,
)

abbrev ended : MatchRecord × MatchStatusChanged
ended =
    (record begun.0 { status = collected; last_activity_at_ms = 9 }, changed begun.0 collected 9)

whole-Life : Life made_match (ended.1 ∷ begun.1 ∷ []) ended.0
unfolding transition_filling_to_running transition_to_collected create_match_record_with_creator
    create_match_record add_seat_to_filling_match
whole-Life =
    moved _ begun.0 _ ended
      (moved _ full_match _ begun
        (joined _ made_match _ bob_session 1 2 bob_token (created made_match) refl)
        (starts full_match two_session 3 begun refl))
      (collects begun.0 9 none ended refl)

Life-IsOrdered_example :
    IsRecord ended.0
    × IsChain filling (ended.1 ∷ begun.1 ∷ []) ended.0.status
    × (length (ended.1 ∷ begun.1 ∷ []) ≤ 3)
Life-IsOrdered_example =
    Life-IsOrdered duel_settings public ann_session 1 first_match ann_token ended.0
      (ended.1 ∷ begun.1 ∷ []) whole-Life

abbrev new_handle : Text
new_handle = b'Z' ∷ []

propagate_handle_rename-renamed_example :
    ((propagate_handle_rename ann new_handle (store_of open_match)).0
      ≡ renamed ann new_handle (store_of open_match))
    × ((propagate_handle_rename ann new_handle (renamed ann new_handle (store_of open_match))).1
        ≡ (0, 0))
propagate_handle_rename-renamed_example =
    propagate_handle_rename-renamed ann new_handle (store_of open_match)

abbrev open_entry : LobbyEntry
open_entry = entry_of open_match 5 ann_seat

list_public_matches-IsListed_example :
    Memᴰ open_entry (list_public_matches (open_match ∷ []) 5)
    ↔ ((m : MatchRecord) × Memᴰ m (open_match ∷ []) × IsListed m 5 open_entry)
list_public_matches-IsListed_example = list_public_matches-IsListed (open_match ∷ []) 5 open_entry

-- A server that takes every call.
abbrev pub willing_server : Server
willing_server = record {
  register_match = λ _ _ _ _. some tt;
  attach_player = λ _ _ _. some tt;
  enable_spectators = λ _. some tt;
}

-- The board generator fails.
join_match-untouched_example :
    join_match
      (λ _ _. none)
      willing_server
      (λ _. some tt)
      (maker_of open_match)
      first_match
      bob_session
      bob_token
      7
      5
      6
    ≡ (
      record (maker_of open_match) {
        store = put_match (store_of open_match) (
            untouched
              (λ _ _. none)
              willing_server
              (λ _. some tt)
              (maker_of open_match)
              open_match
              bob_session
              bob_token
              7
              5
              6);
      },
      internal_error,
    )
unfolding free_seat get put add_seat_to_filling_match auto_start start_session ordered_seats
    build_match_config create_seat_record
join_match-untouched_example =
    join_match-untouched (λ _ _. none) willing_server (λ _. some tt) (maker_of open_match)
      open_match bob_session bob_token 7 5 6 1 refl refl refl refl (omega arith) refl
