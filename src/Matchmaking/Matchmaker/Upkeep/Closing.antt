-- ===== src/Matchmaking/Matchmaker/Upkeep/Closing.antt =====
-- What close leaves.
use europa_neo.Prelude.{◌≡◌, refl, sym, ◌∙◌, ap, ap₂, subst, List, [], ◌∷◌, ◌++◌}
use mathlib.Core.List.{append_assoc, append-nil}
use europa_neo.Core.PlayerId.{eq_id}
use europa_neo.Engine.Registry.Checks.{eq_id_refl}
use europa_neo.Matchmaking.OrderedMap.{OrderedMap, values, delete}
use europa_neo.Matchmaking.Types.{Text, MatchRecord, PlayerSession}
use europa_neo.Matchmaking.Store.{MatchmakerStore, create_store, list_matches}
use europa_neo.Matchmaking.Forfeit.{ServerCall, unregister_match}
use europa_neo.Matchmaking.Matchmaker.{Matchmaker}
use europa_neo.Matchmaking.Matchmaker.Sweeps.{AreMatches}
use europa_neo.Matchmaking.Matchmaker.Upkeep.{close_matches, close_sessions, close}

-- The unregistrations of the matches, in their order.
abbrev pub unregistered : List MatchRecord → List ServerCall
unregistered [] = []
unregistered (m ∷ ms) = unregister_match m.match_id ∷ unregistered ms

-- Each session stands at its id.
abbrev pub AreSessions : OrderedMap Text PlayerSession → Type 0
AreSessions [] = Unit
AreSessions (e ∷ m) = (e.0 ≡ e.1.player_session_id) × AreSessions m

delete_first {ℓ} :
    {V : Type ℓ} (e : Text × V) (m : OrderedMap Text V) (k : Text)
    → e.0 ≡ k
    → delete eq_id (e ∷ m) k ≡ m
unfolding delete
delete_first e m k same = rw (same, eq_id_refl k) refl

delete_all-matches :
    (all : OrderedMap Text MatchRecord) (mm : Matchmaker)
    → AreMatches all
    → mm.store.matches ≡ all
    → ((close_matches (values all) mm).store.matches ≡ [])
      × ((close_matches (values all) mm).store.sessions ≡ mm.store.sessions)
      × ((close_matches (values all) mm).calls ≡ mm.calls ++ unregistered (values all))
unfolding close_matches
delete_all-matches [] mm h here = (here, refl, sym (append-nil mm.calls))
delete_all-matches (e ∷ all) mm h here =
    let (a, b, c) =
      delete_all-matches all
        (record mm {
          store = record mm.store { matches = delete eq_id mm.store.matches e.1.match_id };
          calls = mm.calls ++ unregister_match e.1.match_id ∷ [];
        })
        h.2
        (ap (λ (ms : OrderedMap Text MatchRecord). delete eq_id ms e.1.match_id) here
          ∙ delete_first e all e.1.match_id h.0) in
    (a, b, c ∙ append_assoc mm.calls _ _)

delete_all-sessions :
    (all : OrderedMap Text PlayerSession) (st : MatchmakerStore)
    → AreSessions all
    → st.sessions ≡ all
    → ((close_sessions (values all) st).matches ≡ st.matches)
      × ((close_sessions (values all) st).sessions ≡ [])
unfolding close_sessions
delete_all-sessions [] st h here = (refl, here)
delete_all-sessions (e ∷ all) st h here =
    delete_all-sessions all
      (record st { sessions = delete eq_id st.sessions e.1.player_session_id }) h.1
      (ap (λ (ss : OrderedMap Text PlayerSession). delete eq_id ss e.1.player_session_id) here
        ∙ delete_first e all e.1.player_session_id h.0)

-- Close leaves the empty store, and unregisters each match once, in their order.
pub close-unregistered :
    (mm : Matchmaker)
    → AreMatches mm.store.matches
    → AreSessions mm.store.sessions
    → ((close mm).store ≡ create_store)
      × ((close mm).calls ≡ mm.calls ++ unregistered (list_matches mm.store))
unfolding close
close-unregistered mm h k =
    let (no_match, same_sessions, told) = delete_all-matches mm.store.matches mm h refl in
    let closed = (close_matches (list_matches mm.store) mm).store in
    let (same_matches, no_session) =
      delete_all-sessions closed.sessions closed (subst AreSessions (sym same_sessions) k) refl in
    (
      ap₂
          (λ (ms : OrderedMap Text MatchRecord) (ss : OrderedMap Text PlayerSession).
            let st : MatchmakerStore = record { matches = ms; sessions = ss } in st)
          (same_matches ∙ no_match) no_session,
      told,
    )
