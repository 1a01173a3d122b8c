-- ===== src/Matchmaking/Lifecycle/Invariant.antt =====
-- The fields of a match record in each state, and its transitions.
use europa_neo.Prelude.{
  ℕ, ◌<◌, ◌≡◌, refl, arith, Option, none, some, Whenever, Whenever-some, Whenever-if, Returns,
  subst, true, false, not,
}
use europa_neo.Engine.Run.{Match}
use europa_neo.Matchmaking.Types.{
  Text, Visibility, MatchStatus, filling, running, finished, collected, MatchSettings,
  MatchResultsRecord, PlayerSession, MatchRecord, MatchStatusChanged, create_match_record,
}
use europa_neo.Matchmaking.Lifecycle.{
  eq_status, create_match_record_with_creator, transition_filling_to_running,
  transition_running_to_finished, transition_to_collected,
}

-- How far a match has come.
abbrev pub progress : MatchStatus → ℕ
progress filling = 0
progress running = 1
progress finished = 2
progress collected = 3

abbrev pub IsSome {ℓ} : {A : Type ℓ} → Option A → Type ℓ
IsSome {A} o = (a : A) × (o ≡ some a)

-- What the state of a match says of its fields.
abbrev pub HasFields : MatchStatus → MatchRecord → Type 0
HasFields filling m =
    (m.started_at_ms ≡ none)
    × (m.engine_session ≡ none)
    × (m.finished_at_ms ≡ none)
    × (m.results ≡ none)
    × (m.rematch ≡ none)
HasFields running m =
    IsSome m.started_at_ms
    × IsSome m.engine_session
    × (m.finished_at_ms ≡ none)
    × (m.results ≡ none)
    × (m.rematch ≡ none)
HasFields finished m =
    IsSome m.started_at_ms × IsSome m.engine_session × IsSome m.finished_at_ms × IsSome m.results
HasFields collected m = Unit

abbrev pub IsRecord : MatchRecord → Type 0
IsRecord m = HasFields m.status m

-- What a transition does: the progress rises, the event tells both states, the fields are right.
pub record IsMove (m : MatchRecord) (to : MatchStatus) (out : MatchRecord × MatchStatusChanged)
    : Type 0 where
  pub reached : out.0.status ≡ to
  pub rises : progress m.status < progress to
  pub told_from : out.1.from ≡ some m.status
  pub told_to : out.1.to ≡ to
  pub same_match : out.1.match_id ≡ m.match_id
  pub fields : IsRecord m → IsRecord out.0

pub eq_status_sound : (a b : MatchStatus) → eq_status a b ≡ true → a ≡ b
eq_status_sound a b e = ground arith

-- The stages before the last one.
uncollected-lt : (s : MatchStatus) → eq_status s collected ≡ false → progress s < 3
uncollected-lt s e = ground arith

pub starts-IsMove :
    (m : MatchRecord) (session : Match) (at_ms : ℕ)
    → Whenever (IsMove m running) (transition_filling_to_running m session at_ms)
unfolding transition_filling_to_running
starts-IsMove m session at_ms =
    Whenever-if (IsMove m running) (not (eq_status m.status filling)) (λ _ out e. absurd (cc))
      (λ ok.
        let before = eq_status_sound m.status filling (ground arith) in
        Whenever-some (IsMove m running) _ (record {
          reached = refl;
          rises = rw before (omega arith);
          told_from = refl;
          told_to = refl;
          same_match = refl;
          fields = λ h.
              let f = subst (λ (s : MatchStatus). HasFields s m) before h in
              ((at_ms, refl), (session, refl), f.2, f.3, f.4);
        }))

pub finishes-IsMove :
    (m : MatchRecord) (results : MatchResultsRecord) (at_ms : ℕ)
    → Whenever (IsMove m finished) (transition_running_to_finished m results at_ms)
unfolding transition_running_to_finished
finishes-IsMove m results at_ms =
    Whenever-if (IsMove m finished) (not (eq_status m.status running)) (λ _ out e. absurd (cc))
      (λ ok.
        let before = eq_status_sound m.status running (ground arith) in
        Whenever-some (IsMove m finished) _ (record {
          reached = refl;
          rises = rw before (omega arith);
          told_from = refl;
          told_to = refl;
          same_match = refl;
          fields = λ h.
              let f = subst (λ (s : MatchStatus). HasFields s m) before h in
              (f.0, f.1, (at_ms, refl), (results, refl));
        }))

pub collects-IsMove :
    (m : MatchRecord) (at_ms : ℕ) (results : Option MatchResultsRecord)
    → Whenever (IsMove m collected) (transition_to_collected m at_ms results)
unfolding transition_to_collected
collects-IsMove m at_ms results =
    Whenever-if (IsMove m collected) (eq_status m.status collected) (λ _ out e. absurd (cc))
      (λ ok. Whenever-some (IsMove m collected) _ (record {
        reached = refl;
        rises = uncollected-lt m.status ok;
        told_from = refl;
        told_to = refl;
        same_match = refl;
        fields = λ _. tt;
      }))

open_stage : (s : MatchStatus) → progress s < 3 → eq_status s collected ≡ false
open_stage s h = ground arith

collect_returns :
    (m : MatchRecord) (at_ms : ℕ) (results : Option MatchResultsRecord)
    → eq_status m.status collected ≡ false
    → (out : MatchRecord × MatchStatusChanged) × (transition_to_collected m at_ms results
        ≡ some out)
unfolding transition_to_collected
collect_returns m at_ms results e = rw e (_, refl)

-- A match that is not collected can be.
pub transition_to_collected-Returns :
    (m : MatchRecord) (at_ms : ℕ) (results : Option MatchResultsRecord)
    → progress m.status < 3
    → Returns (IsMove m collected) (transition_to_collected m at_ms results)
transition_to_collected-Returns m at_ms results early =
    let (out, e) = collect_returns m at_ms results (open_stage m.status early) in
    (out, e, collects-IsMove m at_ms results out e)

pub create_match_record_with_creator-IsRecord :
    (settings : MatchSettings) (visibility : Visibility) (creator : PlayerSession) (now_ms : ℕ)
    (match_id token : Text)
    → let made =
        create_match_record_with_creator settings visibility creator now_ms match_id token in
      IsRecord made.match × (made.match.status ≡ filling)
unfolding create_match_record_with_creator create_match_record
create_match_record_with_creator-IsRecord settings visibility creator now_ms match_id token =
    ((refl, refl, refl, refl, refl), refl)
