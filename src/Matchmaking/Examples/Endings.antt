-- ===== src/Matchmaking/Examples/Endings.antt =====
-- Matches that run and end.
use europa_neo.Prelude.{
  ℕ, ap, subst, ◌≡◌, ◌↔◌, refl, true, false, some, [], ◌∷◌, Memᴰ, Returns, Within, inl, inr, arith,
}
use mathlib.Core.List.Memᴰ
use europa_neo.Engine.Types.{surrender}
use europa_neo.Engine.Examples.{bob}
use europa_neo.Matchmaking.OrderedMap.{get}
use europa_neo.Matchmaking.Types.{Text, MatchRecord}
use europa_neo.Matchmaking.Store.{list_matches, create_store}
use europa_neo.Matchmaking.EngineSession.{submit}
use europa_neo.Matchmaking.Lifecycle.Rename.{each}
use europa_neo.Matchmaking.Rematch.{classify_voter_eligibility, already_voted, cast_accept_vote}
use europa_neo.Matchmaking.Rematch.Votes.{IsPoll, cast_accept_vote-Completes}
use europa_neo.Matchmaking.Forfeit.{handle_seat_expired, ignored, unregister_match}
use europa_neo.Matchmaking.Forfeit.Laws.{IsForfeited, handle_seat_expired-IsForfeited}
use europa_neo.Matchmaking.Matchmaker.{run_lazy_sweeps}
use europa_neo.Matchmaking.Matchmaker.Leaving.{leave_match}
use europa_neo.Matchmaking.Matchmaker.Leaving.Departures.{IsKept, IsLeave, leave_match-IsLeave}
use europa_neo.Matchmaking.Matchmaker.Upkeep.{close}
use europa_neo.Matchmaking.Matchmaker.Upkeep.Closing.{close-unregistered}
use europa_neo.Matchmaking.Matchmaker.Sweeps.{swept}
use europa_neo.Matchmaking.Matchmaker.Expiry.{is_due, run_lazy_sweeps-Collects}
use europa_neo.Matchmaking.Matchmaker.Offers.{decline_rematch}
use europa_neo.Matchmaking.Matchmaker.Voting.{IsDecline, decline_rematch-IsDecline}
use europa_neo.Matchmaking.Examples.{
  first_match, ann_token, bob_token, bob_seat, two_session, live_match, over_match, duel_offer,
  maker_of, store_of, short_limits,
}

-- Bob's connection is lost for good.
handle_seat_expired-IsForfeited_example :
    Returns
      (λ h.
        IsForfeited live_match bob_seat (submit two_session (surrender bob)).0 bob_token 8 h
        × (handle_seat_expired h.store first_match bob_token 9 ≡ some (ignored h.store)))
      (handle_seat_expired (store_of live_match) first_match bob_token 8)
unfolding get
handle_seat_expired-IsForfeited_example =
    handle_seat_expired-IsForfeited (store_of live_match) live_match bob_seat two_session bob_token
      8 9 refl
      (
        λ i. elim (Memᴰ.cases_cons i) [ inl e ↦ absurd (omega arith) | inr later ↦ elim later [ ] ],
        (λ i. elim i [ ], tt),
      )
      (refl, (refl, tt)) refl refl refl refl

abbrev first_code : Text → ℕ
first_code [] = 0
first_code (c ∷ rest) = c

duel-IsPoll : IsPoll duel_offer
duel-IsPoll = record {
  participants = (
    λ i. elim (Memᴰ.cases_cons i) [
      | inl e ↦ absurd (omega (arith, ap first_code e))
      | inr later ↦ elim later [ ]
    ],
    (λ i. elim i [ ], tt),
  );
  once = tt;
  invited = λ a i. elim i [ ];
}

cast_accept_vote-Completes_example :
    let out = cast_accept_vote duel_offer (b'a' ∷ []) in
    IsPoll out.0
    × Memᴰ (b'a' ∷ []) out.0.accepted_by
    × ((out.1 ≡ true) ↔ Within out.0.all_original_player_ids out.0.accepted_by)
    × (classify_voter_eligibility out.0 (b'a' ∷ []) ≡ already_voted)
unfolding classify_voter_eligibility
cast_accept_vote-Completes_example =
    cast_accept_vote-Completes duel_offer (b'a' ∷ []) duel-IsPoll refl

-- The rematch window is over.
run_lazy_sweeps-Collects_example :
    Returns
      (λ out.
        (out.store.matches ≡ each (swept (is_due short_limits 90) 90) (store_of over_match).matches)
        × ((m : MatchRecord) → Memᴰ m (list_matches out.store) → is_due short_limits 90 m ≡ false))
      (run_lazy_sweeps short_limits 90 (maker_of over_match))
run_lazy_sweeps-Collects_example =
    run_lazy_sweeps-Collects short_limits 90 (maker_of over_match) (refl, λ i. elim i [ ], tt)

decline_rematch-IsDecline_example :
    Returns
      (IsDecline (maker_of over_match) first_match ann_token (b'o' ∷ []) 30 31)
      (decline_rematch (maker_of over_match) first_match ann_token (b'o' ∷ []) 30 31)
decline_rematch-IsDecline_example =
    decline_rematch-IsDecline (maker_of over_match) first_match ann_token (b'o' ∷ []) 30 31

-- Ann leaves the running match.
live-IsKept : IsKept live_match
live-IsKept = record {
  fields = ((2, refl), (two_session, refl), refl, refl, refl);
  one_seat = (
    λ i. elim (Memᴰ.cases_cons i) [ inl e ↦ absurd (omega arith) | inr later ↦ elim later [ ] ],
    (λ i. elim i [ ], tt),
  );
  at_index = (refl, (refl, tt));
}

stored_match : {m n : MatchRecord} → some m ≡ some n → m ≡ n
stored_match e = cc

leave_match-IsLeave_example :
    Returns
      (IsLeave (maker_of live_match) first_match ann_token 8)
      (leave_match (maker_of live_match) first_match ann_token 8)
unfolding get
leave_match-IsLeave_example =
    leave_match-IsLeave (maker_of live_match) first_match ann_token 8
      (λ m e. subst IsKept (stored_match e) live-IsKept)

close-unregistered_example :
    ((close (maker_of live_match)).store ≡ create_store)
    × ((close (maker_of live_match)).calls ≡ unregister_match first_match ∷ [])
close-unregistered_example =
    close-unregistered (maker_of live_match) (refl, λ i. elim i [ ], tt) (refl, tt)
