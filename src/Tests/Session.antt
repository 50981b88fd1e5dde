-- ===== src/Tests/Session.antt =====
-- A session whose access token has expired.
use silo_plugin_xtream_libra.Prelude.{◌≡◌, refl, none, List, [], ◌∷◌}
use silo_plugin_xtream_libra.Text.{codes}
use silo_plugin_xtream_libra.Json.{str, object, end, put}
use silo_plugin_xtream_libra.Session.{
  Session, Call, status, over, request_headers, send, share_refresh, core_fetch, answered,
  is_first_sent, answer_call, retries, answer_request, tokens, refresh_core_session, go_on,
  end_refresh, end_current, Event, fetches, answers, refreshes, step, run,
}
use silo_plugin_xtream_libra.Session.Calls.{IsValid, run-IsValid}

abbrev expired : Session
expired = record {
  token = codes "old";
  refresh_token = codes "r";
  profile_id = [];
  profile_token = [];
  refreshing = none;
  calls = [];
}

-- Two calls are refused, share one refresh, and are sent again.
abbrev events : List Event
events =
    fetches 1 end
    ∷ fetches 2 end
    ∷ answers 1 401
    ∷ answers 2 401
    ∷ refreshes (tokens (codes "new") [])
    ∷ answers 1 200
    ∷ answers 2 200
    ∷ []

abbrev done : List Call
done =
    record {
      id = 2;
      headers = end;
      phase = over (status 200);
      sent =
          object ((codes "Authorization", str (codes "Bearer old")) ∷ [])
          ∷ object ((codes "Authorization", str (codes "Bearer new")) ∷ [])
          ∷ [];
    }
    ∷ record {
      id = 1;
      headers = end;
      phase = over (status 200);
      sent =
          object ((codes "Authorization", str (codes "Bearer old")) ∷ [])
          ∷ object ((codes "Authorization", str (codes "Bearer new")) ∷ [])
          ∷ [];
    }
    ∷ []

run_test : (run events expired).calls ≡ done
unfolding run step core_fetch send request_headers put answer_request answer_call answered retries
    is_first_sent share_refresh end_current end_refresh refresh_core_session go_on
run_test = refl

run-IsValid_example : IsValid (run events expired)
run-IsValid_example = run-IsValid events expired tt
