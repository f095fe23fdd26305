-- ===== src/Examples/Exchange.antt =====
-- The desk and the server: failures, a whole flush, a course of events, and the stream.
use platform_for_sudies.Common.{
  String, true, false, Option, none, some, List, [], ◌∷◌, ◌≡◌, refl, arith, map, All,
}
use platform_for_sudies.Api.{ScoreItem, ScoreResult, ok}
use platform_for_sudies.Client.{Failure, api, failed, reply}
use platform_for_sudies.Scoring.Outbox.Drain.{waiting, IsAnswered}
use platform_for_sudies.Desk.{Desk, Identity, new_desk}
use platform_for_sudies.Desk.Edits.{set_score}
use platform_for_sudies.Desk.InFlight.{none_yet}
use platform_for_sudies.Desk.Sync.{Environment, do_flush, flush_scores, max_passes}
use platform_for_sudies.Desk.Session.{run_refresh}
use platform_for_sudies.Desk.Failures.{
  KeepsWork, IsHandled, refresh_again, get_session_fails, failed-IsHandled, IsDown, do_flush_down,
}
use platform_for_sudies.Desk.Drain.{IsAnswering, flush_scores_drains}
use platform_for_sudies.Desk.Keys.{IsKeyed}
use platform_for_sudies.Desk.Keys.Exchange.{
  OnlyJudge, here, later, sets_score, flushes, Reached-IsKeyed,
}
use platform_for_sudies.Sse.{new_parser, push, cut}
use platform_for_sudies.Sse.Chunks.{push_all, joined, push_all_lem}
use platform_for_sudies.Sse.Connection.{
  Answer, connected, unreachable, refused, done, broken, new_connection, default_fatal, run,
}
use platform_for_sudies.Sse.Connection.Laws.{IsWait, IsFirst, all_opens, run-IsWait, run-IsFirst}
use platform_for_sudies.Examples.Data.{two_rows, two_rows-WellKeyed, two_pairs}

abbrev never_same : Identity
never_same = record { same_row = λ r s. false; same_comparison = λ r s. false }

abbrev blank_desk : Desk
blank_desk = new_desk true

abbrev busy_desk : Desk
unfolding new_desk
busy_desk = record blank_desk {
  running = true;
  state = record (blank_desk.state) { rows = two_rows; comparisons = two_pairs };
}

abbrev bad_gateway : Failure
bad_gateway = api 502 "Bad Gateway"

failed-IsHandled_example :
    IsHandled bad_gateway refresh_again busy_desk
      (run_refresh never_same (failed bad_gateway) none true busy_desk)
failed-IsHandled_example = failed-IsHandled (get_session_fails never_same none true busy_desk)

abbrev down_server : Environment
down_server = record {
  not_confirmed = λ n. "";
  put_scores = λ pass items d. (d, failed bad_gateway);
  put_comparisons = λ pass items d. (d, failed bad_gateway);
}

down_server-IsDown : IsDown down_server bad_gateway
down_server-IsDown = record { scores = λ pass items d. refl; comparisons = λ pass items d. refl }

do_flush_down_example :
    KeepsWork busy_desk (do_flush never_same down_server true busy_desk).0
    × ((do_flush never_same down_server true busy_desk).0.state.syncing ≡ false)
    × ((do_flush never_same down_server true busy_desk).1 ≡ 0)
do_flush_down_example =
    do_flush_down never_same down_server bad_gateway down_server-IsDown busy_desk

-- A server that confirms every score.
abbrev confirmation : ScoreItem → ScoreResult
confirmation i = record {
  team_id = i.team_id;
  criterion_id = i.criterion_id;
  status = ok;
  error = none;
  server = none;
}

abbrev good_server : Environment
good_server = record {
  not_confirmed = λ n. "";
  put_scores = λ pass items d. (d, reply (map confirmation items));
  put_comparisons = λ pass items d. (d, failed bad_gateway);
}

confirmation-IsAnswered : (items : List ScoreItem) → IsAnswered items (map confirmation items)
confirmation-IsAnswered [] k h = absurd (ground arith)
confirmation-IsAnswered (i ∷ items) k h = ground (arith, confirmation-IsAnswered items k)

good_server-IsAnswering : IsAnswering good_server
good_server-IsAnswering = record {
  answers = λ pass items. map confirmation items;
  puts = λ pass items d. refl;
  all = λ pass items. confirmation-IsAnswered items;
}

flush_scores_drains_example :
    waiting (flush_scores never_same good_server max_passes 0 busy_desk).0.state.rows ≡ 0
unfolding busy_desk
flush_scores_drains_example =
    flush_scores_drains never_same good_server good_server-IsAnswering busy_desk two_rows-WellKeyed
      (omega arith)

good_server-OnlyJudge : OnlyJudge good_server
good_server-OnlyJudge = record {
  scores = λ pass items d. none_yet;
  comparisons = λ pass items d. none_yet;
}

abbrev scored_desk : Desk
scored_desk = set_score never_same "t1" "c1" (some 400) 50 busy_desk

Reached-IsKeyed_example : IsKeyed (do_flush never_same good_server true scored_desk).0
unfolding busy_desk
Reached-IsKeyed_example = Reached-IsKeyed two_rows-WellKeyed (
    later (later here (sets_score "t1" "c1" (some 400) 50 busy_desk))
      (flushes good_server true scored_desk good_server-OnlyJudge))

abbrev three_chunks : List String
three_chunks = "data: x\r" ∷ "\n\n" ∷ "da" ∷ []

push_all_lem_example : push_all three_chunks new_parser ≡ push (joined three_chunks) new_parser
unfolding cut
push_all_lem_example = push_all_lem three_chunks new_parser refl

-- No connection, then a stream that ends, then a rejected token.
abbrev attempts : List Answer
attempts = unreachable ∷ connected three_chunks done ∷ connected [] broken ∷ refused 401 ∷ []

abbrev no_kind : String → Option String
no_kind s = none

run-IsWait_example : All (λ a. IsWait a.wait) (run default_fatal no_kind attempts new_connection)
run-IsWait_example = run-IsWait default_fatal no_kind attempts new_connection

run-IsFirst_example : IsFirst false (all_opens (run default_fatal no_kind attempts new_connection))
run-IsFirst_example = run-IsFirst default_fatal no_kind attempts new_connection
