-- ===== src/Tests/Answers.antt =====
-- The home, permission requests, confined paths, and the end of a turn.
use gamchi.Prelude.{
  Bool, String, ◌≡◌, ◌≢◌, refl, true, false, Option, none, some, List, [], ◌∷◌, ok, err,
}
use gamchi.Prelude.Assoc.{lookup, insert, remove}
use gamchi.Prelude.Text.{is_absolute}
use gamchi.Wire.{Turn, in_progress, completed, failed, decline, is_terminal, map_stop_reason}
use gamchi.Ledger.Ids.{validate_id}
use gamchi.Ledger.Exec.{◌>>=◌, call}
use gamchi.Ledger.Files.{
  read_turn, read_thread, next_seq, write_json_atomic, write_turn, write_thread,
}
use gamchi.Ledger.Live.{release_live, drop_hold}
use gamchi.Ledger.Waiters.{no_waiters}
use gamchi.Ledger.Observe.{publish_terminal, publish_terminal_locked, clear_in_progress}
use gamchi.Home.{resolve_home_from_os, resolve_home, user_default, open_ledger}
use gamchi.Home.Absolute.{resolve_home-open_ledger}
use gamchi.Grok.Permission.{
  PermissionOption, allow_once, reject_once, selected, decision_option, first_of,
  auto_allow_permission,
}
use gamchi.Grok.Permission.Polarity.{
  Offered, verdict, decision_option-Offered, auto_allow_permission-Offered,
}
use gamchi.Grok.Confined.{outside, confined, components, segments, collect, walk, is_prefix}
use gamchi.Grok.Confined.Inside.{Inside, confined-Inside}
use gamchi.Grok.Stop.{refusal, end_turn, publish_stop, finish_turn, ended_turn, TurnOutcome}
use gamchi.Grok.Stop.Ending.{IsEnded, publish_stop-IsEnded, finish_turn-terminal}
use gamchi.Tests.{busy, turn}

home : resolve_home_from_os (some "") (some "/home/me") none ≡ ok "/home/me/.gamchi"
unfolding resolve_home_from_os resolve_home user_default
home = refl

resolve_home-open_ledger_example :
    (is_absolute "/home/me/.gamchi" ≡ true)
    × (open_ledger (λ n. true) "/home/me/.gamchi" ≡ ok ("/home/me/.gamchi", no_waiters))
resolve_home-open_ledger_example =
    resolve_home-open_ledger (some "") (some "/home/me") none (λ n. true) home refl refl refl

abbrev options : List PermissionOption
options =
    record { option_id = "yes"; kind = allow_once }
    ∷ record { option_id = "no"; kind = reject_once }
    ∷ []

declined : decision_option options decline ≡ some "no"
unfolding decision_option first_of
declined = refl

decision_option-Offered_example :
    (b : Bool) × (verdict decline ≡ some b) × Offered options "no" (some b)
decision_option-Offered_example = decision_option-Offered options decline declined

allowed : (auto_allow_permission options).0 ≡ selected "yes"
unfolding auto_allow_permission
allowed = refl

auto_allow_permission-Offered_example : Offered options "yes" (some true)
auto_allow_permission-Offered_example = auto_allow_permission-Offered options allowed

abbrev canonicalize : String → Option String
canonicalize cwd = some cwd

let_through :
    confined canonicalize "/work" "src/../a.txt"
    ≡ ok (record { rooted = true; names = "work" ∷ "a.txt" ∷ [] })
unfolding confined components segments collect walk is_prefix
let_through = refl

-- A path that climbs out is refused.
climbs : confined canonicalize "/work" "../etc/passwd" ≡ err outside
unfolding confined components segments collect walk is_prefix
climbs = refl

confined-Inside_example :
    (root : String) × (some "/work" ≡ some root)
    × Inside root (record { rooted = true; names = "work" ∷ "a.txt" ∷ [] })
confined-Inside_example = confined-Inside canonicalize "/work" "src/../a.txt" let_through

abbrev refused : Turn
refused = record (turn failed) { stop_reason = "refusal"; failure_reason = "refusal" }

published : (publish_stop none "tu1" refusal (busy in_progress false)).0 ≡ ok refused
unfolding publish_stop map_stop_reason publish_terminal publish_terminal_locked clear_in_progress
    validate_id read_turn read_thread next_seq write_json_atomic write_turn write_thread
    release_live drop_hold lookup insert remove ◌>>=◌ call
published = refl

nothing_fatal : ◌≢◌ {A = Option String} none (some "")
nothing_fatal e = cc

publish_stop-IsEnded_example : IsEnded refused
publish_stop-IsEnded_example =
    publish_stop-IsEnded none "tu1" refusal (busy in_progress false) refused nothing_fatal published

abbrev outcome : TurnOutcome
outcome = record {
  turn = turn completed;
  files_changed = "a.txt" ∷ [];
  files_changed_complete = true;
}

finished :
    (finish_turn none none ("a.txt" ∷ [], true) "tu1" end_turn (busy completed false)).0
    ≡ ok outcome
unfolding finish_turn ended_turn validate_id read_turn lookup ◌>>=◌
finished = refl

finish_turn-terminal_example : (◌≡◌ {A = Option String} none none) × (is_terminal completed ≡ true)
finish_turn-terminal_example =
    finish_turn-terminal none none ("a.txt" ∷ [], true) "tu1" end_turn (busy completed false)
      finished
