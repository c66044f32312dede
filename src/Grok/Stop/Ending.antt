-- ===== src/Grok/Stop/Ending.antt =====
-- What the end of a turn publishes and returns: crates/adapter-grok/src/turn.rs.
use gamchi.Prelude.{
  String, ◌≡◌, ◌≢◌, refl, sym, ap, ◌∙◌, Bool, true, false, not, Option, none, some, List, Result,
  ok, err, arith, if◌then◌else◌,
}
use gamchi.Prelude.Text.{is_empty}
use gamchi.Wire.{Turn, TurnStatus, failed, is_terminal, map_stop_reason}
use gamchi.Ledger.Error.{LedgerError}
use gamchi.Ledger.State.{Ledger}
use gamchi.Ledger.Exec.{Exec}
use gamchi.Ledger.Post.{Post, Post-pure, Post-raise, Post-if, Post-bind}
use gamchi.Ledger.Observe.{publish_terminal, publish_terminal_locked}
use gamchi.Ledger.Observe.Converge.{publish-eq}
use gamchi.Grok.Stop.{
  StopReason, end_turn, cancelled, refusal, max_tokens, max_turn_requests, unnamed, stop_reason_str,
  is_failed, publish_stop, TurnOutcome, terminal_or, with_files, ended_turn, finish_turn,
}

Anywhere : Ledger → Type 0
Anywhere s = Unit

anything {ℓ} : {A : Type ℓ} {P : Ledger → Type 0} (m : Exec A) → Post P m (λ a. Anywhere)
unfolding Anywhere
anything m = record { at = λ s p a e. tt }

-- The record that a publication returns.
record Published (status : TurnStatus) (stop failure : String) (t : Turn) : Type 0 where
  final : is_terminal status ≡ true
  status_is : t.status ≡ status
  stop_is : t.stop_reason ≡ stop
  failure_is : t.failure_reason ≡ failure

locked-Published :
    (turn : Turn) (status : TurnStatus) (stop failure : String)
    → is_terminal status ≡ true
    → is_terminal turn.status ≡ false
    → Post Anywhere
        (publish_terminal_locked turn status stop failure)
        (λ t s. Published status stop failure t)
locked-Published turn status stop failure final live = record {
  at = λ s p t e. record {
    final = final;
    status_is = ground (arith, publish-eq turn status stop failure s live);
    stop_is = ground (arith, publish-eq turn status stop failure s live);
    failure_is = ground (arith, publish-eq turn status stop failure s live);
  };
}

publish_terminal-Published :
    (id : String) (status : TurnStatus) (stop failure : String)
    → Post Anywhere
        (publish_terminal id status stop failure)
        (λ t s. Published status stop failure t)
unfolding publish_terminal
publish_terminal-Published id status stop failure = Post-bind {R = λ u. Anywhere} (anything _) λ u.
    Post-if (not (is_terminal status)) (λ e. Post-raise _)
      λ final. Post-bind {R = λ u. Anywhere} (anything _) λ named.
        Post-bind {R = λ u. Anywhere} (anything _) λ u.
          Post-bind {R = λ u. Anywhere} (anything _) λ turn.
            Post-if (is_terminal turn.status) (λ e. Post-raise _)
              λ live.
                locked-Published turn status stop failure (of_not (is_terminal status) final) live
  where
    of_not : (b : Bool) → not b ≡ false → b ≡ true
    of_not true e = refl
    of_not false e = cc

-- The reason of a failure is there exactly where the turn failed.
abbrev pub IsEnded : Turn → Type 0
IsEnded t = (is_terminal t.status ≡ true) × (is_failed t.status ≡ not (is_empty t.failure_reason))

Published-IsEnded :
    (status : TurnStatus) (stop failure : String) (t : Turn)
    → is_failed status ≡ not (is_empty failure)
    → Published status stop failure t
    → IsEnded t
Published-IsEnded status stop failure t same p = (
  ap is_terminal p.status_is ∙ p.final,
  ap is_failed p.status_is ∙ same ∙ ap (λ x. not (is_empty x)) (sym p.failure_is),
)

reason_given :
    (stop : StopReason)
    → is_failed (map_stop_reason (stop_reason_str stop))
      ≡ not (
          is_empty (
            if is_failed (map_stop_reason (stop_reason_str stop))
            then stop_reason_str stop
            else ""))
unfolding map_stop_reason
reason_given end_turn = refl
reason_given cancelled = refl
reason_given refusal = refl
reason_given max_tokens = refl
reason_given max_turn_requests = refl
reason_given unnamed = refl

-- A turn that `publish_stop` returns is terminal, and has a failure reason exactly where it failed:
-- for every stop reason, and for every fatal reason that is not empty.
pub publish_stop-IsEnded :
    (fatal : Option String) (id : String) (stop : StopReason) (s : Ledger) (t : Turn)
    → fatal ≢ some ""
    → (publish_stop fatal id stop s).0 ≡ ok t
    → IsEnded t
unfolding publish_stop Anywhere
publish_stop-IsEnded none id stop s t given h =
    let stop_s = stop_reason_str stop in
    let status = map_stop_reason stop_s in
    let failure = if is_failed status then stop_s else "" in
    Published-IsEnded status stop_s failure t (reason_given stop)
      ((publish_terminal-Published id status stop_s failure).at s tt t h)
publish_stop-IsEnded (some fatal) id stop s t given h =
    Published-IsEnded failed "" fatal t (named fatal given)
      ((publish_terminal-Published id failed "" fatal).at s tt t h)
  where
    named : (x : String) → some x ≢ some "" → true ≡ not (is_empty x)
    named String.[] n = absurd (n refl)
    named (String.◌∷◌ c x) n = refl

Published-terminal :
    (status : TurnStatus) (stop failure : String) (t : Turn)
    → Published status stop failure t
    → is_terminal t.status ≡ true
Published-terminal status stop failure t p = ap is_terminal p.status_is ∙ p.final

publish_stop-terminal :
    (fatal : Option String) (id : String) (stop : StopReason)
    → Post Anywhere (publish_stop fatal id stop) (λ t s. is_terminal t.status ≡ true)
unfolding publish_stop
publish_stop-terminal none id stop = record {
  at = λ s p t e. Published-terminal _ _ _ t ((publish_terminal-Published id _ _ _).at s p t e);
}
publish_stop-terminal (some fatal) id stop = record {
  at = λ s p t e. Published-terminal _ _ _ t ((publish_terminal-Published id _ _ _).at s p t e);
}

terminal_or-terminal :
    (r : Result LedgerError Turn) {m : Exec Turn}
    → Post Anywhere m (λ t s. is_terminal t.status ≡ true)
    → Post Anywhere (terminal_or r m) (λ t s. is_terminal t.status ≡ true)
terminal_or-terminal (ok turn) h =
    Post-if (is_terminal turn.status) (λ e. Post-pure turn (λ s p. e)) (λ e. h)
terminal_or-terminal (err e) h = h

ended_turn-terminal :
    (fatal : Option String) (id : String) (stop : StopReason)
    → Post Anywhere (ended_turn fatal id stop) (λ t s. is_terminal t.status ≡ true)
unfolding ended_turn
ended_turn-terminal fatal id stop =
    Post-bind {R = λ r. Anywhere} (anything _)
      λ r. terminal_or-terminal r (publish_stop-terminal fatal id stop)

with_files-ok :
    (fatal : Option String) (files : List String × Bool) (r : Result LedgerError Turn)
    {o : TurnOutcome}
    → with_files fatal files r ≡ ok o
    → (fatal ≡ none) × (r ≡ ok o.turn)
with_files-ok none files (ok turn) h = (refl, cc)
with_files-ok (some fatal) files (ok turn) h = cc
with_files-ok none files (err e) h = cc
with_files-ok (some fatal) files (err e) h = cc

-- A turn that `finish_turn` returns as an outcome is terminal, and nothing fatal had come up when it
-- looked after the publication, whatever it saw before.
pub finish_turn-terminal :
    (fatal later : Option String) (files : List String × Bool) (id : String) (stop : StopReason)
    (s : Ledger) {o : TurnOutcome}
    → (finish_turn fatal later files id stop s).0 ≡ ok o
    → (later ≡ none) × (is_terminal o.turn.status ≡ true)
unfolding finish_turn Anywhere
finish_turn-terminal fatal later files id stop s {o} h =
    let (calm, found) = with_files-ok later files (ended_turn fatal id stop s).0 h in
    (calm, (ended_turn-terminal fatal id stop).at s tt o.turn found)
