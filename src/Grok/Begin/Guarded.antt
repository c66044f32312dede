-- ===== src/Grok/Begin/Guarded.antt =====
-- What holds of a turn that `run_turn_async` of crates/adapter-grok/src/turn.rs admits.
use gamchi.Prelude.{
  String, ◌≡◌, refl, ap, ◌∙◌, subst, [], ◌∷◌, true, Option, none, some, Result, ok, err, is_ok, inl,
  inr, Option-cases, Bool-cases, map_err,
}
use gamchi.Prelude.Text.{is_empty}
use gamchi.Wire.{Thread, Turn}
use gamchi.Ledger.State.{Ledger, Body}
use gamchi.Ledger.Exec.{Exec}
use gamchi.Ledger.Call.{lift, bind-ok, method-ok, lift-ok}
use gamchi.Ledger.Files.{read_thread}
use gamchi.Ledger.Post.{Post, Post-pure, Post-raise, Post-bind, Post-weaken}
use gamchi.Ledger.Admit.{
  NewTurn, existing_for_client, start_turn, start_if_idle, admit_on_thread, return_or_admit,
  admit_turn,
}
use gamchi.Grok.Defaults.{HomeDefaults, resolve_follow_up, load_home_defaults}
use gamchi.Grok.Defaults.Frozen.{IsNormal, follow_up-frozen}
use gamchi.Grok.Launch.{LaunchRequest, LaunchPlan, from_resolve, plan_launch}
use gamchi.Grok.Begin.{
  grok, TurnRequest, launch, ledger, Chosen, continue_thread, follow_up, reuse, choose, plan, admit,
  is_both, begin_turn, previous_turn_effort,
}

-- A turn with the model and effort of its specification.
abbrev Follows : NewTurn → Turn → Ledger → Type 0
Follows spec turn s = (turn.model ≡ spec.model) × (turn.effort ≡ spec.effort)

abbrev Nothing {ℓ} : {A : Type ℓ} → A → Ledger → Type 0
Nothing a s = Unit {0}

Post-Nothing {ℓ} : {A : Type ℓ} {P : Ledger → Type 0} (m : Exec A) → Post P m Nothing
Post-Nothing m = record { at = λ s p a e. tt }

start_turn-Follows :
    (spec : NewTurn) (thread : Thread) → Post (λ s. Unit) (start_turn spec thread) (Follows spec)
unfolding start_turn
start_turn-Follows spec thread = Post-bind {R = Nothing} (Post-Nothing _) λ a.
    Post-bind {R = Nothing} (Post-Nothing _) λ b. Post-bind {R = Nothing} (Post-Nothing _) λ c.
      Post-bind {R = Nothing} (Post-Nothing _) λ d. Post-bind {R = Nothing} (Post-Nothing _) λ e.
        Post-bind {R = Nothing} (Post-Nothing _) λ f.
          Post-bind {R = Nothing} (Post-Nothing _)
            λ g. Post-bind {R = Nothing} (Post-Nothing _) λ h. Post-pure _ (λ s p. (refl, refl))

start_if_idle-Follows :
    (spec : NewTurn) (thread : Thread) (current : Option Turn)
    → Post (λ s. Unit) (start_if_idle spec thread current) (Follows spec)
unfolding start_if_idle
start_if_idle-Follows spec thread none = start_turn-Follows spec thread
start_if_idle-Follows spec thread (some turn) = Post-raise _

admit_on_thread-Follows : (spec : NewTurn) → Post (λ s. Unit) (admit_on_thread spec) (Follows spec)
unfolding admit_on_thread
admit_on_thread-Follows spec = Post-bind {R = Nothing} (Post-Nothing _) λ a.
    Post-bind {R = Nothing} (Post-Nothing _) λ thread.
      Post-bind {R = Nothing} (Post-Nothing _) λ current. start_if_idle-Follows spec thread current

returned-Follows :
    (spec : NewTurn) (o : Option Turn)
    → Post (λ s. o ≡ none) (return_or_admit spec o) (Follows spec)
unfolding return_or_admit
returned-Follows spec none = Post-weaken (λ s p. tt) (admit_on_thread-Follows spec)
returned-Follows spec (some turn) = record { at = λ s p a e. absurd (cc p) }

-- Without a client's request id, no other turn is returned.
admit_turn-Follows :
    (spec : NewTurn)
    → spec.client_request_id ≡ none
    → Post (λ s. Unit) (admit_turn spec) (Follows spec)
unfolding admit_turn existing_for_client
admit_turn-Follows spec no_client = Post-bind {R = Nothing} (Post-Nothing _) λ a.
    Post-bind {R = Nothing} (Post-Nothing _) λ b.
      Post-bind {R = λ o s. o ≡ none} (rw no_client (Post-pure none (λ s p. refl)))
        λ o. returned-Follows spec o

-- The thread that a request continues.
abbrev pub target : TurnRequest → Option String
target req = elim req.follow_up_thread_id [ some id ↦ some id | none ↦ req.reuse_thread_id ]

map_err-ok :
    {E F A : Type 0} (tell : E → F) (r : Result E A) {a : A} → map_err tell r ≡ ok a → r ≡ ok a
map_err-ok tell (ok b) h = cc
map_err-ok tell (err e) h = cc

module _ (req : TurnRequest) (d : HomeDefaults) (thread : Thread)
    (normal : IsNormal thread.model) where
  continue-frozen :
      (session : Option String) (s t : Ledger) (chosen : Chosen)
      → continue_thread req d thread session s ≡ (ok chosen, t)
      → chosen.model ≡ thread.model
  unfolding continue_thread
  continue-frozen session s t chosen h =
      bind-ok (previous_turn_effort thread.id) _ s t chosen h (λ previous u found rest.
        bind-ok
          (lift (
            map_err (λ e. launch (from_resolve e))
              (resolve_follow_up req.model req.effort thread.model previous d)))
          _ u t chosen rest
          (λ resolved v lifted done.
            let asked =
              map_err-ok _ (resolve_follow_up req.model req.effort thread.model previous d)
                (lift-ok _ u v resolved lifted).0 in
            let model : chosen.model ≡ resolved.0 = cc done in
            model ∙ follow_up-frozen req.model req.effort thread.model previous d normal asked))

  choose-frozen :
      (id : String) (s t : Ledger) (chosen : Chosen)
      → target req ≡ some id
      → read_thread id s ≡ ok thread
      → choose req d s ≡ (ok chosen, t)
      → chosen.model ≡ thread.model
  unfolding choose follow_up reuse continue_thread
  choose-frozen id s t chosen aimed stored h = elim (Option-cases req.follow_up_thread_id) [
    | inr (follow, e) ↦
        let same : follow ≡ id = cc (rw e at aimed) in
        elim (Bool-cases (is_empty thread.acp_session_id)) [
          | inl no_session ↦ absurd (cc (rw (e, same, stored, no_session) at h))
          | inr session ↦
              continue-frozen (some thread.acp_session_id) s t chosen
                (rw (e, same, stored, session) at h)
        ]
    | inl none_given ↦
        let reused = rw none_given at aimed in
        continue-frozen none s t chosen (rw (none_given, reused, stored) at h)
  ]

-- The launch of `grok` for a request, with a model and an effort.
abbrev pub launch_of : TurnRequest → String → String → String → LaunchRequest
launch_of req program model effort = record {
  program = program;
  cwd = req.cwd;
  approval = req.approval;
  sandbox = req.sandbox;
  extra = req.extra;
  model = model;
  effort = effort;
}

admitted-guarded :
    (req : TurnRequest) (program : String) (thread : Thread) (chosen : Chosen)
    (planned : LaunchPlan) (s t : Ledger) (turn : Turn)
    → req.client_request_id ≡ none
    → req.command ≡ grok program
    → chosen.model ≡ thread.model
    → plan req chosen ≡ ok planned
    → admit req chosen s ≡ (ok turn, t)
    → (turn.model ≡ thread.model)
      × (is_ok (plan_launch (launch_of req program turn.model turn.effort)) ≡ true)
unfolding plan admit
admitted-guarded req program thread chosen planned s t turn no_client agent frozen planned_ok h =
    let spec : NewTurn = record {
      thread_id = chosen.thread.id;
      input = record { kind = "text"; text = req.prompt } ∷ [];
      model = chosen.model;
      effort = chosen.effort;
      client_request_id = req.client_request_id;
    } in
    let same =
      (admit_turn-Follows spec no_client).at s tt turn
        (ap (λ p. p.0) (method-ok ledger (admit_turn spec) s t turn h)) in
    let accepted : plan_launch (launch_of req program chosen.model chosen.effort) ≡ ok planned =
      rw agent at planned_ok in
    (same.0 ∙ frozen, rw (same.0, same.1, accepted) refl)

-- A turn that a request begins on a thread has the thread's model, whatever model the request and
-- the home's configuration name, and `plan_launch` accepts the launch of `grok` with the turn's
-- model and effort. The request has no client request id and names a thread, for a follow-up or
-- for reuse, whose record can be read and holds a model as the resolution of a first turn gives
-- it; and its agent is `grok`.
pub begin_turn-keeps_model :
    (os : String) (config : Option (Body String)) (req : TurnRequest) (id program : String)
    (thread : Thread) (s t : Ledger) (turn : Turn)
    → req.client_request_id ≡ none
    → target req ≡ some id
    → req.command ≡ grok program
    → read_thread id s ≡ ok thread
    → IsNormal thread.model
    → begin_turn os config req s ≡ (ok turn, t)
    → (turn.model ≡ thread.model)
      × (is_ok (plan_launch (launch_of req program turn.model turn.effort)) ≡ true)
unfolding begin_turn
begin_turn-keeps_model os config req id program thread s t turn no_client aimed agent stored normal
      h =
    elim (Bool-cases (is_both req.follow_up_thread_id req.reuse_thread_id)) [
      | inl both ↦ absurd (cc (rw both at h))
      | inr one ↦
          bind-ok (lift (map_err (λ e. launch (from_resolve e)) (load_home_defaults os config))) _ s
            t turn (rw one at h)
            (λ d u loaded rest.
              let found =
                subst (λ x. read_thread id x ≡ ok thread) (lift-ok _ s u d loaded).1 stored in
              bind-ok (choose req d) _ u t turn rest (λ chosen v chose planning.
                bind-ok (lift (map_err launch (plan req chosen))) _ v t turn planning
                  (λ planned w planned_ok admitted.
                    admitted-guarded req program thread chosen planned w t turn no_client agent
                      (choose-frozen req d thread normal id u v chosen aimed found chose)
                      (map_err-ok launch (plan req chosen) (lift-ok _ v w planned planned_ok).0)
                      admitted)))
    ]
