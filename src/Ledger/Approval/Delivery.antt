-- ===== src/Ledger/Approval/Delivery.antt =====
-- From a decision to its waiter: `respond` and `wait_pending_decision` of
-- crates/core/src/ledger.rs, one after the other.
use gamchi.Prelude.{
  String, ◌==◌, eq_iff, eq_refl, ◌≡◌, refl, sym, ap, ◌∙◌, subst, false, not, arith, Option, none,
  some, ok, err,
}
use gamchi.Prelude.Assoc.{lookup}
use gamchi.Prelude.Text.{◌<>◌, is_empty}
use gamchi.Wire.{
  Turn, Generation, ApprovalDecision, accept, accept_for_session, decline, cancel, decision_str,
  parse_approval_decision, is_terminal,
}
use gamchi.Wire.RoundTrip.{parsers_read_exactly}
use gamchi.Ledger.Error.{invalid_status}
use gamchi.Ledger.Ids.{validate_id}
use gamchi.Ledger.State.{Ledger}
use gamchi.Ledger.Exec.{pure, reads, modify, ◌>>=◌, call}
use gamchi.Ledger.Files.{read_turn, read_generation, write_turn}
use gamchi.Ledger.Live.{generation_is_dead, owner_instance_alive}
use gamchi.Ledger.Evolve.{Stored, IsKeyed}
use gamchi.Ledger.Keeps.{Keeps-of_Quiet, Quiet-call}
use gamchi.Ledger.Post.{
  Post, Post-pure, Post-raise, Post-reads, Post-read_turn, Post-if, Post-bind, Post-then,
  Post-write_turn, Post-IsKeyed,
}
use gamchi.Ledger.Safety.{Quiet-wake}
use gamchi.Ledger.Methods.{Keeps-turn_by_pending_request}
use gamchi.Ledger.Observe.{wake}
use gamchi.Ledger.Observe.Converge.{converged, locked, observe-eq, read_turn_of_Stored}
use gamchi.Ledger.Approval.{respond_on, respond_named, respond}
use gamchi.Ledger.Wait.{poll_decision}

abbrev decide : ApprovalDecision → Turn → Turn
decide d t = record t { pending_decision = decision_str d }

-- The turn is stored, in flight, with the decision on the request.
pub record Decided (request : String) (d : ApprovalDecision) (t : Turn) (s : Ledger) : Type 0 where
  pub stored : Stored t.id t s
  pub live : is_terminal t.status ≡ false
  pub request_id : t.pending_request_id ≡ request
  pub decision : t.pending_decision ≡ decision_str d

of_not_eq : (a b : String) → not (a == b) ≡ false → a ≡ b
of_not_eq a b e = ground (arith, eq_iff a b)

write_decision :
    (request : String) (d : ApprovalDecision) (t : Turn)
    → is_terminal t.status ≡ false
    → t.pending_request_id ≡ request
    → Post
        (λ s. IsKeyed s × Stored t.id t s)
        (write_turn (decide d t) >>= λ _. modify (wake t.id) >>= λ _. pure (decide d t))
        (Decided request d)
write_decision request d t live same =
    Post-bind {R = λ u. Stored t.id (decide d t)} (Post-write_turn t.id _ (λ s h. refl)) λ u.
      Post-then t.id (decide d t) (Quiet-wake t.id) λ u.
        Post-pure _ (λ s h. record { stored = h; live = live; request_id = same; decision = refl })

read_named :
    (id : String) → Post IsKeyed (reads (read_turn id)) (λ t s. IsKeyed s × Stored t.id t s)
read_named id = record {
  at = λ s k t e.
      let (keyed, stored) = (Post-read_turn id).at s k t e in
      (keyed, subst (λ x. Stored x t s) (sym (keyed.keyed id t stored)) stored);
}

respond_on-Decided :
    (request : String) (d : ApprovalDecision) (named : Turn)
    → Post IsKeyed (respond_on request d named) (Decided request d)
unfolding respond_on
respond_on-Decided request d named =
    Post-bind {R = λ u. IsKeyed} (Post-IsKeyed (Keeps-of_Quiet Quiet-call)) λ u.
      Post-bind {R = λ t s. IsKeyed s × Stored t.id t s} (read_named named.id) λ t.
        Post-if (is_terminal t.status) (λ e. Post-raise _)
          λ live.
            Post-if (not (t.pending_request_id == request)) (λ e. Post-raise _)
              λ same.
                Post-if (not (is_empty t.pending_decision)) (λ e. Post-raise _)
                  λ e. write_decision request d t live (of_not_eq t.pending_request_id request same)

respond_named-Decided :
    (request : String) (d : ApprovalDecision) (o : Option Turn)
    → Post IsKeyed (respond_named request d o) (Decided request d)
unfolding respond_named
respond_named-Decided request d none = Post-raise _
respond_named-Decided request d (some t) = respond_on-Decided request d t

-- A response that is accepted has recorded its decision on a turn that is in flight and parked on
-- exactly that request.
pub respond-Decided :
    (request : String) (d : ApprovalDecision) → Post IsKeyed (respond request d) (Decided request d)
unfolding respond
respond-Decided request d = Post-bind {R = λ u. IsKeyed} (Post-reads _ (λ s k a e. k)) λ u.
    Post-bind {R = λ o. IsKeyed} (Post-IsKeyed (Keeps-turn_by_pending_request request))
      λ o. respond_named-Decided request d o

decision_str-nonempty : (d : ApprovalDecision) → is_empty (decision_str d) ≡ false
decision_str-nonempty accept = refl
decision_str-nonempty accept_for_session = refl
decision_str-nonempty decline = refl
decision_str-nonempty cancel = refl

seen_alive :
    (t : Turn) (g : Generation) (s : Ledger)
    → is_terminal t.status ≡ false
    → generation_is_dead s g ≡ false
    → converged t g (locked s) ≡ ok t
unfolding generation_is_dead owner_instance_alive
seen_alive t g s live alive = rw (live, alive) refl

parse_decision : (d : ApprovalDecision) → parse_approval_decision (decision_str d) ≡ ok d
parse_decision d = (parsers_read_exactly.3 (decision_str d) d).1 refl

-- The poll of `wait_pending_decision` for a recorded decision returns that decision, while the
-- generation of the turn lives and can be read, and once the lock is taken.
poll_decision_lem :
    (request : String) (d : ApprovalDecision) (t : Turn) (g : Generation) (s : Ledger)
    → validate_id t.id ≡ ok tt
    → Decided request d t s
    → read_generation t.generation_id s ≡ ok g
    → generation_is_dead s g ≡ false
    → s.os.fails s.calls ≡ false
    → (poll_decision t.id request s).0 ≡ ok (some (some d))
unfolding poll_decision ◌>>=◌
poll_decision_lem request d t g s valid decided found alive works =
    let e =
      observe-eq t.id t g valid s decided.stored found works
      ∙ seen_alive t g s decided.live alive in
    rw
      (
        e,
        decided.live,
        decided.request_id,
        eq_refl request,
        decided.decision,
        decision_str-nonempty d,
        parse_decision d,
      )
      refl

-- A decision that `respond` accepts reaches the waiter: in the state after the response, the poll
-- of `wait_pending_decision` for that request returns that decision. The ledger's files are named
-- by the ids in them, the turn has a valid id and a readable generation that lives, and the lock
-- is taken.
pub respond-poll_decision :
    (request : String) (d : ApprovalDecision) (s : Ledger) (t : Turn) (g : Generation)
    → IsKeyed s
    → (respond request d s).0 ≡ ok t
    → validate_id t.id ≡ ok tt
    → read_generation t.generation_id (respond request d s).1 ≡ ok g
    → generation_is_dead (respond request d s).1 g ≡ false
    → (respond request d s).1.os.fails (respond request d s).1.calls ≡ false
    → (poll_decision t.id request (respond request d s).1).0 ≡ ok (some (some d))
respond-poll_decision request d s t g keyed answered valid found alive works =
    poll_decision_lem request d t g (respond request d s).1 valid
      ((respond-Decided request d).at s keyed t answered) found alive works

refused_again :
    (request : String) (d d' : ApprovalDecision) (t : Turn) (s : Ledger)
    → validate_id t.id ≡ ok tt
    → Decided request d t s
    → s.os.fails s.calls ≡ false
    → respond_on request d' t s
      ≡ (err (invalid_status ("duplicate request_id " <> request)), locked s)
unfolding respond_on call ◌>>=◌
refused_again request d d' t s valid decided works =
    rw
      (
        works,
        read_turn_of_Stored t.id t (locked s) valid decided.stored,
        decided.live,
        decided.request_id,
        eq_refl request,
        decided.decision,
        decision_str-nonempty d,
      )
      refl

-- The first response wins: once `respond` has accepted a decision on a request, a second response
-- that finds that turn is refused as a duplicate, whatever it decides, and changes nothing of the
-- ledger but the count of calls, that of the lock; the turn still holds the first decision. The
-- ledger's files are named by the ids in them, the turn has a valid id, and the lock is taken.
pub respond-first_wins :
    (request : String) (d d' : ApprovalDecision) (s : Ledger) (t : Turn)
    → IsKeyed s
    → (respond request d s).0 ≡ ok t
    → validate_id t.id ≡ ok tt
    → (respond request d s).1.os.fails (respond request d s).1.calls ≡ false
    → (respond_on request d' t (respond request d s).1 ≡ (
      err (invalid_status ("duplicate request_id " <> request)),
      locked (respond request d s).1,
    ))
      × Decided request d t (respond_on request d' t (respond request d s).1).1
respond-first_wins request d d' s t keyed answered valid works =
    let u = (respond request d s).1 in
    let decided = (respond-Decided request d).at s keyed t answered in
    let refused = refused_again request d d' t u valid decided works in
    (
      refused,
      record {
        stored = ap (λ p. lookup t.id p.1.turns) refused ∙ decided.stored;
        live = decided.live;
        request_id = decided.request_id;
        decision = decided.decision;
      },
    )
