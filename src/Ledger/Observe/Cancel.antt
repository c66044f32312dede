-- ===== src/Ledger/Observe/Cancel.antt =====
-- What `cancel` of crates/core/src/ledger.rs returns and stores.
use gamchi.Prelude.{
  ℕ, suc, String, ◌≡◌, refl, ◌∙◌, ap, inl, inr, true, false, Bool-cases, arith, ok, if◌then◌else◌,
}
use gamchi.Wire.{Turn, Generation, interrupted, failed, is_terminal, failure_worker_gone}
use gamchi.Ledger.Ids.{validate_id}
use gamchi.Ledger.State.{Ledger, Os}
use gamchi.Ledger.Exec.{Exec, pure, ◌>>=◌, call}
use gamchi.Ledger.Files.{read_generation}
use gamchi.Ledger.Live.{generation_is_dead, owner_instance_alive}
use gamchi.Ledger.Evolve.{Stored, IsKeyed}
use gamchi.Ledger.Keeps.{Keeps-of_Quiet, Quiet-call}
use gamchi.Ledger.Post.{Post, Post-pure, Post-reads, Post-if, Post-bind, Post-IsKeyed}
use gamchi.Ledger.Safety.{Keeps-observe_locked, observe_locked-Stored, publish-Stored}
use gamchi.Ledger.Observe.{finish_turn, publish_terminal_locked, observe_locked, observe, cancel}
use gamchi.Ledger.Observe.Converge.{
  read_turn_of_Stored, publish-eq, converged, locked, observe_locked-eq,
}

abbrev Returned : String → Turn → Ledger → Type 0
Returned id t s = IsKeyed s × Stored id t s

observe_locked-Returned : (id : String) → Post IsKeyed (observe_locked id) (Returned id)
observe_locked-Returned id = record {
  at = λ s k t e.
      ((((Keeps-observe_locked id).at s).safe k).0, (observe_locked-Stored id).at s k t e);
}

-- The turn that `observe` returns is the one in its file.
pub observe-Stored : (id : String) → Post IsKeyed (observe id) (Stored id)
unfolding observe
observe-Stored id = Post-bind {R = λ u. IsKeyed} (Post-reads _ (λ s k a e. k)) λ u.
    Post-bind {R = λ t. IsKeyed} (Post-reads _ (λ s k a e. k)) λ t.
      Post-bind {R = λ u. IsKeyed} (Post-IsKeyed (Keeps-of_Quiet Quiet-call))
        λ u. observe_locked-Stored id

cut_short :
    (t : Turn) (s : Ledger) (u : Turn)
    → is_terminal t.status ≡ false
    → (publish_terminal_locked t interrupted "cancelled" "" s).0 ≡ ok u
    → is_terminal u.status ≡ true
cut_short t s u live e = ground (arith, publish-eq t interrupted "cancelled" "" s live)

cancel-Stored :
    (id : String) → Post IsKeyed (cancel id) (λ t s. (is_terminal t.status ≡ true) × Stored id t s)
unfolding cancel
cancel-Stored id = Post-bind {R = λ u. IsKeyed} (Post-reads _ (λ s k a e. k)) λ u.
    Post-bind {R = λ t. IsKeyed} (Post-reads _ (λ s k a e. k)) λ t.
      Post-bind {R = λ u. IsKeyed} (Post-IsKeyed (Keeps-of_Quiet Quiet-call)) λ u.
        Post-bind {R = Returned id} (observe_locked-Returned id) λ t.
          Post-if (is_terminal t.status) (λ e. Post-pure t (λ s h. (e, h.1)))
            λ live. record {
              at = λ s h u e. (
                cut_short t s u live e,
                (publish-Stored id t interrupted "cancelled" "").at s h u e,
              );
            }

-- The turn that `cancel` returns is terminal, and is the one in its file, if the turn files are
-- named by the ids in them.
pub cancel-stores :
    (id : String) (s : Ledger) (t : Turn)
    → IsKeyed s
    → (cancel id s).0 ≡ ok t
    → (is_terminal t.status ≡ true) × Stored id t (cancel id s).1
cancel-stores id s t keyed = (cancel-Stored id).at s keyed t

-- The answer of `cancel` when no call fails.
abbrev pub cancelled : Turn → Generation → Ledger → Turn
cancelled t g s =
    if is_terminal t.status
    then t
    else if generation_is_dead s g
    then finish_turn t failed "" failure_worker_gone
    else finish_turn t interrupted "cancelled" ""

-- No file-system call fails.
abbrev pub Works : Ledger → Type 0
Works s = (n : ℕ) → s.os.fails n ≡ false

module _ (id : String) (t : Turn) (g : Generation) (s : Ledger) (valid : validate_id id ≡ ok tt)
    (keyed : IsKeyed s) (stored : Stored id t s) (found : read_generation t.generation_id s ≡ ok g)
    (works : Works s) where
  abbrev after : Ledger
  after = (observe_locked id (locked s)).1

  after-Works : Works after
  after-Works n =
      let quiet : IsKeyed (locked s) = record { keyed = keyed.keyed } in
      let e = (((Keeps-observe_locked id).at (locked s)).safe quiet).1.same_os in
      ap (λ (o : Os). o.fails n) e ∙ works n

  rest : Turn → Exec Turn
  rest turn =
      if is_terminal turn.status
      then pure turn
      else publish_terminal_locked turn interrupted "cancelled" ""

  rest-eq :
      (u : Turn)
      → (rest u after).0
        ≡ ok (if is_terminal u.status then u else finish_turn u interrupted "cancelled" "")
  unfolding rest
  rest-eq u = elim (Bool-cases (is_terminal u.status)) [
    | inl e ↦ rw e refl
    | inr e ↦
        rw e (publish-eq u interrupted "cancelled" "" after e ∙ rw (after-Works after.calls) refl)
  ]

  -- The turn that `cancel` finds under the lock.
  abbrev seen : Turn
  seen =
      if is_terminal t.status
      then t
      else if generation_is_dead s g
      then finish_turn t failed "" failure_worker_gone
      else t

  converged-works : converged t g (locked s) ≡ ok seen
  unfolding generation_is_dead owner_instance_alive
  converged-works = rw (works (suc s.calls)) (ground arith)

  first-eq : (observe_locked id (locked s)).0 ≡ ok seen
  unfolding read_generation
  first-eq = observe_locked-eq id t g valid (locked s) stored found ∙ converged-works

  settled :
      (if is_terminal seen.status then seen else finish_turn seen interrupted "cancelled" "")
      ≡ cancelled t g s
  settled = ground arith

  -- `cancel` on a stored turn of a valid id whose generation can be read, when no call fails and
  -- the turn files are named by the ids in them: a
  -- terminal turn is returned as it is; one with a dead generation becomes failed with the reason
  -- worker_gone; any other becomes interrupted.
  pub cancel-eq : (cancel id s).0 ≡ ok (cancelled t g s)
  unfolding cancel call rest ◌>>=◌
  cancel-eq =
      rw (valid, read_turn_of_Stored id t s valid stored, works s.calls, first-eq)
        (rest-eq seen ∙ ap (λ (u : Turn). ok u) settled)
