-- ===== src/Ledger/Methods.antt =====
-- How the remaining methods, but for the admission, change the turn files.
use gamchi.Prelude.{ℕ, String, ◌≡◌, refl, false, Option, none, some, inr, List, [], ◌∷◌, arith}
use gamchi.Wire.{Generation, Turn, Item, ApprovalDecision, is_terminal}
use gamchi.Ledger.State.{Ledger}
use gamchi.Ledger.Exec.{modify}
use gamchi.Ledger.Evolve.{SameFiles, Succ, Succ-of_live}
use gamchi.Ledger.Keeps.{
  Keeps, Keeps-bind, Keeps-reads, Keeps-pure, Keeps-raise, Keeps-locked, Quiet, Quiet-modify,
}
use gamchi.Ledger.Safety.{ledger_rules, Keeps-observe}
use gamchi.Ledger.Admit.{NewThread, create_thread, turn_json_paths}
use gamchi.Ledger.Listing.{runs_in, converged, collect_turns, list_turns}
use gamchi.Ledger.Approval.{
  park_approval, turn_by_pending_request, respond_on, respond_named, respond, clear_pending,
}
use gamchi.Ledger.Items.{upsert_item, set_acp_session_id, set_child_pid, wake_owner, mark_child_eof}

Keeps-turn_json_paths : Keeps turn_json_paths
unfolding turn_json_paths
Keeps-turn_json_paths = search ledger_rules

Keeps-runs_in : (cwd : Option String) (t : Turn) → Keeps (runs_in cwd t)
unfolding runs_in
Keeps-runs_in none t = search ledger_rules
Keeps-runs_in (some cwd) t = search ledger_rules

Keeps-converged : (t : Turn) → Keeps (converged t)
unfolding converged
Keeps-converged t = search (ledger_rules, Keeps-observe)

Keeps-collect_turns : (cwd : Option String) (stems : List String) → Keeps (collect_turns cwd stems)
unfolding collect_turns
Keeps-collect_turns cwd [] = search ledger_rules
Keeps-collect_turns cwd (stem ∷ stems) = Keeps-bind (Keeps-reads _) λ found.
    Keeps-bind (Keeps-converged found) λ turn.
      Keeps-bind (Keeps-runs_in cwd turn)
        λ keep. Keeps-bind (Keeps-collect_turns cwd stems) λ rest. Keeps-pure _

pub Keeps-list_turns : (cwd : Option String) → Keeps (list_turns cwd)
unfolding list_turns
Keeps-list_turns cwd = search (ledger_rules, Keeps-turn_json_paths, Keeps-collect_turns) depth 12

park-Succ :
    (t : Turn) (request decision : String)
    → is_terminal t.status ≡ false
    → Succ t (record t { pending_request_id = request; pending_decision = decision })
park-Succ t request decision live = Succ-of_live t _ refl refl refl refl live

decide-Succ :
    (t : Turn) (decision : String)
    → is_terminal t.status ≡ false
    → Succ t (record t { pending_decision = decision })
decide-Succ t decision live = Succ-of_live t _ refl refl refl refl live

clear-Succ : (t : Turn) → Succ t (record t { pending_request_id = ""; pending_decision = "" })
clear-Succ t = record {
  id = refl;
  thread_id = refl;
  generation_id = refl;
  client_request_id = refl;
  final = λ h. inr refl;
}

items-Succ :
    (t : Turn) (items : List Item)
    → is_terminal t.status ≡ false
    → Succ t (record t { items = items })
items-Succ t items live = Succ-of_live t _ refl refl refl refl live

ruleset succ_rules = (ledger_rules, park-Succ, decide-Succ, clear-Succ, items-Succ)

pub Keeps-park_approval : (id : String) → Keeps (park_approval id)
unfolding park_approval
Keeps-park_approval id = Keeps-locked id _ λ t. search succ_rules depth 12

Keeps-respond_on :
    (request : String) (d : ApprovalDecision) (t : Turn) → Keeps (respond_on request d t)
unfolding respond_on
Keeps-respond_on request d t = search succ_rules depth 16

pub Keeps-turn_by_pending_request : (request : String) → Keeps (turn_by_pending_request request)
unfolding turn_by_pending_request
Keeps-turn_by_pending_request request = search (ledger_rules, Keeps-list_turns)

Keeps-respond_named :
    (request : String) (d : ApprovalDecision) (o : Option Turn) → Keeps (respond_named request d o)
unfolding respond_named
Keeps-respond_named request d none = Keeps-raise _
Keeps-respond_named request d (some t) = Keeps-respond_on request d t

pub Keeps-respond : (request : String) (d : ApprovalDecision) → Keeps (respond request d)
unfolding respond
Keeps-respond request d = search (ledger_rules, Keeps-turn_by_pending_request, Keeps-respond_named)

pub Keeps-clear_pending : (id request : String) → Keeps (clear_pending id request)
unfolding clear_pending
Keeps-clear_pending id request = Keeps-locked id _ λ t. search succ_rules depth 12

pub Keeps-upsert_item : (id : String) (item : Item) → Keeps (upsert_item id item)
unfolding upsert_item
Keeps-upsert_item id item = search succ_rules depth 16

pub Keeps-set_acp_session_id : (id session : String) → Keeps (set_acp_session_id id session)
unfolding set_acp_session_id
Keeps-set_acp_session_id id session = search ledger_rules depth 12

pub Keeps-set_child_pid : (id : String) (pid : ℕ) → Keeps (set_child_pid id pid)
unfolding set_child_pid
Keeps-set_child_pid id pid = search ledger_rules depth 12

wake_owner-quiet : (g : Generation) (s : Ledger) → SameFiles s (wake_owner g s)
wake_owner-quiet g s = ground arith

Quiet-wake_owner : (g : Generation) → Quiet (modify (wake_owner g))
Quiet-wake_owner g = Quiet-modify (wake_owner g) (wake_owner-quiet g)

pub Keeps-mark_child_eof : (id : String) → Keeps (mark_child_eof id)
unfolding mark_child_eof
Keeps-mark_child_eof id = search (ledger_rules, Quiet-wake_owner) depth 14

pub Keeps-create_thread : (spec : NewThread) → Keeps (create_thread spec)
unfolding create_thread
Keeps-create_thread spec = search ledger_rules depth 12
