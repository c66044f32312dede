-- ===== src/Server/Loop/InOrder.antt =====
-- Requests and their replies, in order: `rpc_loop` of crates/gamchi/src/app_server.rs.
use mathlib.Core.List.{append_assoc, append-nil}
use gamchi.Prelude.{
  ℕ, ◌≡◌, refl, sym, ap, subst, ◌⊎◌, ◌∙◌, String, ◌==◌, Bool, true, false, List, [], ◌∷◌, ◌++◌,
  Option, none, some, any, Bool-cases, Option-cases, inl, inr, if◌then◌else◌,
}
use gamchi.Prelude.Json.{Value, get, text_in}
use gamchi.Ledger.State.{Ledger}
use gamchi.Grok.Teardown.{Children}
use gamchi.Ops.Host.{Host}
use gamchi.Server.Connection.{
  Conn, write_locked, deliver_pending, deliver_id, Followup, nothing, note, watch, started_note,
  to_watch, after_method, or_blank, after_rpc,
}
use gamchi.Server.Rpc.Handle.{handle_named, handle_rpc}
use gamchi.Server.Rpc.Handle.Shape.{handle_rpc-Replies}
use gamchi.Server.Loop.{
  Session, follow, after_write, send_reply, on_call, on_message, or_stop, rpc_loop,
}

abbrev as_list : Option Value → List Value
as_list none = []
as_list (some id) = id ∷ []

-- The ids of the messages that have one: the replies, among what the loop sends.
abbrev pub ids : List Value → List Value
ids [] = []
ids (message ∷ messages) = as_list (get message "id") ++ ids messages

abbrev asked_by : Option String → Value → List Value
asked_by none msg = []
asked_by (some method) msg = as_list (get msg "id")

abbrev asked_one : Option Value → List Value
asked_one none = []
asked_one (some msg) = asked_by (text_in (get msg "method")) msg

-- The ids of the messages that have a method.
abbrev pub asked : List (Option Value) → List Value
asked [] = []
asked (message ∷ messages) = asked_one message ++ asked messages

abbrev Quiet : Followup → Type 0
Quiet nothing = Unit
Quiet (note message) = get message "id" ≡ none
Quiet (watch thread_id turn_id) = Unit

Quiet-started_note : (id : Option String) → Quiet (started_note id)
Quiet-started_note none = tt
Quiet-started_note (some id) = refl

Quiet-to_watch : (turn thread : Option String) → Quiet (to_watch turn thread)
Quiet-to_watch none thread = tt
Quiet-to_watch (some turn) none = tt
Quiet-to_watch (some turn) (some thread) = tt

Quiet-if : (b : Bool) (x y : Followup) → Quiet x → Quiet y → Quiet (if b then x else y)
Quiet-if true x y p q = p
Quiet-if false x y p q = q

Quiet-after_method : (method : String) (req reply : Value) → Quiet (after_method method req reply)
Quiet-after_method method req reply =
    Quiet-if (method == "thread/start") _ _ (Quiet-started_note _)
      (Quiet-if (method == "turn/start") _ _ (Quiet-to_watch _ _) tt)

after_rpc-cases :
    (req reply : Value)
    → (after_rpc req reply ≡ nothing)
      ⊎ (after_rpc req reply ≡ after_method (or_blank (text_in (get req "method"))) req reply)
unfolding after_rpc
after_rpc-cases req reply = elim (Option-cases (get reply "error")) [
  | inl e ↦ inr (rw (after_rpc, e))
  | inr (x, e) ↦ inl (rw (after_rpc, e))
]

Quiet-after_rpc : (req reply : Value) → Quiet (after_rpc req reply)
Quiet-after_rpc req reply = elim (after_rpc-cases req reply) [
  | inl e ↦ subst Quiet (sym e) tt
  | inr e ↦
      subst Quiet (sym e) (Quiet-after_method (or_blank (text_in (get req "method"))) req reply)
]

ids-append : (xs ys : List Value) → ids (xs ++ ys) ≡ ids xs ++ ids ys
ids-append [] ys = refl
ids-append (x ∷ xs) ys =
    ap (λ zs. as_list (get x "id") ++ zs) (ids-append xs ys)
    ∙ sym (append_assoc (as_list (get x "id")) (ids xs) (ids ys))

-- The session goes on, its connection takes every write still, and these ids were added.
abbrev Adds : Bool × Session → List Value → Session → Type 0
Adds (goes_on, t) more se =
    (goes_on ≡ true)
    × ((n : ℕ) → t.conn.refuses n ≡ false)
    × (ids t.conn.sent ≡ ids se.conn.sent ++ more)

abbrev Writable : Session → Type 0
Writable se = (n : ℕ) → se.conn.refuses n ≡ false

-- The part of the connection that `Adds` looks at is the same.
abbrev SameSent : Conn → Conn → Type 0
SameSent io was = (io.refuses ≡ was.refuses) × (io.sent ≡ was.sent)

Adds-none : (se t : Session) → Writable se → SameSent t.conn se.conn → Adds (true, t) [] se
Adds-none se t w (refuses, sent) =
    (refl, λ n. ap (λ f. f n) refuses ∙ w n, ap ids sent ∙ sym (append-nil (ids se.conn.sent)))

SameSent-deliver_pending :
    (print : Value → String) (msg : Value) (io : Conn) → SameSent (deliver_pending print msg io) io
unfolding deliver_pending deliver_id
SameSent-deliver_pending print msg io = elim (Option-cases (get msg "id")) [
  | inl e ↦ rw (deliver_pending, e) (refl, refl)
  | inr (id, e) ↦ elim (Bool-cases (any (λ k. k == print id) io.waiting)) [
    | inl waits ↦ rw (deliver_pending, e, deliver_id, waits) (refl, refl)
    | inr gone ↦ rw (deliver_pending, e, deliver_id, gone) (refl, refl)
  ]
]

Adds-trans :
    (x y : Bool × Session) (more later : List Value) (se : Session)
    → Adds x more se
    → Adds y later x.1
    → Adds y (more ++ later) se
Adds-trans x y more later se (_, _, first) (goes, w, second) =
    (goes, w, second ∙ ap (λ xs. xs ++ later) first ∙ append_assoc (ids se.conn.sent) more later)

-- A message is written, with its id if it has one.
write_locked-Adds :
    (message : Value) (se : Session)
    → Writable se
    → (write_locked message se.conn).0 ≡ true
      × Adds
          (true, record se { conn = (write_locked message se.conn).1 })
          (as_list (get message "id"))
          se
unfolding write_locked
write_locked-Adds message se w = rw (w se.conn.writes) (
  refl,
  (
    refl,
    w,
    ids-append se.conn.sent (message ∷ [])
        ∙ ap (λ xs. ids se.conn.sent ++ xs) (append-nil (as_list (get message "id"))),
  ),
)

follow-Adds : (f : Followup) (se : Session) → Quiet f → Writable se → Adds (true, follow f se) [] se
unfolding follow
follow-Adds nothing se q w = Adds-none se se w (refl, refl)
follow-Adds (watch thread_id turn_id) se q w =
    Adds-none se (follow (watch thread_id turn_id) se) w (refl, refl)
follow-Adds (note message) se q w =
    subst (λ id. Adds (true, record se { conn = (write_locked message se.conn).1 }) (as_list id) se)
      q (write_locked-Adds message se w).1

send_reply-Adds :
    (msg reply : Value) (se : Session)
    → Writable se
    → Adds (send_reply msg (some reply) se) (as_list (get reply "id")) se
send_reply-Adds msg reply se w =
    let (wrote, adds) = write_locked-Adds reply se w in
    let sent = record se { conn = (write_locked reply se.conn).1 } in
    let follows = follow-Adds (after_rpc msg reply) sent (Quiet-after_rpc msg reply) adds.1 in
    let more = as_list (get reply "id") in
    let total =
      Adds-trans (true, sent) (true, follow (after_rpc msg reply) sent) more [] se adds follows in
    subst (λ ok. Adds (after_write msg reply (ok, sent.conn) se) more se) (sym wrote)
      (subst (λ xs. Adds (true, follow (after_rpc msg reply) sent) xs se) (append-nil more) total)

module _ (host : Host) (models : Option Value) (home : String) (print : Value → String) where
  handle_rpc-no_id :
      (method : String) (msg : Value) (s : Ledger) (c : Children)
      → text_in (get msg "method") ≡ some method
      → get msg "id" ≡ none
      → (handle_rpc host models home msg s c).0 ≡ none
  unfolding handle_rpc handle_named
  handle_rpc-no_id method msg s c named unnumbered = rw (named, unnumbered) refl

  on_call-Adds :
      (method : String) (msg : Value) (se : Session)
      → text_in (get msg "method") ≡ some method
      → Writable se
      → Adds (on_call host models home print msg se) (as_list (get msg "id")) se
  on_call-Adds method msg se named w =
      let out = handle_rpc host models home msg se.ledger se.children in
      let after = record se { ledger = out.1; children = out.2 } in
      elim (Option-cases (get msg "id")) [
        | inl e ↦
            let quiet = handle_rpc-no_id method msg se.ledger se.children named e in
            subst (λ id. Adds (send_reply msg out.0 after) (as_list id) se) (sym e)
              (subst (λ r. Adds (send_reply msg r after) [] se) (sym quiet)
                (Adds-none se after w (refl, refl)))
        | inr (id, e) ↦
            let (reply, is_reply, same, _) =
              handle_rpc-Replies host models home method msg id se.ledger se.children named e in
            subst (λ x. Adds (send_reply msg out.0 after) (as_list x) se) (same ∙ sym e)
              (subst (λ r. Adds (send_reply msg r after) (as_list (get reply "id")) se)
                (sym is_reply) (send_reply-Adds msg reply after w))
      ]

  on_message-Adds :
      (message : Option Value) (se : Session)
      → Writable se
      → Adds (on_message host models home print message se) (asked_one message) se
  unfolding on_message
  on_message-Adds none se w = Adds-none se se w (refl, refl)
  on_message-Adds (some msg) se w = elim (Option-cases (text_in (get msg "method"))) [
    | inl e ↦
        rw (on_message, asked_by, e)
          (Adds-none se (record se { conn = deliver_pending print msg se.conn }) w
            (SameSent-deliver_pending print msg se.conn))
    | inr (method, e) ↦ rw (on_message, asked_by, e) (on_call-Adds method msg se e w)
  ]

  rpc_loop-Adds :
      (messages : List (Option Value)) (se : Session)
      → Writable se
      → Adds (rpc_loop host models home print messages se) (asked messages) se
  unfolding rpc_loop
  rpc_loop-Adds [] se w = Adds-none se se w (refl, refl)
  rpc_loop-Adds (message ∷ messages) se w =
      let step = on_message host models home print message se in
      let (goes, writable, more) = on_message-Adds message se w in
      let later = rpc_loop-Adds messages step.1 writable in
      subst
        (λ ok.
          Adds (or_stop ok step.1 (rpc_loop host models home print messages step.1))
            (asked (message ∷ messages)) se)
        (sym goes)
        (Adds-trans step (rpc_loop host models home print messages step.1) (asked_one message)
          (asked messages) se (goes, writable, more) later)

  -- Whatever messages come and whatever the state is, where no write fails the loop goes on to the
  -- end of the messages, and the ids in what it sends are, in order, those of the messages that have
  -- a method and an id, each one once.
  pub rpc_loop-in_order :
      (messages : List (Option Value)) (se : Session)
      → ((n : ℕ) → se.conn.refuses n ≡ false)
      → ((rpc_loop host models home print messages se).0 ≡ true)
        × (ids (rpc_loop host models home print messages se).1.conn.sent
            ≡ ids se.conn.sent ++ asked messages)
  rpc_loop-in_order messages se w =
      let (goes, _, sent) = rpc_loop-Adds messages se w in (goes, sent)
