-- ===== src/Server/Upgrade/Accepted.antt =====
-- What an accepted upgrade has read and written: `read_http_headers` and `upgrade` of
-- crates/gamchi/src/app_server.rs.
use mathlib.Core.List.{append_assoc}
use gamchi.Prelude.{
  ℕ, zero, suc, ◌≤◌, ◌≡◌, refl, sym, ap, subst, ◌∙◌, true, false, String, List, [], ◌∷◌, ◌++◌,
  Option, ok, err, arith, length, Bool-cases, Option-cases, Result, Result-cases, and_then,
  and_then-ok, inl, inr, ◌⊎◌,
}
use gamchi.Prelude.Text.{codes}
use gamchi.Server.Bytes.{Socket, read_exact, split_at, write_all, pure, ◌>>=◌}
use gamchi.Server.Utf8.{as_bytes, ends_with}
use gamchi.Server.Frame.Bound.{bind-ok}
use gamchi.Server.Upgrade.Checked.{Asked, check_upgrade-Asked}
use gamchi.Server.Upgrade.{
  UpgradeReject, method_not_allowed, not_found, bad_request, upgrade_required, headers_too_large,
  write_reject, switching_protocols, max_http_upgrade_bytes, blank_line, read_headers,
  read_http_headers, check_upgrade, write_text, websocket_accept, write_accept, answer, upgrade,
  refused, serve_connection,
}

List-cases {ℓ} :
    {A : Type ℓ} (xs : List A) → (xs ≡ []) ⊎ ((x : A) × (rest : List A) × (xs ≡ x ∷ rest))
List-cases [] = inl refl
List-cases (x ∷ rest) = inr (x, rest, refl)

-- A request that is read, from a buffer and a socket.
abbrev Complete : List ℕ → ℕ → Socket → List ℕ → Socket → Type 0
Complete buf left s req t =
    (more : List ℕ) × (req ≡ buf ++ more)
    × (s.incoming ≡ more ++ t.incoming)
    × (length more ≤ left)
    × (ends_with req blank_line ≡ true)
    × (t.sent ≡ s.sent)

-- One byte that is read before a request is complete.
Complete-push :
    (left : ℕ) (buf req : List ℕ) (b : ℕ) (rest : List ℕ) (s t : Socket)
    → s.incoming ≡ b ∷ rest
    → Complete (buf ++ b ∷ []) left (record s { incoming = rest }) req t
    → Complete buf (suc left) s req t
Complete-push left buf req b rest s t e (more, text, reads, bound, ends, sent) = (
  b ∷ more,
  text ∙ append_assoc buf (b ∷ []) more,
  e ∙ ap (λ xs. b ∷ xs) reads,
  omega arith,
  ends,
  sent,
)

-- The byte that completes a request.
Complete-last :
    (left : ℕ) (buf req : List ℕ) (b : ℕ) (rest : List ℕ) (s t : Socket)
    → s.incoming ≡ b ∷ rest
    → ends_with (buf ++ b ∷ []) blank_line ≡ true
    → buf ++ b ∷ [] ≡ req
    → record s { incoming = rest } ≡ t
    → Complete buf (suc left) s req t
Complete-last left buf req b rest s t e ends same_text same_socket = (
  b ∷ [],
  sym same_text,
  e ∙ ap (λ xs. b ∷ xs) (ap (λ u. u.incoming) same_socket),
  omega arith,
  subst (λ xs. ends_with xs blank_line ≡ true) same_text ends,
  sym (ap (λ u. u.sent) same_socket),
)

read_exact-one :
    (s : Socket) (b : ℕ) (rest : List ℕ)
    → s.incoming ≡ b ∷ rest
    → read_exact 1 s ≡ (ok (b ∷ []), record s { incoming = rest })
read_exact-one s b rest e = rw (read_exact, split_at, e)

read_headers-Complete :
    (left : ℕ) (buf req : List ℕ) (s t : Socket)
    → read_headers left buf s ≡ (ok req, t)
    → Complete buf left s req t
unfolding read_headers
read_headers-Complete zero buf req s t h = cc
read_headers-Complete (suc left) buf req s t h = elim (List-cases s.incoming) [
  | inl e ↦ absurd (cc (rw (read_exact, split_at, e) at h))
  | inr (b, rest, e) ↦
      let one = read_exact-one s b rest e in
      elim (Bool-cases (ends_with (buf ++ b ∷ []) blank_line)) [
        | inl full ↦
            let ends = rw (read_headers, one, full, one) at h in
            Complete-last left buf req b rest s t e full (cc ends) (ap (λ p. p.1) ends)
        | inr short ↦ Complete-push left buf req b rest s t e (
            read_headers-Complete left (buf ++ b ∷ []) req (record s { incoming = rest }) t
              (rw (read_headers, one, short, one) at h))
      ]
]

write_text-ok :
    (text : String) (s t : Socket)
    → write_text text s ≡ (ok tt, t)
    → (t.sent ≡ s.sent ++ as_bytes (codes text)) × (t.incoming ≡ s.incoming)
unfolding write_text
write_text-ok text s t h = elim (Option-cases (s.accepts s.writes)) [
  | inl e ↦
      let same_socket = ap (λ p. p.1) (rw (write_all, e) at h) in
      (sym (ap (λ u. u.sent) same_socket), sym (ap (λ u. u.incoming) same_socket))
  | inr (k, e) ↦ absurd (cc (rw (write_all, e) at h))
]

-- Nothing that is written for a refusal leads to the loop.
no_loop {ℓ} :
    {P : Type ℓ} (reject : UpgradeReject) (s t : Socket)
    → (write_reject reject >>= λ _. pure false) s ≡ (ok true, t)
    → P
no_loop reject s t h =
    bind-ok (write_reject reject) (λ _. pure false) s t true h (λ _ u wrote ends. absurd (cc ends))

refused-ok :
    (r : Result UpgradeReject (Unit {0})) (s t : Socket)
    → refused r s ≡ (ok true, t)
    → (r ≡ ok tt) × (s ≡ t)
refused-ok (ok _) s t h = (refl, ap (λ p. p.1) h)
refused-ok (err method_not_allowed) s t h = no_loop method_not_allowed s t h
refused-ok (err not_found) s t h = no_loop not_found s t h
refused-ok (err bad_request) s t h = no_loop bad_request s t h
refused-ok (err upgrade_required) s t h = no_loop upgrade_required s t h
refused-ok (err headers_too_large) s t h = absurd (cc h)

module _ (decode : List ℕ → Option (List ℕ)) (sha1 : List ℕ → List ℕ)
    (encode : List ℕ → String) where
  -- The answer that takes a key.
  abbrev pub acceptance : List ℕ → List ℕ
  acceptance key =
      as_bytes (codes switching_protocols)
      ++ as_bytes (codes (websocket_accept sha1 encode key))
      ++ as_bytes (codes "\r\n\r\n")

  -- One request is read from the socket, it asks for this key, and only its acceptance is written.
  abbrev pub Upgraded : Socket → Socket → Type 0
  Upgraded s t =
      (req : List ℕ) × (key : List ℕ) × (s.incoming ≡ req ++ t.incoming)
      × (length req ≤ 16384)
      × (ends_with req blank_line ≡ true)
      × Asked decode req key
      × (t.sent ≡ s.sent ++ acceptance key)

  write_accept-ok :
      (key : List ℕ) (s t : Socket)
      → write_accept sha1 encode key s ≡ (ok tt, t)
      → (t.sent ≡ s.sent ++ acceptance key) × (t.incoming ≡ s.incoming)
  unfolding write_accept
  write_accept-ok key s t h =
      let value = websocket_accept sha1 encode key in
      bind-ok (write_text switching_protocols)
        (λ _. write_text value >>= λ _. write_text "\r\n\r\n") s t tt h
        (λ _ u first rest.
          bind-ok (write_text value) (λ _. write_text "\r\n\r\n") u t tt rest
            (λ _ v second third.
              let (sent, left) = write_text-ok switching_protocols s u first in
              let (sent', left') = write_text-ok value u v second in
              let (sent'', left'') = write_text-ok "\r\n\r\n" v t third in
              (
                sent''
                    ∙ ap (λ xs. xs ++ as_bytes (codes "\r\n\r\n"))
                        (sent' ∙ ap (λ xs. xs ++ as_bytes (codes value)) sent)
                    ∙ append_assoc (s.sent ++ as_bytes (codes switching_protocols))
                        (as_bytes (codes value)) (as_bytes (codes "\r\n\r\n"))
                    ∙ append_assoc s.sent (as_bytes (codes switching_protocols))
                        (as_bytes (codes value) ++ as_bytes (codes "\r\n\r\n")),
                left'' ∙ left' ∙ left,
              )))

  answer-ok :
      (r : Result UpgradeReject (List ℕ)) (s t : Socket)
      → answer sha1 encode r s ≡ (ok tt, t)
      → (key : List ℕ) × (r ≡ ok key) × (write_accept sha1 encode key s ≡ (ok tt, t))
  unfolding answer
  answer-ok (err reject) s t h = absurd (cc h)
  answer-ok (ok key) s t h = elim (Result-cases (write_accept sha1 encode key s).0) [
    | inl (_, e) ↦ (key, refl, λ i. (e i, ap (λ p. p.1) (rw e at h) i))
    | inr (x, e) ↦ absurd (cc (rw e at h))
  ]

  -- A connection that comes to the loop, whatever its peer sends: one request was taken from it, of at
  -- most 16384 bytes up to its blank line, and what follows is left. The request gets `/` in HTTP/1.1,
  -- and its headers ask for a WebSocket of version 13 with a key that decodes to 16 bytes. What was
  -- written is the acceptance of that key and nothing else.
  pub serve_connection-Upgraded :
      (s t : Socket) → serve_connection decode sha1 encode s ≡ (ok true, t) → Upgraded s t
  unfolding serve_connection upgrade read_http_headers
  serve_connection-Upgraded s t h =
      let read = read_http_headers s in
      let up = upgrade decode sha1 encode s in
      let (accepts, same) = refused-ok up.0 up.1 t h in
      let (key, checked, writes) =
        answer-ok (and_then read.0 (check_upgrade decode)) read.1 t (λ i. (accepts i, same i)) in
      and_then-ok read.0 (check_upgrade decode) key checked (λ req got asked.
        let (more, whole, takes, bound, ends, quiet) =
          read_headers-Complete max_http_upgrade_bytes [] req s read.1 (λ i. (got i, read.1)) in
        let (sent, left) = write_accept-ok key read.1 t writes in
        (
          req,
          key,
          takes ∙ (λ i. sym whole i ++ sym left i),
          rw whole bound,
          ends,
          check_upgrade-Asked decode req key asked,
          sent ∙ ap (λ xs. xs ++ acceptance key) quiet,
        ))
