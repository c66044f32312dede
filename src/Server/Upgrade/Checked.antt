-- ===== src/Server/Upgrade/Checked.antt =====
-- What a request that passes has: `upgrade` of crates/gamchi/src/app_server.rs up to its key.
use gamchi.Prelude.{
  ℕ, ◌≡◌, refl, ◌∙◌, true, List, [], ◌∷◌, Option, none, some, ok, and_then, and_then-ok, nat_eq,
  nat_eq_iff, Bool-cases, inl, inr,
}
use gamchi.Prelude.Text.{codes}
use gamchi.Server.Utf8.{same}
use gamchi.Server.Upgrade.{
  HeaderMap, parse_request_line, parse_header_map, header, eq_ignore, connection_has_upgrade,
  is_version_13, valid_websocket_key, check_key, check_headers, check_request, check_upgrade,
}

same→eq : (s q : List ℕ) → same s q ≡ true → s ≡ q
same→eq [] [] h = refl
same→eq [] (d ∷ q) h = absurd (cc h)
same→eq (c ∷ s) [] h = absurd (cc h)
same→eq (c ∷ s) (d ∷ q) h = elim (Bool-cases (nat_eq c d)) [
  | inl e ↦ λ i. (nat_eq_iff c d).0 e i ∷ same→eq s q (rw e at h) i
  | inr ne ↦ absurd (cc (rw ne at h))
]

module _ (decode : List ℕ → Option (List ℕ)) where
  -- The headers ask for a WebSocket of version 13 with this key.
  abbrev pub Offered : HeaderMap → List ℕ → Type 0
  Offered headers key =
      (eq_ignore headers "upgrade" "websocket" ≡ true)
      × (connection_has_upgrade headers ≡ true)
      × (header headers "sec-websocket-key" ≡ some key)
      × (valid_websocket_key decode key ≡ true)
      × (is_version_13 (header headers "sec-websocket-version") ≡ true)

  -- The request gets `/` with such headers.
  abbrev pub Asked : List ℕ → List ℕ → Type 0
  Asked req key =
      (parse_request_line req ≡ ok (codes "GET", codes "/", codes "HTTP/1.1"))
      × ((headers : HeaderMap) × (parse_header_map req ≡ ok headers) × Offered headers key)

  check_key-ok :
      (headers : HeaderMap) (found : Option (List ℕ)) (key : List ℕ)
      → check_key decode headers found ≡ ok key
      → (found ≡ some key)
        × (valid_websocket_key decode key ≡ true)
        × (is_version_13 (header headers "sec-websocket-version") ≡ true)
  unfolding check_key
  check_key-ok headers none key h = absurd (cc h)
  check_key-ok headers (some k) key h = elim (Bool-cases (valid_websocket_key decode k)) [
    | inl valid ↦ elim (Bool-cases (is_version_13 (header headers "sec-websocket-version"))) [
      | inl right ↦ (cc (rw (valid, right) at h), cc (rw (valid, right) at h), right)
      | inr wrong ↦ absurd (cc (rw (valid, wrong) at h))
    ]
    | inr invalid ↦ absurd (cc (rw invalid at h))
  ]

  check_headers-Offered :
      (headers : HeaderMap) (key : List ℕ)
      → check_headers decode headers ≡ ok key
      → Offered headers key
  unfolding check_headers
  check_headers-Offered headers key h =
      elim (Bool-cases (eq_ignore headers "upgrade" "websocket")) [
        | inl named ↦ elim (Bool-cases (connection_has_upgrade headers)) [
          | inl asked ↦
              let (found, valid, version) =
                check_key-ok headers (header headers "sec-websocket-key") key
                  (rw (named, asked) at h) in
              (named, asked, found, valid, version)
          | inr other ↦ absurd (cc (rw (named, other) at h))
        ]
        | inr other ↦ absurd (cc (rw other at h))
      ]

  check_request-parts :
      (req method target version key : List ℕ)
      → check_request decode req (method, target, version) ≡ ok key
      → (method ≡ codes "GET")
        × (target ≡ codes "/")
        × (version ≡ codes "HTTP/1.1")
        × (and_then (parse_header_map req) (check_headers decode) ≡ ok key)
  unfolding check_request
  check_request-parts req method target version key h =
      elim (Bool-cases (same method (codes "GET"))) [
        | inr other ↦ absurd (cc (rw other at h))
        | inl get ↦ elim (Bool-cases (same version (codes "HTTP/1.1"))) [
          | inr other ↦ absurd (cc (rw (get, other) at h))
          | inl http ↦ elim (Bool-cases (same target (codes "/"))) [
            | inr other ↦ absurd (cc (rw (get, http, other) at h))
            | inl slash ↦ (
              same→eq method (codes "GET") get,
              same→eq target (codes "/") slash,
              same→eq version (codes "HTTP/1.1") http,
              rw (get, http, slash) at h,
            )
          ]
        ]
      ]

  pub check_upgrade-Asked : (req key : List ℕ) → check_upgrade decode req ≡ ok key → Asked req key
  unfolding check_upgrade
  check_upgrade-Asked req key h =
      and_then-ok (parse_request_line req) (check_request decode req) key h
        (λ (method, target, version) line checks.
          let (get, root, http, rest) = check_request-parts req method target version key checks in
          and_then-ok (parse_header_map req) (check_headers decode) key rest
            (λ headers parsed offers. (
              line ∙ (λ i. ok (get i, root i, http i)),
              (headers, parsed, check_headers-Offered headers key offers),
            )))
