-- ===== src/Grok/Permission/Polarity.antt =====
-- The meaning of an answer and of the decision behind it: crates/adapter-grok/src/turn.rs.
use gamchi.Prelude.{
  ℕ, String, ◌≡◌, refl, sym, subst, arith, Bool, true, false, Option, none, some, List, [], ◌∷◌,
  find, get_elem?, find-some, some-inj, inl, inr, Option-cases,
}
use gamchi.Wire.{ApprovalDecision, accept, accept_for_session, decline, cancel}
use gamchi.Grok.Permission.{
  PermissionOptionKind, allow_once, allow_always, reject_once, reject_always, unnamed,
  PermissionOption, same_kind, first_of, decision_option, is_allow, auto_allow_permission, selected,
  cancelled,
}

-- Whether an option of the kind lets the agent go on.
abbrev pub grants : PermissionOptionKind → Option Bool
grants allow_once = some true
grants allow_always = some true
grants reject_once = some false
grants reject_always = some false
grants unnamed = none

-- What the user decided; a cancellation answers nothing.
abbrev pub verdict : ApprovalDecision → Option Bool
verdict accept = some true
verdict accept_for_session = some true
verdict decline = some false
verdict cancel = none

-- An option of the request with the id, and the meaning of the decision.
abbrev pub Offered : List PermissionOption → String → Option Bool → Type 0
Offered options id v =
    (o : PermissionOption) × (i : ℕ) × (get_elem? options i ≡ some o)
    × (o.option_id ≡ id)
    × (grants o.kind ≡ v)

not_found : {id : String} → none ≡ some id → ⊥
not_found e = cc

not_selected : {id : String} → cancelled ≡ selected id → ⊥
not_selected e = cc

same_id : {a b : String} → selected a ≡ selected b → a ≡ b
same_id e = cc

same_kind-grants : (a b : PermissionOptionKind) → same_kind a b ≡ true → grants a ≡ grants b
same_kind-grants a b h = ground arith

find-Offered :
    (options : List PermissionOption) (want : PermissionOptionKind) {o : PermissionOption}
    → find (λ p. same_kind p.kind want) options ≡ some o
    → Offered options o.option_id (grants want)
find-Offered options want {o} h =
    let (i, stands, same) = find-some (λ p. same_kind p.kind want) options h in
    (o, i, stands, refl, same_kind-grants o.kind want same)

first_of-Offered :
    (a b : PermissionOptionKind) (options : List PermissionOption) {id : String}
    → grants a ≡ grants b
    → first_of (a ∷ b ∷ []) options ≡ some id
    → Offered options id (grants a)
unfolding first_of
first_of-Offered a b options {id} e h =
    elim (Option-cases (find (λ p. same_kind p.kind a) options)) [
      | inr (o, found) ↦
          subst (λ x. Offered options x (grants a)) (some-inj (rw (first_of, found) at h))
            (find-Offered options a found)
      | inl missing ↦ elim (Option-cases (find (λ p. same_kind p.kind b) options)) [
        | inr (o, found) ↦
            subst (λ x. Offered options x (grants a))
              (some-inj (rw (first_of, missing, first_of, found) at h))
              (subst (Offered options o.option_id) (sym e) (find-Offered options b found))
        | inl gone ↦ elim (not_found (rw (first_of, missing, first_of, gone) at h)) [ ]
      ]
    ]

-- An option that the adapter selects for a user's decision is one of the request's, and the decision
-- lets the agent go on or stops it, as the option does; for a cancellation none is selected.
pub decision_option-Offered :
    (options : List PermissionOption) (decision : ApprovalDecision) {id : String}
    → decision_option options decision ≡ some id
    → (b : Bool) × (verdict decision ≡ some b) × Offered options id (some b)
unfolding decision_option first_of
decision_option-Offered options accept h =
    (true, refl, first_of-Offered allow_once allow_always options refl h)
decision_option-Offered options accept_for_session h =
    (true, refl, first_of-Offered allow_always allow_once options refl h)
decision_option-Offered options decline h =
    (false, refl, first_of-Offered reject_once reject_always options refl h)
decision_option-Offered options cancel h = cc

is_allow-grants : (k : PermissionOptionKind) → is_allow k ≡ true → grants k ≡ some true
is_allow-grants k h = ground arith

-- What the adapter selects by itself is one of the request's options, and lets the agent go on.
pub auto_allow_permission-Offered :
    (options : List PermissionOption) {id : String}
    → (auto_allow_permission options).0 ≡ selected id
    → Offered options id (some true)
unfolding auto_allow_permission
auto_allow_permission-Offered options {id} h =
    elim (Option-cases (find (λ o. is_allow o.kind) options)) [
      | inl missing ↦ elim (not_selected (rw (auto_allow_permission, missing) at h)) [ ]
      | inr (o, found) ↦
          let (i, stands, allowed) = find-some (λ p. is_allow p.kind) options found in
          (
            o,
            i,
            stands,
            same_id (rw (auto_allow_permission, found) at h),
            is_allow-grants o.kind allowed,
          )
    ]
