-- ===== src/Grok/Defaults/Frozen.antt =====
-- The frozen model of a thread: the first turn's resolution and the follow-ups' of
-- crates/adapter-grok/src/defaults.rs, one after the other.
use gamchi.Prelude.{
  ◌≡◌, refl, sym, ap, ◌∙◌, subst, false, String, ◌==◌, eq_iff, inl, inr, Option, none, some, Result,
  ok, err, and_then, Bool-cases,
}
use gamchi.Prelude.Text.{is_empty, trim}
use gamchi.Grok.Defaults.{
  HomeDefaults, ResolveError, builtin_model, builtin_effort, grok_alias, present_field,
  normalize_present, resolve_layer, resolve_first_turn, follow_up_model, follow_up_effort,
  resolve_follow_up,
}
use gamchi.Grok.Defaults.Trim.{trim-trim}

abbrev pub IsNormal : String → Type 0
IsNormal m = normalize_present m ≡ ok m

ok-same : {A : Type 0} {a b : A} → ◌≡◌ {A = Result ResolveError A} (ok a) (ok b) → a ≡ b
ok-same h = cc

bad : {A : Type 0} {e : ResolveError} {a : A} → ◌≡◌ {A = Result ResolveError A} (err e) (ok a) → ⊥
bad h = cc

normalize_present-IsNormal : (raw : String) {m : String} → normalize_present raw ≡ ok m → IsNormal m
unfolding normalize_present
normalize_present-IsNormal raw {m} h = elim (Bool-cases (is_empty (trim raw))) [
  | inl blank ↦ elim (bad (rw blank at h)) [ ]
  | inr solid ↦ elim (Bool-cases (trim raw == grok_alias)) [
    | inl alias ↦ subst IsNormal (ok-same (rw (solid, alias) at h)) refl
    | inr named ↦
        subst IsNormal (ok-same (rw (solid, named) at h))
          (rw (normalize_present, trim-trim raw, solid, named))
  ]
]

resolve_layer-IsNormal :
    (explicit config : Option String) (builtin : String) {m : String}
    → IsNormal builtin
    → resolve_layer explicit config builtin ≡ ok m
    → IsNormal m
unfolding resolve_layer
resolve_layer-IsNormal (some value) config builtin n h = normalize_present-IsNormal value h
resolve_layer-IsNormal none (some value) builtin n h = normalize_present-IsNormal value h
resolve_layer-IsNormal none none builtin n h = subst IsNormal (ok-same h) n

-- A chain that came out well has a first step that did.
and_then-ok :
    {A B : Type 0} (r : Result ResolveError A) (f : A → Result ResolveError B) {b : B}
    → and_then r f ≡ ok b
    → (a : A) × (r ≡ ok a) × (f a ≡ ok b)
and_then-ok (ok a) f h = (a, refl, h)
and_then-ok (err e) f h = elim (bad h) [ ]

resolve_first_turn-IsNormal :
    (model effort : String) (d : HomeDefaults) {m e : String}
    → resolve_first_turn model effort d ≡ ok (m, e)
    → IsNormal m
unfolding resolve_first_turn normalize_present
resolve_first_turn-IsNormal model effort d {m} {e} h =
    let (a, first, rest) =
      and_then-ok (resolve_layer (present_field model) d.default_model builtin_model) _ h in
    let (b, second, same) =
      and_then-ok (resolve_layer (present_field effort) d.default_effort builtin_effort) _ rest in
    subst IsNormal (ap (λ p. p.0) (ok-same same))
      (resolve_layer-IsNormal (present_field model) d.default_model builtin_model refl first)

follow_up_model-frozen :
    (requested : Option String) (frozen : String) {m : String}
    → follow_up_model requested frozen ≡ ok m
    → m ≡ frozen
unfolding follow_up_model
follow_up_model-frozen none frozen h = sym (ok-same h)
follow_up_model-frozen (some requested) frozen h =
    let (r, trimmed, rest) = and_then-ok (normalize_present requested) _ h in
    elim (Bool-cases (r == frozen)) [
      | inl same ↦ sym (ok-same (rw same at rest)) ∙ (eq_iff r frozen).0 same
      | inr other ↦ elim (bad (rw other at rest)) [ ]
    ]

pub follow_up-frozen :
    (requested_model requested_effort frozen previous : String) (d : HomeDefaults) {m e : String}
    → IsNormal frozen
    → resolve_follow_up requested_model requested_effort frozen previous d ≡ ok (m, e)
    → m ≡ frozen
unfolding resolve_follow_up
follow_up-frozen requested_model requested_effort frozen previous d normal h =
    let (a, model, rest) =
      and_then-ok (follow_up_model (present_field requested_model) frozen) _ (rw normal at h) in
    let (b, effort, same) =
      and_then-ok (follow_up_effort (present_field requested_effort) previous d) _ rest in
    sym (ap (λ p. p.0) (ok-same same))
    ∙ follow_up_model-frozen (present_field requested_model) frozen model

omitted-runs :
    (frozen previous : String) (d : HomeDefaults)
    → IsNormal frozen
    → is_empty previous ≡ false
    → resolve_follow_up "" "" frozen previous d ≡ ok (frozen, previous)
unfolding resolve_follow_up follow_up_model follow_up_effort
omitted-runs frozen previous d normal given =
    rw (resolve_follow_up, normal, follow_up_effort, given)

-- The model that a first turn resolves is frozen: a follow-up on the thread that resolves at all,
-- whatever model and effort it asks for and whatever the home's defaults have become, resolves to
-- the same model.
pub first_turn-freezes :
    (model effort : String) (d : HomeDefaults) {frozen used : String}
    → resolve_first_turn model effort d ≡ ok (frozen, used)
    → (requested_model requested_effort previous : String) (now : HomeDefaults) {m e : String}
    → resolve_follow_up requested_model requested_effort frozen previous now ≡ ok (m, e)
    → m ≡ frozen
first_turn-freezes model effort d {frozen} h rm re previous now =
    follow_up-frozen rm re frozen previous now (resolve_first_turn-IsNormal model effort d h)

-- A follow-up that asks for neither model nor effort, on a thread with the model that a first turn
-- resolved, resolves to that model and the previous turn's effort, where that is not empty.
pub first_turn-follow_up :
    (model effort : String) (d : HomeDefaults) {frozen used : String}
    → resolve_first_turn model effort d ≡ ok (frozen, used)
    → (previous : String) (now : HomeDefaults) → is_empty previous ≡ false
    → resolve_follow_up "" "" frozen previous now ≡ ok (frozen, previous)
first_turn-follow_up model effort d {frozen} h previous now =
    omitted-runs frozen previous now (resolve_first_turn-IsNormal model effort d h)
