-- ===== src/Worker/Unblank.antt =====
-- The model and the effort that the worker's flags give: crates/gamchi/src/worker.rs.
use gamchi.Prelude.{
  ℕ, ◌≡◌, ◌⊎◌, inl, inr, refl, subst, String, Bool, true, false, List, [], ◌∷◌, ◌++◌, some, Result,
  ok, and_then-ok, Bool-cases, Option-cases, Result-cases,
}
use gamchi.Prelude.Text.{is_empty, trim, join}
use gamchi.Wire.{parse_approval_policy}
use gamchi.Worker.{
  Flags, Valued, at_home, in_cwd, of_turn, of_thread, timeout, policy, of_request, to_decide,
  with_model, with_effort, Argument, json_flag, dashes, unknown, word, valued, argument, parse_u64,
  set_flag, no_flags, finished, parse_loop, parse_flags,
}

-- Not given, or more than white space.
abbrev pub IsGiven : String → Type 0
IsGiven s = (s ≡ "") ⊎ (is_empty (trim s) ≡ false)

abbrev pub IsUnblank : Flags → Type 0
IsUnblank f = IsGiven f.model × IsGiven f.effort

IsUnblank-ok : (f g : Flags) → IsUnblank f → ◌≡◌ {A = Result ℕ Flags} (ok f) (ok g) → IsUnblank g
IsUnblank-ok f g u h = let same : f ≡ g = cc h in subst IsUnblank same u

set_flag-IsUnblank :
    (flag : Valued) (value : String) (f g : Flags)
    → IsUnblank f
    → set_flag flag value f ≡ ok g
    → IsUnblank g
unfolding set_flag
set_flag-IsUnblank at_home value f g u h = IsUnblank-ok (record f { home = some value }) g u h
set_flag-IsUnblank in_cwd value f g u h = IsUnblank-ok (record f { cwd = some value }) g u h
set_flag-IsUnblank of_turn value f g u h = IsUnblank-ok (record f { turn_id = value }) g u h
set_flag-IsUnblank of_thread value f g u h = IsUnblank-ok (record f { thread_id = value }) g u h
set_flag-IsUnblank of_request value f g u h = IsUnblank-ok (record f { request_id = value }) g u h
set_flag-IsUnblank to_decide value f g u h = IsUnblank-ok (record f { decision = value }) g u h
set_flag-IsUnblank timeout value f g u h = elim (Option-cases (parse_u64 value)) [
  | inl e ↦ absurd (cc (rw (set_flag, e) at h))
  | inr (ms, e) ↦ IsUnblank-ok (record f { timeout_ms = some ms }) g u (rw (set_flag, e) at h)
]
set_flag-IsUnblank policy value f g u h = elim (Result-cases (parse_approval_policy value)) [
  | inl (p, e) ↦ IsUnblank-ok (record f { approval = p }) g u (rw (set_flag, e) at h)
  | inr (x, e) ↦ absurd (cc (rw (set_flag, e) at h))
]
set_flag-IsUnblank with_model value f g u h = elim (Bool-cases (is_empty (trim value))) [
  | inl blank ↦ absurd (cc (rw (set_flag, blank) at h))
  | inr given ↦
      IsUnblank-ok (record f { model = value }) g (inr given, u.1) (rw (set_flag, given) at h)
]
set_flag-IsUnblank with_effort value f g u h = elim (Bool-cases (is_empty (trim value))) [
  | inl blank ↦ absurd (cc (rw (set_flag, blank) at h))
  | inr given ↦
      IsUnblank-ok (record f { effort = value }) g (u.0, inr given) (rw (set_flag, given) at h)
]

Argument-cases :
    (a : Argument)
    → (a ≡ json_flag)
      ⊎ (a ≡ dashes)
      ⊎ (a ≡ unknown)
      ⊎ (a ≡ word)
      ⊎ ((flag : Valued) × (a ≡ valued flag))
Argument-cases json_flag = inl refl
Argument-cases dashes = inr (inl refl)
Argument-cases unknown = inr (inr (inl refl))
Argument-cases word = inr (inr (inr (inl refl)))
Argument-cases (valued flag) = inr (inr (inr (inr (flag, refl))))

finished-IsUnblank :
    (words : List String) (f g : Flags) → IsUnblank f → finished words f ≡ ok g → IsUnblank g
finished-IsUnblank words f g u h = IsUnblank-ok (record f { prompt = join " " words }) g u h

-- An argument that no value can follow.
last-IsUnblank :
    (take_prompt : Bool) (words : List String) (f g : Flags) (arg : String)
    → IsUnblank f
    → parse_loop take_prompt words f (arg ∷ []) ≡ ok g
    → IsUnblank g
unfolding parse_loop
last-IsUnblank take_prompt words f g arg u h = elim (Argument-cases (argument arg)) [
  | inl e ↦ finished-IsUnblank words (record f { json = true }) g u (rw (parse_loop, e) at h)
  | inr (inl e) ↦ finished-IsUnblank words f g u (rw (parse_loop, e) at h)
  | inr (inr (inl e)) ↦ absurd (cc (rw (parse_loop, e) at h))
  | inr (inr (inr (inl e))) ↦ elim (Bool-cases take_prompt) [
    | inl takes ↦ finished-IsUnblank (words ++ arg ∷ []) f g u (rw (parse_loop, e, takes) at h)
    | inr not_taken ↦ absurd (cc (rw (parse_loop, e, not_taken) at h))
  ]
  | inr (inr (inr (inr (flag, e)))) ↦ absurd (cc (rw (parse_loop, e) at h))
]

parse_loop-IsUnblank :
    (take_prompt : Bool) (words : List String) (f g : Flags) (args : List String)
    → IsUnblank f
    → parse_loop take_prompt words f args ≡ ok g
    → IsUnblank g
unfolding parse_loop
parse_loop-IsUnblank take_prompt words f g [] u h = finished-IsUnblank words f g u h
parse_loop-IsUnblank take_prompt words f g (arg ∷ []) u h =
    last-IsUnblank take_prompt words f g arg u h
parse_loop-IsUnblank take_prompt words f g (arg ∷ next ∷ args) u h =
    elim (Argument-cases (argument arg)) [
      | inl e ↦
          parse_loop-IsUnblank take_prompt words (record f { json = true }) g (next ∷ args) u
            (rw (parse_loop, e) at h)
      | inr (inl e) ↦ finished-IsUnblank (words ++ next ∷ args) f g u (rw (parse_loop, e) at h)
      | inr (inr (inl e)) ↦ absurd (cc (rw (parse_loop, e) at h))
      | inr (inr (inr (inl e))) ↦ elim (Bool-cases take_prompt) [
        | inl takes ↦
            parse_loop-IsUnblank take_prompt (words ++ arg ∷ []) f g (next ∷ args) u
              (rw (parse_loop, e, takes) at h)
        | inr not_taken ↦ absurd (cc (rw (parse_loop, e, not_taken) at h))
      ]
      | inr (inr (inr (inr (flag, e)))) ↦
          and_then-ok (set_flag flag next f) (λ k. parse_loop take_prompt words k args) g
            (rw (parse_loop, e) at h)
            (λ k set rest.
              parse_loop-IsUnblank take_prompt words k g args
                (set_flag-IsUnblank flag next f k u set) rest)
    ]

-- A model or an effort that the flags give, whatever the arguments are, is more than white space;
-- else it is the empty text.
parse_flags-IsUnblank :
    (args : List String) (take_prompt : Bool) (f : Flags)
    → parse_flags args take_prompt ≡ ok f
    → IsUnblank f
unfolding parse_flags
parse_flags-IsUnblank args take_prompt f h =
    parse_loop-IsUnblank take_prompt [] no_flags f args (inl refl, inl refl) h
