-- ===== src/Grok/Launch/Enforced.antt =====
-- What `plan_launch` of crates/adapter-grok/src/launch.rs refuses, and what it lets Grok do.
use gamchi.Prelude.{
  ◌≡◌, refl, sym, ap, ◌∙◌, Bool, true, false, ◌&&◌, ◌||◌, String, ◌==◌, Option, none, some, ok,
  is_ok, inl, inr, arith, Bool-cases, Option-cases,
}
use gamchi.Prelude.Text.{is_absolute}
use gamchi.Wire.{ThreadSandbox, workspace_write, read_only, contains}
use gamchi.Grok.Launch.{
  ExtraSpawnFields, LaunchRequest, LaunchPlan, first_set, or_next, is_never, launch_args,
  absolute_launch, sandboxed_launch, plan_launch,
}

abbrev pub is_none : {A : Type 0} → Option A → Bool
is_none none = true
is_none (some a) = false

-- No field that the adapter cannot implement is set.
abbrev pub none_set : ExtraSpawnFields → Bool
none_set e =
    is_none e.writable_roots
    && (is_none e.network_access
        && (is_none e.exclude_slash_tmp && is_none e.exclude_tmpdir_env_var))

abbrev pub is_workspace : ThreadSandbox → Bool
is_workspace workspace_write = true
is_workspace read_only = false

absolute_launch-ok : (req : LaunchRequest) → is_ok (absolute_launch req) ≡ is_absolute req.cwd
absolute_launch-ok req = elim (Bool-cases (is_absolute req.cwd)) [
  | inl e ↦ rw (absolute_launch, e) refl
  | inr e ↦ rw (absolute_launch, e) refl
]

sandboxed_launch-ok :
    (sandbox : ThreadSandbox) (req : LaunchRequest)
    → is_ok (sandboxed_launch sandbox req) ≡ (is_workspace sandbox && is_absolute req.cwd)
sandboxed_launch-ok workspace_write req = absolute_launch-ok req
sandboxed_launch-ok read_only req = refl

or_next-is_none :
    {A : Type 0} (o : Option A) (name : String) (rest : Option String)
    → is_none (or_next o name rest) ≡ (is_none o && is_none rest)
or_next-is_none (some a) name rest = refl
or_next-is_none none name rest = refl

and_true : (b : Bool) → (b && true) ≡ b
and_true true = refl
and_true false = refl

first_set-is_none : (e : ExtraSpawnFields) → is_none (first_set e) ≡ none_set e
unfolding first_set
first_set-is_none e =
    let d = or_next-is_none e.exclude_tmpdir_env_var "excludeTmpdirEnvVar" none in
    let c = or_next-is_none e.exclude_slash_tmp "excludeSlashTmp" _ in
    let b = or_next-is_none e.network_access "networkAccess" _ in
    let a = or_next-is_none e.writable_roots "writableRoots" _ in
    a
    ∙ ap (λ x. is_none e.writable_roots && x)
        (b
          ∙ ap (λ x. is_none e.network_access && x)
              (c
                ∙ ap (λ x. is_none e.exclude_slash_tmp && x)
                    (d ∙ and_true (is_none e.exclude_tmpdir_env_var))))

-- A spawn is planned exactly when none of the four extra fields is set, the sandbox is
-- workspace-write and the working directory is absolute.
pub plan_launch-ok :
    (req : LaunchRequest)
    → is_ok (plan_launch req)
      ≡ (none_set req.extra && (is_workspace req.sandbox && is_absolute req.cwd))
unfolding plan_launch
plan_launch-ok req = elim (Option-cases (first_set req.extra)) [
  | inl e ↦
      rw (plan_launch, e, sym (first_set-is_none req.extra), e)
        (sandboxed_launch-ok req.sandbox req)
  | inr (field, e) ↦ rw (plan_launch, e, sym (first_set-is_none req.extra), e) refl
]

launch_args-contains :
    (b : Bool) (req : LaunchRequest)
    → contains (launch_args b req) "--always-approve" ≡ (
        req.cwd == "--always-approve"
        || (b || (req.model == "--always-approve" || req.effort == "--always-approve")))
unfolding launch_args
launch_args-contains true req = ground arith
launch_args-contains false req = ground arith

planned :
    (req : LaunchRequest) {p : LaunchPlan}
    → plan_launch req ≡ ok p
    → p.args ≡ launch_args (is_never req.approval) req
unfolding plan_launch
planned req h = ground arith

-- A planned spawn tells Grok to approve everything by itself exactly when the policy is never,
-- unless the request's own text is that flag.
pub plan_launch-always_approve :
    (req : LaunchRequest) {p : LaunchPlan}
    → plan_launch req ≡ ok p
    → (req.cwd == "--always-approve") ≡ false
    → (req.model == "--always-approve") ≡ false
    → (req.effort == "--always-approve") ≡ false
    → contains p.args "--always-approve" ≡ is_never req.approval
plan_launch-always_approve req {p} h c m e =
    rw (planned req h, launch_args-contains (is_never req.approval) req, c, m, e) (ground arith)
