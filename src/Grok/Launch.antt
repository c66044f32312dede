-- ===== src/Grok/Launch.antt =====
-- The argv of `grok agent stdio`, or the refusal to spawn: crates/adapter-grok/src/launch.rs.
pub mod Enforced
use gamchi.Prelude.{
  ◌≡◌, refl, Bool, true, false, ◌&&◌, ◌||◌, String, ◌==◌, List, [], ◌∷◌, ◌++◌, Option, none, some,
  Result, ok, err, is_ok, arith, if◌then◌else◌,
}
use gamchi.Prelude.Text.{◌<>◌, is_absolute}
use gamchi.Wire.{ApprovalPolicy, ThreadSandbox, contains}
use gamchi.Grok.Defaults.{ResolveError, model_mismatch}

-- A field is set or not: the code looks at nothing else.
pub record ExtraSpawnFields : Type 0 where
  pub writable_roots : Option (List String)
  pub network_access : Option Bool
  pub exclude_slash_tmp : Option Bool
  pub exclude_tmpdir_env_var : Option Bool

-- `if field.is_some() { return Some(name); }`, then the rest.
abbrev pub or_next : {A : Type 0} → Option A → String → Option String → Option String
or_next (some _) name rest = some name
or_next none name rest = rest

unfoldable pub first_set : ExtraSpawnFields → Option String
first_set e = or_next e.writable_roots "writableRoots" (
    or_next e.network_access "networkAccess" (
      or_next e.exclude_slash_tmp "excludeSlashTmp"
        (or_next e.exclude_tmpdir_env_var "excludeTmpdirEnvVar" none)))

pub record LaunchRequest : Type 0 where
  pub program : String
  pub cwd : String
  pub approval : ApprovalPolicy
  pub sandbox : ThreadSandbox
  pub extra : ExtraSpawnFields
  pub model : String
  pub effort : String

pub record LaunchPlan : Type 0 where
  pub program : String
  pub args : List String

pub data LaunchError : Type 0 where
  unenforceable : (field reason : String) → LaunchError
  invalid_config : (reason : String) → LaunchError

-- `From<ResolveError>`.
abbrev pub from_resolve : ResolveError → LaunchError
from_resolve (ResolveError.invalid_config reason) = LaunchError.invalid_config reason
from_resolve (model_mismatch requested frozen) =
    LaunchError.invalid_config
      ("follow-up model " <> requested <> " is not thread model " <> frozen)

abbrev pub is_never : ApprovalPolicy → Bool
is_never ApprovalPolicy.never = true
is_never _ = false

unfoldable pub launch_args : Bool → LaunchRequest → List String
launch_args always_approve req =
    ("--cwd" ∷ req.cwd ∷ "--sandbox" ∷ "workspace" ∷ [])
    ++ (if always_approve then [] else "--permission-mode" ∷ "default" ∷ [])
    ++ ("agent" ∷ "--no-leader" ∷ [])
    ++ (if always_approve then "--always-approve" ∷ [] else [])
    ++ ("-m" ∷ req.model ∷ "--reasoning-effort" ∷ req.effort ∷ "stdio" ∷ [])

abbrev pub absolute_launch : LaunchRequest → Result LaunchError LaunchPlan
absolute_launch req =
    if is_absolute req.cwd
    then ok (record { program = req.program; args = launch_args (is_never req.approval) req })
    else err (unenforceable "cwd" "cwd must be an absolute path")

abbrev pub sandboxed_launch : ThreadSandbox → LaunchRequest → Result LaunchError LaunchPlan
sandboxed_launch ThreadSandbox.workspace_write req = absolute_launch req
sandboxed_launch ThreadSandbox.read_only req =
    err (unenforceable "sandbox" "no verified Grok profile that denies workspace writes")

unfoldable pub plan_launch : LaunchRequest → Result LaunchError LaunchPlan
unfolding first_set launch_args
plan_launch req = elim (first_set req.extra) [
  | some field ↦ err (unenforceable field "adapter cannot implement this subset field")
  | none ↦ sandboxed_launch req.sandbox req
]
