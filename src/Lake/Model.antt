-- ===== src/Lake/Model.antt =====
-- The root declaration of rust/crates/leanbun-lake-bridge/src/model.rs, and the error kinds of the
-- functions that make and read it. Messages are left out.
use leanbun.Base.{List, Option}
use leanbun.Lock.Model.{Text, Sha256, PackageKey}

pub data LakeErrorKind : Type 0 where
  invalid_field limit_exceeded malformed_probe_output duplicate_dependency : LakeErrorKind
  duplicate_package missing_package extra_package source_kind_drift source_value_drift :
      LakeErrorKind
  non_bun_runtime_override duplicate_observed_path missing_observed_path : LakeErrorKind
  extra_observed_path workspace_path_mismatch projection_parse_failed : LakeErrorKind
  probe_boundary_violation probe_failed evidence_changed : LakeErrorKind

-- LakeDependencySourceV1
pub data LakeSource : Type 0 where
  git : (url : Text) (revision subdir : Option Text) → LakeSource
  path : (directory : Text) → LakeSource
  reservoir : LakeSource

-- LakeRootDependencyV1
pub record RootDependency : Type 0 where
  pub key : PackageKey
  pub version : Option Text
  pub source : LakeSource

-- LakeRootDeclarationV1
pub record RootDeclaration : Type 0 where
  pub root_name : Text
  pub config_file : Text
  pub dependencies : List RootDependency
  pub identity : Sha256
