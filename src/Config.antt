-- ===== src/Config.antt =====
-- internal/config: the configuration file, its defaults and its validation. The model policy that it
-- resolves to is in Policy, the repositories of a workspace in Workspace.
pub mod Server
pub mod Hostname
pub mod Resolve
pub mod Catalog
pub mod Models
pub mod Supervisor
mod Tests
use kanedias.Base.{
  Bool, true, false, not, List, [], ◌∷◌, Option, none, some, String, Result, ok, err, ◌>>=◌, ◌>>◌,
  fail_if, if◌then◌else◌, str_eq,
}
use kanedias.Policy.{Config as PolicyConfig, ModelDefinition, SessionDefaults, WorkerDefaults}
use kanedias.Config.Server.{ServerConfig, SupervisorEventsConfig}

pub record BaseImage : Type 0 where
  pub name : String
  pub source : String
  pub image : String
  pub authorized_hosts : List String
  pub build_scripts_dir : String

pub record WorkspaceConfig : Type 0 where
  pub pool : String
  pub volume : String
  pub repos : List String

pub record Network : Type 0 where
  pub ipv4 : String
  pub ipv6 : String

-- `models`, `session` and `workers` are the fields of `policy`.
pub record Config : Type 0 where
  pub network : Network
  pub base_image : BaseImage
  pub workspace : WorkspaceConfig
  pub policy : PolicyConfig
  pub server : ServerConfig
  pub supervisor_events : SupervisorEventsConfig
  pub dir : String
