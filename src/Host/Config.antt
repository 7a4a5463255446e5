-- ===== src/Host/Config.antt =====
-- pkg/host/transport/ssh/ssh.go (Config), pkg/host/transport/ssh/defaults.go, and BuildConfig of
-- pkg/host/host.go.
use libflexkube.Base.{
  String, Bool, Option, none, some, [], ◌∷◌, if◌then◌else◌, is_some, not, ◌&&◌, ◌||◌,
}
use libflexkube.Util.{ℤ, pos, pick_string, pick_int}

-- ssh.Config; `Dialer`, which only tests set, is the dialling of the world.
pub record SshConfig : Type 0 where
  pub address : String
  pub port : ℤ
  pub user : String
  pub password : String
  pub connection_timeout : String
  pub retry_timeout : String
  pub retry_interval : String
  pub private_key : String

-- &ssh.Config{}
abbrev pub empty_ssh : SshConfig
empty_ssh = record {
  address = "";
  port = pos 0;
  user = "";
  password = "";
  connection_timeout = "";
  retry_timeout = "";
  retry_interval = "";
  private_key = "";
}

-- direct.Config; its only field `Dummy` is for tests.
pub record DirectConfig : Type 0 where
  pub dummy : String

-- host.Host
pub record Host : Type 0 where
  pub direct_config : Option DirectConfig
  pub ssh_config : Option SshConfig

abbrev pub default_user : String
default_user = "root"

abbrev pub default_connection_timeout : String
default_connection_timeout = "30s"

abbrev pub default_retry_timeout : String
default_retry_timeout = "60s"

abbrev pub default_retry_interval : String
default_retry_interval = "1s"

abbrev pub default_port : ℤ
default_port = pos 22

-- `if config == nil { config = &Config{} }`
abbrev pub or_empty : Option SshConfig → SshConfig
or_empty none = empty_ssh
or_empty (some c) = c

-- ssh.BuildConfig. The Go function writes the fields of its first argument and returns it; here the
-- new value is returned.
unfoldable pub build_ssh : Option SshConfig → Option SshConfig → SshConfig
build_ssh ssh_config default_config = record {
  address = pick_string (c.address ∷ d.address ∷ []);
  port = pick_int (c.port ∷ d.port ∷ default_port ∷ []);
  user = pick_string (c.user ∷ d.user ∷ default_user ∷ []);
  password = pick_string (c.password ∷ d.password ∷ []);
  connection_timeout =
      pick_string (c.connection_timeout ∷ d.connection_timeout ∷ default_connection_timeout ∷ []);
  retry_timeout = pick_string (c.retry_timeout ∷ d.retry_timeout ∷ default_retry_timeout ∷ []);
  retry_interval = pick_string (c.retry_interval ∷ d.retry_interval ∷ default_retry_interval ∷ []);
  private_key = pick_string (c.private_key ∷ d.private_key ∷ []);
}
  where
    c : SshConfig
    c = or_empty ssh_config

    d : SshConfig
    d = or_empty default_config

-- The first test of host.BuildConfig.
wants_ssh : Host → Host → Bool
wants_ssh config default_host =
    not (is_some config.direct_config) && is_some default_host.ssh_config
    || is_some config.ssh_config

with_ssh : Host → Host → Host
with_ssh config default_host =
    if wants_ssh config default_host
    then record config { ssh_config = some (build_ssh config.ssh_config default_host.ssh_config) }
    else config

-- host.BuildConfig
unfoldable pub build_config : Host → Host → Host
unfolding wants_ssh with_ssh
build_config config default_host =
    let merged = with_ssh config default_host in
    if not (is_some merged.direct_config)
      && not (is_some merged.ssh_config)
      && not (is_some default_host.ssh_config)
    then record { direct_config = some (record { dummy = "" }); ssh_config = none }
    else merged
