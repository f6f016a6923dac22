-- ===== src/SgxStm/Init.antt =====
-- stm/sgx/src/application_intf.cpp: stm_init and application_stm_init, which read the configuration of
-- the secure token module. The file name is built and loaded by parameters (GLib).
use skc_library.Base.{Option, none, some, Str, codes, beq_bytes, if◌then◌else◌}
use skc_library.Types.{GError, ℤ, pos}
use skc_library.Config.{
  KeyFile, Reading, key_config_openfile, key_config_get_string, key_config_get_boolean_optional,
}

-- The variables of `sgx_application_sgx_stm`; a `char *` that is NULL is `none`.
pub record StmSettings : Type 0 where
  pub configfile : Str
  pub debug : ℤ
  pub attestation_type : Option Str
  pub ql_policy : Option Str

abbrev pub core : Str
core = codes "core"

abbrev pub ecdsa : Str
ecdsa = codes "ECDSA"

unfoldable pub read_launch_policy : Option KeyFile → StmSettings → GError × StmSettings
read_launch_policy config s =
    let (policy, e) = key_config_get_string config ecdsa (codes "launch_policy") none in
    (e, record s { ql_policy = policy })

-- `none` is `strcmp` of NULL.
unfoldable pub choose_policy :
    Option KeyFile → Option Str → StmSettings → Option (GError × StmSettings)
choose_policy config none s = none
choose_policy config (some kind) s =
    if beq_bytes kind ecdsa then some (read_launch_policy config s) else some (none, s)

unfoldable pub read_attestation :
    Option KeyFile → Option Str × GError → StmSettings → Option (GError × StmSettings)
read_attestation config (kind, some e) s = some (some e, record s { attestation_type = kind })
read_attestation config (kind, none) s =
    choose_policy config kind (record s { attestation_type = kind })

unfoldable pub read_configuration :
    Option KeyFile × GError → StmSettings → Option (GError × StmSettings)
read_configuration (config, some e) s = some (some e, s)
read_configuration (config, none) s =
    read_attestation config (key_config_get_string config core (codes "type") none)
      (record s { debug = key_config_get_boolean_optional config core (codes "debug") (pos 0) })

module _ (build_filename : Str → Str → Str) (load : Str → Reading KeyFile) where
  abbrev pub filename : Str → Str
  filename directory = build_filename directory (codes "sgx_stm.ini")

  -- Without a directory nothing is read.
  unfoldable pub application_stm_init :
      Option Str → GError → StmSettings → Option (GError × StmSettings)
  application_stm_init none e s = some (e, s)
  application_stm_init (some directory) e s =
      read_configuration (key_config_openfile load (some (filename directory)) e)
        (record s { configfile = filename directory })

  unfoldable pub label_of : GError × StmSettings → Option Str × GError × StmSettings
  label_of (some e, s) = (none, some e, s)
  label_of (none, s) = (some (codes "SGX"), none, s)

  unfoldable pub stm_init :
      Option Str → GError → StmSettings → Option (Option Str × GError × StmSettings)
  stm_init directory e s = elim (application_stm_init directory e s) [
    | none ↦ none
    | some r ↦ some (label_of r)
  ]
