-- ===== src/Host/Errors.antt =====
-- Go errors, by what they say: a sentinel, a message, or a message around another error (`%w`).
use familiar_fleet.Base.{Bool, true, false}

pub data Reason : Type 0 where
  -- internal/runtime/store.go
  not_absolute unsafe_characters stat_runtime not_directory no_tool tool_not_executable : Reason
  smoke_failed not_a_symlink relative_pointer how_to_activate runtime_unusable : Reason
  record_previous activate_runtime no_previous refusing_rollback link_not_a_symlink : Reason
  not_a_store_output unexpected_root inspect_root register_root root_not_created : Reason
  unreadable_root installable_whitespace build_failed wrong_output_count : Reason
  -- internal/client/runtimeapply.go
  executable_not_found not_activated retain_runtime prune_failed record_applied : Reason
  create_token write_token close_token bad_descriptor true_up_failed : Reason
  -- internal/client/state.go
  not_owner_only state_too_large decode_state trailing_data unsupported_version : Reason
  saved_endpoint saved_user saved_enrollment predates_descriptor : Reason
  -- internal/client/enroll.go
  incomplete_keypair public_key_not_regular keygen_failed bad_public_key : Reason
  token_newline token_not_one_line : Reason
  -- internal/client/herdrenv.go
  write_launcher pi_template pi_extension pi_profile herdr_config_nul write_herdr_config : Reason
  tiamat_failed shell_failed herdr_config_rejected read_herdr_config : Reason
  -- cmd/familiar-fleet/main.go
  prepare_state not_real_directory unsafe_state_path not_connected already_connected : Reason
  connect_options unknown_user unknown_hostname wrong_user bad_log bad_endpoint : Reason
  needs_endpoint tunnel_identity host_identity bad_token enrollment_failed : Reason
  host_key_refused save_enrollment activate_enrolled no_usable_runtime : Reason
  rolled_back_unpruned unknown_subcommand : Reason

pub data Error : Type 0 where
  -- os.ErrNotExist, and any other failure of a system call
  not_exist io : Error
  -- ErrNoRuntime of store.go
  no_runtime : Error
  -- ErrNoRuntimeDescriptor of runtimedesc.go
  no_descriptor : Error
  message : Reason → Error
  wrap : Reason → Error → Error

-- errors.Is(err, os.ErrNotExist)
abbrev pub is_not_exist : Error → Bool
is_not_exist not_exist = true
is_not_exist (wrap _ e) = is_not_exist e
is_not_exist _ = false

-- errors.Is(err, ErrNoRuntime)
abbrev pub is_no_runtime : Error → Bool
is_no_runtime no_runtime = true
is_no_runtime (wrap _ e) = is_no_runtime e
is_no_runtime _ = false

pub data Result {ℓ} (A : Type ℓ) : Type ℓ where
  done : A → Result A
  failed : Error → Result A
