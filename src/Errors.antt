-- ===== src/Errors.antt =====
-- scripts/bake.py: the exceptions that its functions let through. `exit` is the SystemExit of
-- `die`, whose status is 2; its argument names the message.

pub data Reason : Type 0 where
  no_binary : Reason
  bad_toml : Reason
  kernel_required kernel_missing initramfs_missing : Reason
  out_required base_set zstd_set bad_compress : Reason
  file_too_large : Reason
  socket_missing never_ready snapshot_failed : Reason
  compress_failed rehydrate_failed base_missing : Reason
  no_recipe_argument no_snap_argument no_ttl_argument unknown_command : Reason

pub data Exc : Type 0 where
  exit : Reason → Exc
  assertion_error struct_error runtime_error os_error value_error type_error key_error
        attribute_error index_error timeout_expired :
      Exc
