-- ===== src/Instructions.antt =====
-- internal/controller/instructions.go: the one-time instructions of a plan and the test that a
-- plan was applied. `Instructions/Json.antt` is the JSON of a plan, the other children are proofs.
mod Json
mod Decode
pub mod RoundTrip
pub mod Members
pub mod Unmarshal
pub mod Lossless
pub mod Distinct
pub mod Determined
pub mod Checksum
unfoldable pub use Json.*
pub use Types.{Plan, OneTimeInstruction}
mod Types
use turtles_etcd_restore.Base.{String, Bool, true, List, [], ◌∷◌}
use turtles_etcd_restore.Api.{EtcdMachineBackup}
use turtles_etcd_restore.Go.Bytes.{Bytes, hex, bytes_equal}
use turtles_etcd_restore.Go.Outcome.{Outcome, ok}
use turtles_etcd_restore.Go.Text.{◌<>◌, trim_prefix}

-- `killAllInstruction`
unfoldable pub kill_all_instruction : OneTimeInstruction
kill_all_instruction = record {
  name = "shutdown";
  image = "";
  env = [];
  args =
      "-c"
      ∷ "if [ -z $(command -v rke2) ] && [ -z $(command -v rke2-killall.sh) ]; then echo rke2 does not appear to be installed; exit 0; else rke2-killall.sh; fi"
      ∷ [];
  command = "/bin/sh";
  save_output = true;
}

-- `etcdRestoreInstruction`
unfoldable pub etcd_restore_instruction : EtcdMachineBackup → OneTimeInstruction
etcd_restore_instruction snapshot = record {
  name = "etcd-restore";
  image = "";
  env = [];
  args =
      "-c"
      ∷ "rke2 server --cluster-reset"
      ∷ ("--cluster-reset-restore-path=" <> trim_prefix snapshot.spec.location "file://")
      ∷ [];
  command = "/bin/sh";
  save_output = true;
}

-- `manifestRemovalInstruction`
unfoldable pub manifest_removal_instruction : OneTimeInstruction
manifest_removal_instruction = record {
  name = "remove-server-manifests";
  image = "";
  env = [];
  args = "-c" ∷ "rm -rf /var/lib/rancher/rke2/server/manifests/rke2-*.yaml" ∷ [];
  command = "/bin/sh";
  save_output = true;
}

-- `removeServerUrlFromConfig`
unfoldable pub remove_server_url_from_config : OneTimeInstruction
remove_server_url_from_config = record {
  name = "remove-server-manifests";
  image = "";
  env = [];
  args = "-c" ∷ "sed -i '/^server:/d' /etc/rancher/rke2/config.yaml" ∷ [];
  command = "/bin/sh";
  save_output = true;
}

-- `addServerUrlToConfig`
unfoldable pub add_server_url_to_config : String → OneTimeInstruction
add_server_url_to_config server_ip = record {
  name = "add-server-url-to-config";
  image = "";
  env = [];
  args =
      "-c"
      ∷ ("echo 'server: https://" <> (server_ip <> ":9345' >> /etc/rancher/rke2/config.yaml"))
      ∷ [];
  command = "/bin/sh";
  save_output = true;
}

-- `removeEtcdDataInstruction`
unfoldable pub remove_etcd_data_instruction : OneTimeInstruction
remove_etcd_data_instruction = record {
  name = "remove-etcd-db-dir";
  image = "";
  env = [];
  args = "-c" ∷ "rm -rf /var/lib/rancher/rke2/server/db/etcd" ∷ [];
  command = "/bin/sh";
  save_output = true;
}

-- `startRKE2Instruction`
unfoldable pub start_rke2_instruction : OneTimeInstruction
start_rke2_instruction = record {
  name = "start-rke2";
  image = "";
  env = [];
  args = "-c" ∷ "systemctl start rke2-server.service" ∷ [];
  command = "/bin/sh";
  save_output = true;
}

-- `instructionsAsJson`
unfoldable pub instructions_as_json : List OneTimeInstruction → Outcome Bytes
instructions_as_json instructions = ok (marshal (record { one_time_instructions = instructions }))

-- `isPlanApplied`, over the digest `sha256.Sum256`
unfoldable pub is_plan_applied : (Bytes → Bytes) → Bytes → Bytes → Bool
is_plan_applied sha256 plan applied_checksum = bytes_equal (hex (sha256 plan)) applied_checksum
