-- ===== src/Klog/Publish/Tests.antt =====
-- An entry of kernel/klog.c that goes to the loggers' channel after `ipc_system_init`.
use pro_os.Prelude.{◌≡◌, refl, true, false, none, some, [], ◌∷◌, arith, replicate}
use pro_os.Prelude.Int.{pos, failure}
use pro_os.Klog.{Entry}
use pro_os.Klog.Publish.{payload, payload_size, publish, service_logger}
use pro_os.Klog.Publish.Reach.{HasRoom, started, publish-receive}
use pro_os.Ipc.Process.{no_process}
use pro_os.Ipc.Channels.{message, no_channel, blank_message}
use pro_os.Ipc.Channels.Calls.{channel_receive}
use pro_os.Ipc.Start.{Ipc, get_service_channel}

abbrev unused : Ipc
unused = record {
  regions = [];
  services = [];
  channels = record { table = replicate 4 no_channel; next_id = 1 };
  initialized = false;
}

abbrev entry : Entry
entry = record { seq = 7; level = 2; tag = 110 ∷ []; text = 104 ∷ 105 ∷ [] }

no_channel-HasRoom : HasRoom no_channel
unfolding blank_message
no_channel-HasRoom = (omega arith, omega arith)

publish-receive_example :
    let l =
      (publish failure none
        (replicate 24 1)
        (replicate 96 1)
        entry
        (started (no_process ∷ []) unused)).1 in
    (channel_receive true true payload_size
      (some 0)
      (get_service_channel service_logger l.ipc)
      l.procs
      l.ipc.channels).0
    ≡ some (message 0 2 payload_size (pos 0) (payload (replicate 24 1) (replicate 96 1) entry))
publish-receive_example =
    publish-receive unused failure none (replicate 24 1) (replicate 96 1) entry (no_process ∷ []) 0
      true refl (omega arith) no_channel-HasRoom (refl, refl) (omega arith, omega arith)
