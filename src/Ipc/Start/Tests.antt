-- ===== src/Ipc/Start/Tests.antt =====
-- `ipc_system_init` on a table of four channels.
use pro_os.Prelude.{ℕ, suc, false, ◌<◌, ◌≡◌, none, some, List, [], arith, get_or, replicate, true}
use pro_os.Prelude.Int.{ℤ, pos}
use pro_os.Ipc.Process.{Process, lookup}
use pro_os.Ipc.Channels.{no_channel, find_channel}
use pro_os.Ipc.Channels.Calls.{sender_allowed}
use pro_os.Ipc.Start.{Ipc, system_init, get_service_channel, system_init_lem}

abbrev unused : Ipc
unused = record {
  regions = [];
  services = [];
  channels = record { table = replicate 5 no_channel; next_id = 9 };
  initialized = false;
}

system_init_lem_example :
    let s' = system_init unused in
    ((n : ℕ)
      → n < 4
      → (get_service_channel (pos n) s' ≡ pos (suc n))
        × (find_channel (pos (suc n)) s'.channels.table ≡ some n)
        × ((sender : ℤ) (i : ℕ) (procs : List Process)
            → lookup sender procs ≡ some i
            → sender_allowed sender (pos (suc n)) (get_or s'.channels.table n no_channel) procs
              ≡ true))
    × ((id : ℕ) → 4 < id → find_channel (pos id) s'.channels.table ≡ none)
system_init_lem_example = system_init_lem unused (omega arith)
