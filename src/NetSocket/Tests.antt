-- ===== src/NetSocket/Tests.antt =====
-- Runs of kernel/net_socket.c, and its theorems at concrete sockets.
use pro_os.Prelude.{
  ℕ, ◌≤◌, ◌<◌, ◌≡◌, refl, ◌⊎◌, true, false, ◌&&◌, none, some, List, [], ◌∷◌, arith, replicate,
  length,
}
use pro_os.Prelude.Arrays.{find_index, All-replicate}
use pro_os.Prelude.Int.{pos, negsuc, failure}
use pro_os.NetSocket.{
  Socket, capacity, queue_size, no_socket, blank, open_socket, resolve, send, recv_from,
  register_device, deliver, same_device,
}
use pro_os.NetSocket.Rings.{
  IsValid, Fits, blank-Fits, frames, enqueue, deliver_refines, recv_from_refines,
}
use pro_os.NetSocket.Delivery.{IsTable, no_socket-IsValid}

abbrev table : List Socket
table = replicate capacity no_socket

-- On device 2, with nothing received.
abbrev listening : Socket
listening = record no_socket { used = true; device = some 2 }

table-IsTable : IsTable table
table-IsTable = record {
  room = refl;
  valid = All-replicate IsValid capacity no_socket no_socket-IsValid;
}

listening-IsValid : IsValid listening
listening-IsValid = record {
  room = refl;
  head_in = omega arith;
  bounded = omega arith;
  tail_at = refl;
  packets_fit = All-replicate Fits queue_size blank blank-Fits;
}

first_handle : (open_socket (some 2) table).0 ≡ pos 1
unfolding open_socket find_index
first_handle = refl

bad_handles :
    (resolve (pos 0) table ≡ none)
    × (resolve (pos 5) table ≡ none)
    × (resolve (negsuc 0) table ≡ none)
unfolding resolve
bad_handles = (refl, refl, refl)

sends_nothing : send (λ dev. some (λ frame. pos 9)) (pos 1) [] (listening ∷ []) ≡ failure
unfolding send resolve
sends_nothing = refl

sends :
    send (λ dev. some (λ frame. pos (length frame))) (pos 1) (8 ∷ 9 ∷ []) (listening ∷ []) ≡ pos 2
unfolding send resolve
sends = refl

no_room_for_devices :
    register_device
      (record { name = 9; has_transmit = true })
      (replicate 4 (record { name = 0; has_transmit = true }))
    ≡ (failure, replicate 4 (record { name = 0; has_transmit = true }))
unfolding register_device
no_room_for_devices = refl

deliver_refines_example :
    IsValid (deliver 2 (5 ∷ 6 ∷ []) listening)
    × (frames (deliver 2 (5 ∷ 6 ∷ []) listening) ≡ enqueue (5 ∷ 6 ∷ []) (frames listening))
    × ((deliver 2 (5 ∷ 6 ∷ []) listening).used ≡ true)
    × ((deliver 2 (5 ∷ 6 ∷ []) listening).device ≡ some 2)
    × ((listening.used && same_device listening.device 2) ≡ false
        → deliver 2 (5 ∷ 6 ∷ []) listening ≡ listening)
deliver_refines_example = deliver_refines 2 (5 ∷ 6 ∷ []) listening listening-IsValid

recv_from_refines_example :
    let s = deliver 2 (5 ∷ 6 ∷ []) listening in
    let (code, bytes, s') = recv_from 9 s in
    IsValid s'
    × (((frames s ≡ []) × (code ≡ pos 0) × (bytes ≡ []) × (s' ≡ s))
        ⊎ ((f : List ℕ) × (frames s ≡ f ∷ frames s')
            × (length f ≤ 9)
            × (code ≡ pos (length f))
            × (bytes ≡ f))
        ⊎ ((f : List ℕ) × (frames s ≡ f ∷ frames s')
            × (9 < length f)
            × (code ≡ failure)
            × (bytes ≡ [])))
recv_from_refines_example =
    recv_from_refines 9 (deliver 2 (5 ∷ 6 ∷ []) listening)
      (deliver_refines 2 (5 ∷ 6 ∷ []) listening listening-IsValid).0
