-- ===== src/Vfs/Devices/Shown.antt =====
-- kernel/devicefs.c: the texts that the files of the devices show.
use pro_os.Prelude.{
  ℕ, ◌+◌, ◌-◌, ◌%◌, ◌^◌, Option, none, some, List, [], ◌∷◌, ◌++◌, leb, ◌==◌, if◌then◌else◌, length,
  get_or, take,
}
use pro_os.Prelude.Int.{ℤ, pos, failure}
use pro_os.Blockdev
use pro_os.Blockdev.{Device, no_device}
use pro_os.Volmgr.{Volume, digits, reversed}

-- `append_text` to what stands in a buffer of `size` bytes; `none` where it does not fit.
unfoldable pub append_text : ℕ → List ℕ → Option (List ℕ) → Option (List ℕ)
append_text size text none = none
append_text size [] (some out) = some out
append_text size (c ∷ text) (some out) =
    append_text size text (if leb size (length out + 1) then none else some (out ++ c ∷ []))

unfoldable pub append_all : ℕ → List (List ℕ) → Option (List ℕ) → Option (List ℕ)
append_all size [] out = out
append_all size (text ∷ texts) out = append_all size texts (append_text size text out)

-- `number_to_text`: its argument is a word of 32 bits.
unfoldable pub number_to_text : ℕ → List ℕ
number_to_text value =
    let word = value % 2 ^ 32 in if word == 0 then b'0' ∷ [] else reversed (digits 32 word)

abbrev pub newline : List ℕ
newline = 10 ∷ []

-- The line of a volume: "  name -> path".
unfoldable pub volume_texts : List Volume → List (List ℕ)
volume_texts [] = []
volume_texts (v ∷ vs) =
    let rest = volume_texts vs in
    if v.used
    then (32 ∷ 32 ∷ []) ∷ v.name ∷ (32 ∷ b'-' ∷ b'>' ∷ 32 ∷ []) ∷ v.mount_path ∷ newline ∷ rest
    else rest

-- "Name: disk0", "Block Size: ", "Block Count: " and "Volumes:", each with what stands behind it.
unfoldable pub disk_texts : Device → List Volume → List (List ℕ)
disk_texts d volumes =
    (b'N' ∷ b'a' ∷ b'm' ∷ b'e' ∷ b':' ∷ 32 ∷ b'd' ∷ b'i' ∷ b's' ∷ b'k' ∷ b'0' ∷ [])
    ∷ newline
    ∷ (b'B' ∷ b'l' ∷ b'o' ∷ b'c' ∷ b'k' ∷ 32 ∷ b'S' ∷ b'i' ∷ b'z' ∷ b'e' ∷ b':' ∷ 32 ∷ [])
    ∷ number_to_text d.block_size
    ∷ newline
    ∷ (b'B' ∷ b'l' ∷ b'o' ∷ b'c' ∷ b'k' ∷ 32 ∷ b'C' ∷ b'o' ∷ b'u' ∷ b'n' ∷ b't' ∷ b':' ∷ 32 ∷ [])
    ∷ number_to_text d.block_count
    ∷ newline
    ∷ (b'V' ∷ b'o' ∷ b'l' ∷ b'u' ∷ b'm' ∷ b'e' ∷ b's' ∷ b':' ∷ [])
    ∷ newline
    ∷ volume_texts volumes

-- "disk0 unavailable"
abbrev pub unavailable : List ℕ
unavailable =
    b'd' ∷ b'i' ∷ b's' ∷ b'k' ∷ b'0' ∷ 32 ∷ b'u' ∷ b'n' ∷ b'a' ∷ b'v' ∷ b'a' ∷ b'i' ∷ b'l' ∷ b'a'
    ∷ b'b' ∷ b'l' ∷ b'e' ∷ []

-- What the files of the devices show: the drivers' reads into a buffer of a size (`none` where no driver
-- is registered, and a failed read), the block devices and the volumes.
pub record Sources : Type 0 where
  pub keyboard_read : Option (ℕ → Option (List ℕ))
  pub mouse_read : Option (ℕ → Option (List ℕ))
  pub disks : List Device
  pub volumes : List Volume

abbrev pub answer : Option (List ℕ) → ℤ × List ℕ
answer none = (failure, [])
answer (some text) = (pos (length text), text)

disk_info_at : Sources → ℕ → Option ℕ → ℤ × List ℕ
disk_info_at src size none = answer (append_text size unavailable (some []))
disk_info_at src size (some i) =
    answer (append_all size (disk_texts (get_or src.disks i no_device) src.volumes) (some []))

-- `fill_disk_info`
unfoldable pub disk_info : Sources → ℕ → ℤ × List ℕ
unfolding disk_info_at
disk_info src size =
    disk_info_at src size (Blockdev.find src.disks (b'd' ∷ b'i' ∷ b's' ∷ b'k' ∷ b'0' ∷ []))

-- "mouse: no data" and a newline, as much as fits
unfoldable pub no_mouse : ℕ → ℤ × List ℕ
no_mouse size = answer (
    some (
      take (size - 1) (
        b'm' ∷ b'o' ∷ b'u' ∷ b's' ∷ b'e' ∷ b':' ∷ 32 ∷ b'n' ∷ b'o' ∷ 32 ∷ b'd' ∷ b'a' ∷ b't' ∷ b'a'
        ∷ newline)))

unfoldable pub mouse_with : ℕ → Option (List ℕ) → ℤ × List ℕ
mouse_with size none = no_mouse size
mouse_with size (some text) = answer (some text)
