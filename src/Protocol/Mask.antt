-- ===== src/Protocol/Mask.antt =====
-- pkg/protocol/updates.go, UpdateMask: which of an object's fields an update carries.
pub mod Laws
use moreno_go_moreno_core.Common.{
  ℕ, zero, suc, ◌+◌, ◌-◌, ◌*◌, ◌/◌, ◌%◌, ◌^◌, ◌≡◌, Bool, true, false, not, List, [], ◌∷◌, ◌++◌, ltb,
  leb, ◌==◌, if◌then◌else◌, length, get_or, set, replicate, bit_and, bit_or, Option, none, some,
}
use moreno_go_moreno_core.Protocol.Buffer.{Buffer, ℤ, pos, negsuc, write_u32}

-- 32 fields to a word. The receiver of a method is a pointer: `none` is nil.
pub record UpdateMask : Type 0 where
  pub bits : List ℕ
  pub fields : ℕ

unfoldable pub new_update_mask : ℤ → UpdateMask
new_update_mask (negsuc n) = record { bits = []; fields = 0 }
new_update_mask (pos n) = record { bits = replicate ((n + 31) / 32) 0; fields = n }

-- `none` is the error, in which the mask is as it was.
unfoldable pub set_field : Option UpdateMask → ℤ → Option UpdateMask
set_field none index = none
set_field (some m) (negsuc i) = none
set_field (some m) (pos i) =
    if leb m.fields i
    then none
    else some
        (record m { bits = set m.bits (i / 32) (bit_or (get_or m.bits (i / 32) 0) (2 ^ (i % 32))) })

unfoldable pub clear_field : Option UpdateMask → ℤ → Option UpdateMask
clear_field none index = none
clear_field (some m) (negsuc i) = none
clear_field (some m) (pos i) =
    let word = get_or m.bits (i / 32) 0 in
    if leb m.fields i
    then none
    else some (record m { bits = set m.bits (i / 32) (word - bit_and word (2 ^ (i % 32))) })

unfoldable pub has_field : Option UpdateMask → ℤ → Bool
has_field none index = false
has_field (some m) (negsuc i) = false
has_field (some m) (pos i) =
    if leb m.fields i then false else not (bit_and (get_or m.bits (i / 32) 0) (2 ^ (i % 32)) == 0)

unfoldable pub write_words : List ℕ → Buffer → Buffer
write_words [] packet = packet
write_words (part ∷ parts) packet = write_words parts (write_u32 part packet)

unfoldable pub append_to : Option UpdateMask → Buffer → Buffer
unfolding write_words
append_to none packet = packet
append_to (some m) packet = write_words m.bits packet

unfoldable pub block_count : Option UpdateMask → ℕ
block_count none = 0
block_count (some m) = length m.bits
